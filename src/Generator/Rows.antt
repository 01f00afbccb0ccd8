-- ===== src/Generator/Rows.antt =====
-- `build_rows` of zbx/gen-template.py: the rows of the table in render order.
pub mod Units
pub mod Rates
pub mod Feeds
pub mod Clock
pub mod Alerts
pub mod Responding
pub mod Geography
pub mod Populations
pub mod Watchdog
pub mod Sanity
use nodeguard.Prelude.{List, ◌++◌}
use nodeguard.Generator.Table.{Row}
use Units.{unit_rows}
use Rates.{traffic_rows}
use Feeds.{feeds_rows, map_errors_rows}
use Clock.{clock_rows}
use Sanity.{stats2, counter_rows}
use Alerts.{alert_rows}
use Responding.{responder_rows}
use Geography.{geography_rows}
use Populations.{population_rows}
use Watchdog.{watchdog_rows}

unfoldable pub build_rows : List Row
build_rows =
    unit_rows
    ++ traffic_rows
    ++ feeds_rows
    ++ map_errors_rows
    ++ clock_rows
    ++ counter_rows stats2
    ++ alert_rows
    ++ responder_rows
    ++ geography_rows
    ++ population_rows
    ++ watchdog_rows
