-- ===== src/Generator/Surface.antt =====
-- The key check of zbx/check_template.py on what zbx/gen-template.py renders.
use nodeguard.Prelude.{◌≡◌, refl, []}
use nodeguard.Prelude.Text.{skip_prefix, drop_suffix}
use nodeguard.Template.Export.{Export, each, walk_items, discovery_rules}
use nodeguard.Template.Checker.{Checker, report, ok}
use nodeguard.Template.Surface.{check_keys, bad_keys, rule_keys, item_key_ok, kv_field, rate_source}
use nodeguard.Generator.Table.{
  trig, row, rate_twin, kv_key, iref, frozen_kv_trigger, responder_down_trigger,
}
use nodeguard.Generator.Rows.{build_rows}
use nodeguard.Generator.Rows.Units.{unit_rows}
use nodeguard.Generator.Rows.Rates.{traffic_rows}
use nodeguard.Generator.Rows.Feeds.{feeds_rows, map_errors_rows}
use nodeguard.Generator.Rows.Clock.{clock_rows}
use nodeguard.Generator.Rows.Sanity.{stats2, counter_rows}
use nodeguard.Generator.Rows.Alerts.{alert_rows}
use nodeguard.Generator.Rows.Responding.{responder_rows}
use nodeguard.Generator.Rows.Geography.{geography_rows}
use nodeguard.Generator.Rows.Populations.{population_rows}
use nodeguard.Generator.Rows.Watchdog.{watchdog_rows}
use nodeguard.Generator.Discovery.{
  build_discovery_rule, succ_key, age_key, feed_items, feed_triggers,
}
use nodeguard.Generator.Uuid.{Uuid5}
use nodeguard.Generator.Render.{
  render_item, render_master, render_proto, render_rule, export_of, render,
}
use nodeguard.Generator.Reread.{read_item, read_proto, read_rule, read_template, reread}

-- The rendered template has no key off the documented surface.
bad_keys-render : (uuid5 : Uuid5) (base : Export) → bad_keys (reread (render uuid5 base)) ≡ []
unfolding bad_keys rule_keys item_key_ok kv_field rate_source skip_prefix drop_suffix each
    walk_items discovery_rules build_rows counter_rows stats2 row trig rate_twin kv_key iref
    frozen_kv_trigger responder_down_trigger unit_rows traffic_rows feeds_rows map_errors_rows
    clock_rows alert_rows responder_rows geography_rows population_rows watchdog_rows
    build_discovery_rule succ_key age_key feed_items feed_triggers render export_of render_item
    render_master render_rule render_proto read_item read_rule read_proto read_template reread
bad_keys-render uuid5 base = refl

-- Whatever the baseline, the key check passes on the rendered template.
pub check_keys-render :
    (uuid5 : Uuid5) (c : Checker) (base : Export)
    → check_keys c (reread (render uuid5 base)) ≡ ok "kv-surface" [] c
unfolding check_keys report
check_keys-render uuid5 c base = rw (bad_keys-render uuid5 base) refl
