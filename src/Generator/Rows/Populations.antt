-- ===== src/Generator/Rows/Populations.antt =====
-- Rows of `build_rows` of zbx/gen-template.py: the maps.
use Prim.Native.String.{◌++◌ as ◌<>◌}
use nodeguard.Prelude.{some, List, [], ◌∷◌}
use nodeguard.Generator.Table.{Row, row, trig, ref}

unfoldable pub population_rows : List Row
population_rows =
    (row "blocks_v4" "nodeguard blocks v4" "UNSIGNED"
      "live v4 block-map entries, from the sweep cache")
    ∷ (row "blocks_v6" "nodeguard blocks v6" "UNSIGNED"
        "live v6 block-map entries, from the sweep cache")
    ∷ (record (row "util_v4_pct" "nodeguard v4 block map utilization" "FLOAT"
        ("v4 block-map fill percentage; denominator read from the installed " <> "map spec")) {
          units = some "%";
          triggers =
              ((trig "nodeguard v4 block map over 85 percent full on {HOST.NAME}"
                  ("last(" <> (ref "util_v4_pct") <> ")>85") "WARNING"
                  "Static ceiling; the backstop the trend projection cannot provide.")
                ∷ (trig "nodeguard v4 block map projected full within 24h on {HOST.NAME}"
                    ("timeleft("
                      <> (ref "util_v4_pct")
                      <> ",7d,90)<86400 and timeleft("
                      <> (ref "util_v4_pct")
                      <> ",7d,90)<>-1")
                    "WARNING"
                    ("7-day trend projects 90 percent within 24h; the <>-1 guard "
                      <> "suppresses the no-projection case."))
                ∷ []);
        })
    ∷ (record (row "util_v6_pct" "nodeguard v6 block map utilization" "FLOAT"
        ("v6 block-map fill percentage; denominator read from the installed " <> "map spec")) {
          units = some "%";
          triggers =
              ((trig "nodeguard v6 block map over 85 percent full on {HOST.NAME}"
                  ("last(" <> (ref "util_v6_pct") <> ")>85") "WARNING"
                  "Static ceiling; the backstop the trend projection cannot provide.")
                ∷ (trig "nodeguard v6 block map projected full within 24h on {HOST.NAME}"
                    ("timeleft("
                      <> (ref "util_v6_pct")
                      <> ",7d,90)<86400 and timeleft("
                      <> (ref "util_v6_pct")
                      <> ",7d,90)<>-1")
                    "WARNING"
                    ("7-day trend projects 90 percent within 24h; the <>-1 guard "
                      <> "suppresses the no-projection case."))
                ∷ []);
        })
    ∷ (record (row "sweep_age" "nodeguard sweep age" "UNSIGNED"
        "seconds since the sweep last wrote the map statistics cache") {
          units = some "s";
          triggers =
              ((trig "nodeguard sweep cache stale on {HOST.NAME}"
                  ("last(" <> (ref "sweep_age") <> ")>1800") "WARNING"
                  ("Three sweep periods without a cache write; map counts are aging. "
                    <> "Age is first-class so 0 scanned can never read as 0 found."))
                ∷ []);
        })
    ∷ (record (row "sweep_walk_ms" "nodeguard sweep walk duration" "FLOAT" (
        "wall time of the sweep's full trie walk; trends make walk "
        <> "degradation visible before it hurts")) { units = some "ms" })
    ∷ (record (row "top1_hits" "nodeguard top blocked hits" "UNSIGNED"
        "hit count of the busiest blocked entry at the last sweep") {
          triggers =
              ((trig "nodeguard block-hit pressure above weekly baseline on {HOST.NAME}"
                  ("baselinedev("
                    <> (ref "top1_hits")
                    <> ",1h:now/h,\"d\",10)>3 and last("
                    <> (ref "top1_hits")
                    <> ")>1000")
                  "INFO"
                  ("Seasonal baseline deviation with an absolute floor. Imported at "
                    <> "Information severity; promoted only after 14 days of reviewed-quiet "
                    <> "trend rows."))
                ∷ []);
        })
    ∷ (record (row "top_blocked" "nodeguard top blocked sources" "TEXT" (
        "top-5 blocked sources ranked by hit DELTA since the previous sweep "
        <> "walk, cumulative carried as the secondary figure")) { trends = "0" })
    ∷ (record (row "rearm_count" "nodeguard re-arm count" "UNSIGNED"
        ("cumulative once-per-boot kill-switch auto re-arms, from config map " <> "slot 2")) {
          triggers =
              ((trig "nodeguard kill switch auto re-arm occurred on {HOST.NAME}"
                  ("change(" <> (ref "rearm_count") <> ")>0") "WARNING"
                  ("The watchdog re-armed enforcement after a latch; review why the "
                    <> "latch happened."))
                ∷ []);
        })
    ∷ []
