-- ===== src/Generator/Rows/Alerts.antt =====
-- Rows of `build_rows` of zbx/gen-template.py: the alerts.
use Prim.Native.String.{◌++◌ as ◌<>◌}
use nodeguard.Prelude.{some, List, [], ◌∷◌}
use nodeguard.Generator.Table.{Row, row, rate_twin, trig, ref}

unfoldable pub alert_rows : List Row
alert_rows =
    (row "suricata_alerts" "suricata alerts" "UNSIGNED" (
      "cumulative detect.alert count from the same suricatasc "
      <> "dump-counters call as kernel_drops"))
    ∷ (record (rate_twin "suricata_alerts" "suricata alerts rate" "detection alerts per second") {
      triggers =
          ((trig "suricata alert rate above weekly baseline on {HOST.NAME}"
              ("baselinedev("
                <> (ref "suricata_alerts.rate")
                <> ",1h:now/h,\"d\",10)>3 and last("
                <> (ref "suricata_alerts.rate")
                <> ")>1")
              "INFO"
              ("Seasonal baseline deviation with a 1/s absolute floor. Imported at "
                <> "Information severity; promoted only after 14 days of reviewed-quiet "
                <> "trend rows."))
            ∷ (trig "suricata alert rate above static ceiling on {HOST.NAME}"
                ("min(" <> (ref "suricata_alerts.rate") <> ",5m)>50") "INFO"
                ("Placeholder ceiling; value retuned from phase 5 shadow data "
                  <> "(tasks.md 5.4). Backstop for slow ramps the baseline family cannot "
                  <> "catch."))
            ∷ []);
    })
    ∷ (rate_twin "kernel_drops" "suricata kernel drop rate" (
        "capture-ring drops per second (rate twin of the cumulative counter, "
        <> "fixing the raw-cumulative plot)"))
    ∷ (record (row "suricata_update_ts" "suricata ruleset last update" "UNSIGNED" (
        "epoch of the last SUCCESSFUL suricata-update, from the stamp the "
        <> "unit's success-gated ExecStartPost writes; absent until one has " <> "succeeded")) {
          units = some "unixtime";
          triggers =
              ((trig "suricata ruleset update failing on {HOST.NAME}"
                  ("last("
                    <> (ref "suricata_update_ts")
                    <> ")>0 and fuzzytime("
                    <> (ref "suricata_update_ts")
                    <> ",180000)=0")
                  "WARNING"
                  ("Two daily cycles plus the timer's randomized-delay hour without a "
                    <> "successful update. Every automated block is driven by the et/open "
                    <> "severity-1 rules, so a chronically failing update is an enforcement "
                    <> "gap nothing else reports."))
                ∷ []);
        })
    ∷ (record (row "suricata_rules_mtime" "suricata rules file mtime" "UNSIGNED" (
        "mtime of the rules file suricata actually loads; the untriggered "
        <> "companion that says whether a successful update changed anything on " <> "disk")) {
          units = some "unixtime";
        })
    ∷ []
