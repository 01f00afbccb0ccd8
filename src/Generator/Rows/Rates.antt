-- ===== src/Generator/Rows/Rates.antt =====
-- Rows of `build_rows` of zbx/gen-template.py: the rates of the XDP program.
use Prim.Native.String.{◌++◌ as ◌<>◌}
use nodeguard.Prelude.{true, some, List, [], ◌∷◌}
use nodeguard.Generator.Table.{Row, row, trig, ref, master_of, frozen_kv_trigger}

unfoldable pub traffic_rows : List Row
traffic_rows =
    (record (row "drop_v4" "nodeguard XDP drop rate v4" "FLOAT"
      "blocked packets per second (in-kernel drops of blocklisted sources)") {
        units = some "pps";
        rate = true;
        triggers =
            ((trig "nodeguard v4 drop rate above weekly baseline on {HOST.NAME}"
                ("baselinedev("
                  <> (ref "drop_v4")
                  <> ",1h:now/h,\"d\",10)>3 and last("
                  <> (ref "drop_v4")
                  <> ")>10")
                "INFO"
                ("Seasonal baseline deviation with an absolute floor (baselinedev "
                  <> "explodes on near-zero baselines). Imported at Information severity; "
                  <> "promoted only after 14 days of reviewed-quiet trend rows."))
              ∷ (trig "nodeguard v4 drop rate above static ceiling on {HOST.NAME}"
                  ("min(" <> (ref "drop_v4") <> ",5m)>5000") "INFO"
                  ("Placeholder ceiling; value retuned from phase 5 shadow data "
                    <> "(tasks.md 5.4). Backstop for slow ramps the baseline family cannot "
                    <> "catch."))
              ∷ []);
      })
    ∷ (record (row "drop_v6" "nodeguard XDP drop rate v6" "FLOAT" "IPv6 drops per second") {
      units = some "pps";
      rate = true;
      triggers =
          ((trig "nodeguard v6 drop rate above weekly baseline on {HOST.NAME}"
              ("baselinedev("
                <> (ref "drop_v6")
                <> ",1h:now/h,\"d\",10)>3 and last("
                <> (ref "drop_v6")
                <> ")>10")
              "INFO"
              ("Seasonal baseline deviation with an absolute floor (baselinedev "
                <> "explodes on near-zero baselines). Imported at Information severity; "
                <> "promoted only after 14 days of reviewed-quiet trend rows."))
            ∷ (trig "nodeguard v6 drop rate above static ceiling on {HOST.NAME}"
                ("min(" <> (ref "drop_v6") <> ",5m)>5000") "INFO"
                ("Placeholder ceiling; value retuned from phase 5 shadow data "
                  <> "(tasks.md 5.4). Backstop for slow ramps the baseline family cannot "
                  <> "catch."))
            ∷ []);
    })
    ∷ (record (row "pass" "nodeguard XDP pass rate" "FLOAT" "default-pass packets per second") {
      units = some "pps";
      rate = true;
      triggers =
          ((record (trig "nodeguard XDP counters are not arriving on {HOST.NAME}"
              ("nodata(" <> (ref "pass") <> ",10m)=1") "WARNING"
              ("No counter value for 10 minutes, so the counters are unsupported "
                <> "rather than zero. Split out of the stats-unreadable trigger because "
                <> "only this half is a symptom of the export chain dying; combined, "
                <> "the frozen-kv dependency would have suppressed a real read failure "
                <> "whenever the clock skewed.")) {
                  depends_on = (master_of frozen_kv_trigger ∷ []);
                })
            ∷ []);
    })
    ∷ (record (row "pass_allowlist" "nodeguard allowlist pass rate" "FLOAT"
        "allowlist hits per second") { units = some "pps"; rate = true })
    ∷ (record (row "pass_wgport" "nodeguard WireGuard pass rate" "FLOAT"
        "WireGuard port passes per second") { units = some "pps"; rate = true })
    ∷ []
