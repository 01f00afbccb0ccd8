-- ===== src/Generator/Rows/Watchdog.antt =====
-- Rows of `build_rows` of zbx/gen-template.py: the watchdog.
use Prim.Native.String.{◌++◌ as ◌<>◌}
use nodeguard.Prelude.{some, List, [], ◌∷◌}
use nodeguard.Generator.Table.{Row, row, trig, ref}

unfoldable pub watchdog_rows : List Row
watchdog_rows =
    (record (row "prog_match" "nodeguard program identity match" "UNSIGNED" (
      "1 = the live head program id equals "
      <> "/run/nodeguard/expected_prog_id; key omitted when the expected id "
      <> "is unknown, so the item goes unsupported instead of false-paging")) {
        triggers =
            ((trig "nodeguard running program is not the installed one on {HOST.NAME}"
                ("max(" <> (ref "prog_match") <> ",3m)=0") "HIGH"
                ("The attached XDP program is not the one reload or attach installed; "
                  <> "enforcement provenance unknown."))
              ∷ []);
      })
    ∷ (record (row "attach_mode" "nodeguard attach mode" "TEXT"
        "native, skb, or none, from xdp-loader status") { trends = "0" })
    ∷ (row "wd_canary_fail" "nodeguard watchdog canary failures" "UNSIGNED" (
        "consecutive canary failures at the last completed watchdog cycle "
        <> "(one-cycle lag; triggers use >= so the lag cannot mask a trip)"))
    ∷ (row "wd_lifeline_fail" "nodeguard watchdog lifeline failures" "UNSIGNED" (
        "consecutive lifeline failures at the last completed watchdog cycle " <> "(one-cycle lag)"))
    ∷ (row "wd_toolfail" "nodeguard watchdog tool failures" "UNSIGNED"
        ("consecutive tooling failures at the last completed watchdog cycle " <> "(one-cycle lag)"))
    ∷ (row "wd_clean" "nodeguard watchdog clean cycles" "UNSIGNED" (
        "cumulative clean watchdog cycles; a stalled value with the timer "
        <> "active means the cycle is failing"))
    ∷ (record (row "anomaly_count" "nodeguard anomaly count" "UNSIGNED"
        "cumulative volumetric anomaly trips from the gateway-local EWMA detector") {
          triggers =
              ((trig "nodeguard volumetric anomaly detected on {HOST.NAME}"
                  ("change(" <> (ref "anomaly_count") <> ")>0") "HIGH"
                  ("The gateway-local EWMA detector tripped: a per-cycle delta exceeded "
                    <> "max(floor, mean + K * deviation) for the configured consecutive "
                    <> "cycles."))
                ∷ []);
        })
    ∷ (row "anomaly_shadow_count" "nodeguard anomaly shadow count" "UNSIGNED" (
        "cumulative shadow-mode trips (logged and exported, no alerting side "
        <> "effects); used to review the training window before promotion"))
    ∷ (record (row "anomaly_last_ts" "nodeguard last anomaly time" "UNSIGNED"
        "epoch of the most recent anomaly trip") { units = some "unixtime" })
    ∷ (record (row "sweep_timer" "nodeguard sweep timer state" "TEXT" (
        "systemd is-active for nodeguard-sweep.timer (previously exported "
        <> "but untemplated)")) {
          trends = "0";
          triggers =
              ((trig "nodeguard sweep timer is not active on {HOST.NAME}"
                  ("last(" <> (ref "sweep_timer") <> ")<>\"active\"") "WARNING"
                  ("Belt-and-braces companion to the sweep_age trigger; the cache will "
                    <> "age out while this is inactive."))
                ∷ []);
        })
    ∷ []
