-- ===== src/Generator/Rows/Units.antt =====
-- Rows of `build_rows` of zbx/gen-template.py: the state of the units.
use Prim.Native.String.{◌++◌ as ◌<>◌}
use nodeguard.Prelude.{List, [], ◌∷◌}
use nodeguard.Generator.Table.{
  Row, row, trig, ref, master_of, frozen_kv_trigger, responder_down_trigger,
}

unfoldable pub unit_rows : List Row
unit_rows =
    (record (row "attach_state" "nodeguard attach state" "TEXT" (
      "attached, detached, or unknown (xdp-loader itself failed; the "
      <> "program may still be enforcing)")) {
        trends = "0";
        triggers =
            ((trig "nodeguard XDP is not attached on {HOST.NAME}"
                ("last(" <> (ref "attach_state") <> ")<>\"attached\"") "WARNING"
                ("detached = fail open (no enforcement); unknown = xdp-loader broken, "
                  <> "state unverifiable"))
              ∷ (record (trig "nodeguard telemetry stale on {HOST.NAME}"
                  ("nodata(" <> (ref "attach_state") <> ",10m)=1") "WARNING"
                  ("The watchdog export or the agent path is dead; nodeguard state "
                    <> "unknown to monitoring.")) {
                      depends_on = (master_of frozen_kv_trigger ∷ []);
                    })
              ∷ []);
      })
    ∷ (record (row "killswitch" "nodeguard kill switch" "UNSIGNED"
        "nonzero = enforcement soft-off (latched)") {
          triggers =
              ((trig "nodeguard enforcement latched OFF on {HOST.NAME}"
                  ("last(" <> (ref "killswitch") <> ")=1") "HIGH"
                  ("nodeguard-on to re-arm after diagnosing; check ng.latch for manual "
                    <> "vs watchdog"))
                ∷ []);
        })
    ∷ (record (row "latch" "nodeguard latch owner" "TEXT" "manual, watchdog, or none") {
      trends = "0";
    })
    ∷ (row "blocks" "nodeguard active blocks" "UNSIGNED" "entries in the block maps")
    ∷ (record (row "port_match" "nodeguard wg port match" "UNSIGNED"
        "1 = config[0] equals tailscaled's live port") {
          triggers =
              ((trig "nodeguard WireGuard port drift on {HOST.NAME}"
                  ("last(" <> (ref "port_match") <> ")=0") "WARNING"
                  ("watchdog rewrites within a minute; persistent drift means the "
                    <> "watchdog timer is dead"))
                ∷ []);
        })
    ∷ (record (row "suricata" "suricata unit state" "TEXT" "systemd is-active for suricata") {
      trends = "0";
      triggers =
          ((trig "suricata is not active on {HOST.NAME}"
              ("last(" <> (ref "suricata") <> ")<>\"active\"") "WARNING"
              "detection blind while down; zero traffic impact by design")
            ∷ []);
    })
    ∷ (record (row "responder" "nodeguard responder unit state" "TEXT"
        "systemd is-active for nodeguard-responder") {
          trends = "0";
          triggers = (responder_down_trigger ∷ []);
        })
    ∷ (record (row "kernel_drops" "suricata kernel drops" "UNSIGNED"
        "cumulative af-packet kernel_drops across capture threads") {
          triggers =
              ((trig "suricata capture is dropping packets on {HOST.NAME}"
                  ("last("
                    <> (ref "kernel_drops")
                    <> ")-last("
                    <> (ref "kernel_drops")
                    <> ",#5)>50000")
                  "WARNING"
                  ("ring saturated; reduced detection coverage. Raise ring-size or trim "
                    <> "the ruleset"))
                ∷ []);
        })
    ∷ []
