-- ===== src/Generator/Rows/Responding.antt =====
-- Rows of `build_rows` of zbx/gen-template.py: the responder.
use Prim.Native.String.{◌++◌ as ◌<>◌}
use nodeguard.Prelude.{some, List, [], ◌∷◌}
use nodeguard.Generator.Table.{Row, row, rate_twin, trig, ref, master_of, responder_down_trigger}

unfoldable pub responder_rows : List Row
responder_rows =
    (row "resp_alerts_seen" "responder alerts seen" "UNSIGNED"
      "cumulative EVE alerts the responder has consumed")
    ∷ (row "resp_blocks_issued" "responder blocks issued" "UNSIGNED"
        "cumulative blocks the responder has written to the maps")
    ∷ (rate_twin "resp_blocks_issued" "responder blocks issued rate" (
        "blocks written to the maps per second (rate twin; the "
        <> "alert-to-block graph plots this, because a monotonic line flattens "
        <> "the per-second series beside it)"))
    ∷ (row "resp_dryrun_would_block" "responder dry-run would-block" "UNSIGNED"
        "cumulative blocks the responder would have issued while in dry-run")
    ∷ (rate_twin "resp_dryrun_would_block" "responder dry-run would-block rate" (
        "would-be blocks per second (rate twin; the dry-run divergence the "
        <> "graph exists to show only reads against the issued-block rate)"))
    ∷ (record (row "resp_last_alert_ts" "responder last alert time" "UNSIGNED"
        "epoch of the last alert the responder consumed") { units = some "unixtime" })
    ∷ (record (row "resp_last_action_ts" "responder last action time" "UNSIGNED"
        "epoch of the responder's last block or dry-run decision") { units = some "unixtime" })
    ∷ (record (row "resp_kv_age" "nodeguard responder heartbeat age" "UNSIGNED" (
        "seconds since the responder last rewrote its kv file; it rewrites "
        <> "at least once a minute while its event loop is alive, so this "
        <> "separates quiet from wedged")) {
          units = some "s";
          triggers =
              ((record (trig "nodeguard responder heartbeat stopped on {HOST.NAME}"
                  ("last(" <> (ref "resp_kv_age") <> ")>120") "WARNING"
                  ("Two missed heartbeats plus poll jitter. The unit can stay active "
                    <> "while the event loop is wedged, in which case the last kv values "
                    <> "are served forever; this is the only signal that says so. It "
                    <> "carries no dependency on the frozen-kv trigger (a wedged responder "
                    <> "is independent of the export chain), only on the unit-down trigger, "
                    <> "which is the same fault reported one layer down.")) {
                      depends_on = (master_of responder_down_trigger ∷ []);
                    })
                ∷ []);
        })
    ∷ (record (row "resp_lag_s" "nodeguard responder alert lag" "UNSIGNED" (
        "seconds between an EVE record's own timestamp and the responder "
        <> "processing it; deliberately untriggered, the point is that the lag "
        <> "is measured at all")) { units = some "s" })
    ∷ []
