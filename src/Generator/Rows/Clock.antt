-- ===== src/Generator/Rows/Clock.antt =====
-- Rows of `build_rows` of zbx/gen-template.py: the export itself.
use Prim.Native.String.{◌++◌ as ◌<>◌}
use nodeguard.Prelude.{true, some, List, [], ◌∷◌}
use nodeguard.Generator.Table.{Row, row, trig, ref, frozen_kv_trigger}

unfoldable pub clock_rows : List Row
clock_rows =
    (record (row "ts" "nodeguard kv timestamp" "UNSIGNED"
      "epoch stamped by the exporter at the top of the kv file") {
        units = some "unixtime";
        triggers = (frozen_kv_trigger ∷ []);
      })
    ∷ (record (row "stats_read_fail" "nodeguard stats read failure" "UNSIGNED" (
        "1 = the stats pin exists but the dump or parse failed; the counter "
        <> "keys are omitted rather than served as zeros")) {
          triggers =
              ((trig "nodeguard stats unreadable on {HOST.NAME}"
                  ("last(" <> (ref "stats_read_fail") <> ")=1") "WARNING"
                  ("stats_read_fail=1: the stats pin exists but the dump or the parse "
                    <> "failed, so the XDP counters are unknown, not zero. Value-based and "
                    <> "independent of the export chain, so it carries no dependency; a "
                    <> "fresh kv that reports its own counters unreadable has to page on "
                    <> "its own."))
                ∷ []);
        })
    ∷ (record (row "stats2_read_fail" "nodeguard stats2 read failure" "UNSIGNED" (
        "1 = the stats2 pin exists but the dump or parse failed; the sanity "
        <> "counter keys are omitted rather than served as zeros")) {
          triggers =
              ((trig "nodeguard stats2 unreadable on {HOST.NAME}"
                  ("last(" <> (ref "stats2_read_fail") <> ")=1") "WARNING"
                  ("The stats2 pin exists but could not be read; sanity counters are "
                    <> "unknown, not zero."))
                ∷ []);
        })
    ∷ (record (row "pass_expired" "nodeguard expired pass rate" "FLOAT"
        ("packets per second passed because their block entry had expired " <> "in-kernel")) {
          units = some "pps";
          rate = true;
          triggers =
              ((trig "nodeguard expired entries are outliving the sweep on {HOST.NAME}"
                  ("min(" <> (ref "pass_expired") <> ",15m)>0") "WARNING"
                  ("Strictly positive on every sample for longer than a full 10-minute "
                    <> "sweep period plus margin: corpses are being created faster than the "
                    <> "sweep deletes them, or the sweep is not deleting them at all. An "
                    <> "expired more-specific entry shadows the live broader block that "
                    <> "covers it until the sweep runs (kernel finding K2). Placeholder "
                    <> "window; brief blips at normal TTL expiry cannot trip a min()."))
                ∷ []);
        })
    ∷ (record (row "pass_nonip" "nodeguard non-IP pass rate" "FLOAT"
        "non-IP ethertype passes per second") { units = some "pps"; rate = true })
    ∷ (record (row "pass_parsefail" "nodeguard parse-fail pass rate" "FLOAT" (
        "packets per second passed because the IP header failed bounds "
        <> "validation (fail-open by design)")) { units = some "pps"; rate = true })
    ∷ []
