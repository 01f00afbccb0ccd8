-- ===== src/Generator/Rows/Feeds.antt =====
-- Rows of `build_rows` of zbx/gen-template.py: the feeds.
use Prim.Native.String.{◌++◌ as ◌<>◌}
use nodeguard.Prelude.{List, [], ◌∷◌}
use nodeguard.Generator.Table.{Row, row, trig, ref}

unfoldable pub feeds_rows : List Row
feeds_rows =
    (row "feeds_enforce" "feeds enforce" "UNSIGNED" "1 = FEEDS_ENFORCE=yes in the deployed config")
    ∷ (row "feeds_approved" "feeds approved count" "UNSIGNED" "feeds recorded in approved.json")
    ∷ (record (row "feeds_config_approved_mismatch" "feeds config/approval mismatch" "UNSIGNED" (
        "1 = approvals exist but the deployed config does not enforce them "
        <> "(deploy-reverted config tripwire)")) {
          triggers =
              ((trig "nodeguard feeds config/approval mismatch on {HOST.NAME}"
                  ("min(" <> (ref "feeds_config_approved_mismatch") <> ",13h)>0") "WARNING"
                  ("A deploy likely reverted a live config edit; enforcement is "
                    <> "decaying open. Re-align hosts/<host>/feeds.conf and redeploy."))
                ∷ []);
        })
    ∷ (record (row "feeds_journal_reset" "feeds journal reset" "UNSIGNED"
        "1 = state.json was lost and rebuilt insert-only this run") {
          triggers =
              ((trig "nodeguard feeds journal was lost on {HOST.NAME}"
                  ("last(" <> (ref "feeds_journal_reset") <> ")=1") "WARNING"
                  ("The CAS journal was lost and rebuilt insert-only, so this run owns "
                    <> "no prior entries and cannot withdraw them; incident-relevant the "
                    <> "moment it is reported, not after a window."))
                ∷ []);
        })
    ∷ (record (row "feeds_churn_held" "feeds churn held" "UNSIGNED"
        "1 = a feed's composition jumped past the churn brake") {
          triggers =
              ((trig "nodeguard feed composition churn held on {HOST.NAME}"
                  ("last(" <> (ref "feeds_churn_held") <> ")=1") "WARNING"
                  ("Review last-diff.txt; accept with nodeguard-feeds apply --feed <id> "
                    <> "--confirm."))
                ∷ []);
        })
    ∷ (record (row "feeds_last_run_ts" "feeds last run" "UNSIGNED" "epoch of the last run") {
      triggers =
          ((trig "nodeguard feeds have never run on {HOST.NAME}"
              ("max(" <> (ref "feeds_last_run_ts") <> ",24h)=0") "WARNING"
              ("feeds_last_run_ts has been 0 for 24h: a wiped /var/lib/nodeguard or "
                <> "a disabled feeds timer. Deliberately not gated on last()>0 so the "
                <> "never-ran state cannot read healthy forever."))
            ∷ []);
    })
    ∷ (row "feeds_entries" "feeds owned entries" "UNSIGNED" "journal-owned block entries")
    ∷ (row "feeds_candidates" "feeds candidates" "UNSIGNED" "candidates seen this run")
    ∷ (record (row "feeds_rejected" "feeds rejected" "UNSIGNED" (
        "candidates dropped by protected/allow guards; nonzero is anomalous "
        <> "with bogon feeds excluded upstream")) {
          triggers =
              ((trig "nodeguard feed shipped protected ranges on {HOST.NAME}"
                  ("min(" <> (ref "feeds_rejected") <> ",13h)>0") "WARNING"
                  ("A curated feed is shipping protected or allowlisted ranges; review "
                    <> "last-diff.txt."))
                ∷ []);
        })
    ∷ (record (row "feeds_failed" "feeds failed count" "UNSIGNED"
        "feeds FAILED this run (fetch, validation, staleness, canary)") {
          triggers =
              ((trig "nodeguard feeds failing for 18h on {HOST.NAME}"
                  ("min(" <> (ref "feeds_failed") <> ",19h)>0") "INFO"
                  "Transient-failure carrier; per-feed staleness escalates separately.")
                ∷ []);
        })
    ∷ (row "feeds_last_success_ts_min" "feeds oldest success" "UNSIGNED"
        "min over configured feeds of the last successful exchange")
    ∷ []

unfoldable pub map_errors_rows : List Row
map_errors_rows =
    (record (row "feeds_map_errors" "feeds map errors" "UNSIGNED"
      ("per-key bpftool failures this run (one lost key each, never a lost " <> "batch)")) {
        triggers =
            ((trig "nodeguard feeds map writes failing on {HOST.NAME}"
                ("min(" <> (ref "feeds_map_errors") <> ",13h)>0") "WARNING"
                ("Per-key map writes have failed across two full feed cycles plus "
                  <> "margin: the loader is not a one-off blip short of entries, it is "
                  <> "persistently unable to write them."))
              ∷ []);
      })
    ∷ []
