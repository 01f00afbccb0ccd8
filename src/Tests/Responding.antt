-- ===== src/Tests/Responding.antt =====
-- Runs of the responder's handler, and instances of its theorems.
use nodeguard.Prelude.{
  ℕ, ◌+◌, ◌*◌, ◌≤◌, ◌≡◌, refl, ap, List, String, true, false, not, ◌&&◌, Option, none, some, [],
  ◌∷◌, str_eq, if◌then◌else◌, arith, ◌==◌,
}
use nodeguard.Prelude.Dict.{lookup, insert, keep_if, has}
use nodeguard.Net.{v4, Address, contains, block_size}
use nodeguard.Responder.State.{
  second, EventState, offender, save, flush_sec, expire_windows, prune, load, rec_of, sighting,
  offense, is_stamp,
}
use nodeguard.Responder.Handler.{
  Event, Line, event, Host, blocked, capped, covered, refresh, fetch, screen, ttl_for, drop_old,
  age, at_cap, suppress, account, act, attempt, on_protected, on_addresses, handle_alert,
  count_alert, handle_event,
}
use nodeguard.Responder.Gates.{ttl_of, Passed, handle_event-Passed}
use nodeguard.Responder.Rates.{rates}
use nodeguard.Responder.Window.{
  Until, Capped, recent, attempt_times, handle_event-Capped, attempt_times-within_cap,
}
use nodeguard.Responder.Escalation.{offenses, handle_event-count, handle_event-keeps_sources}
use nodeguard.Responder.Offenses.{source}
use nodeguard.Responder.Repeat.{at_most, handle_event-escalates}
use nodeguard.Responder.Boot.{survivors, load-expires, load-save}
use nodeguard.Responder.Loop.{Loop, Turn, Step, turn}
use nodeguard.Responder.Rehearsal.{in_mode, Agree, handle_event-Agree}

-- What a run of the handler computes with.
runs : Unit {0}
unfolding handle_event handle_alert count_alert on_addresses on_protected attempt act account
    suppress at_cap age drop_old ttl_for screen refresh fetch flush_sec sighting offense rec_of save
    offender expire_windows prune load lookup insert keep_if contains block_size
runs = tt

abbrev home : Address
home = record { version = v4; value = 3405803783 }

abbrev attacker : Address
attacker = record { version = v4; value = 16909060 }

abbrev parse : String → Option Address
parse s =
    if str_eq s "203.0.113.7" then some home else if str_eq s "1.2.3.4" then some attacker else none

-- The host at a time: everything but the home address is global, and nothing is allowed.
abbrev host_at : ℕ → Host
host_at now = record {
  ip_address = parse;
  is_global = λ a. not (a.value == home.value);
  monotonic = now;
  time = λ k. now;
  allow_dump = some [];
  block_fn = λ src ttl. 0;
}

abbrev alert : Line
alert = event (record {
  event_type = "alert";
  lag = some 0;
  signature_id = 2001219;
  severity = 1;
  pkts_toclient = 3;
  pkts_toserver = 4;
  src_ip = "1.2.3.4";
  dest_ip = "203.0.113.7";
  proto = "TCP";
})

-- Enforcing, with room for one attempt in a minute.
abbrev start : EventState
start = record {
  conf = record {
    enforce = true;
    ttl_base = 3600;
    ttl_max = 86400;
    rate_min_cap = 1;
    rate_hour_cap = 500;
    home_nets = record { version = v4; address = 3405803776; prefixlen = 24 } ∷ [];
  };
  sids = record { optin = []; ignored = []; udp_ok = [] };
  journal = record {
    boot = "b1";
    entries = [];
    dirty = false;
    last_flush = 0;
    file = record { records = []; boot_stamp = some "b1" };
  };
  allow = record { nets = none; fetched = 0 };
  minute = [];
  hour_seen = [];
  capped_episode = false;
  capped_suppressed = 0;
  malformed = 0;
  sec = record {
    alerts_seen = 0;
    blocks_issued = 0;
    dryrun_would_block = 0;
    last_alert_ts = 0;
    last_action_ts = 0;
    lag_s = 0;
  };
  sec_dirty = true;
  sec_last_flush = 0;
  sec_file = none;
}

abbrev noon : ℕ
noon = 43200 * second

-- After the first block's window.
abbrev evening : ℕ
evening = noon + 3601 * second

abbrev after_block : EventState
after_block = (handle_event (host_at noon) alert start noon).1

blocked_once : (handle_event (host_at noon) alert start noon).0 ≡ blocked 3600
unfolding runs
blocked_once = refl

covered_then : (handle_event (host_at noon) alert after_block noon).0 ≡ covered
unfolding runs
covered_then = refl

blocked_twice : (handle_event (host_at evening) alert after_block evening).0 ≡ blocked 7200
unfolding runs
blocked_twice = refl

attempted : ttl_of (handle_event (host_at noon) alert start noon).0 ≡ some 3600
attempted = ap ttl_of blocked_once

-- The same alert where the minute's room is used up by another source.
abbrev full : EventState
full = record start { minute = noon ∷ [] }

capped_now : (handle_event (host_at noon) alert full noon).0 ≡ capped
unfolding runs
capped_now = refl

start-Capped : Capped (rates start)
start-Capped = record { minute = omega arith; hour = omega arith }

handle_event-Passed_example :
    (ev : Event) × (alert ≡ event ev)
    × (ev.event_type ≡ "alert")
    × Passed (host_at noon) ev start noon 3600
handle_event-Passed_example = handle_event-Passed (host_at noon) alert start noon 3600 attempted

handle_event-Capped_example : Capped (rates (handle_event (host_at noon) alert start noon).1)
handle_event-Capped_example = handle_event-Capped (host_at noon) alert start noon start-Capped

handle_event-count_example :
    (offender "1.2.3.4" (handle_event (host_at noon) alert start noon).1.journal).count
    ≡ (offender "1.2.3.4" start.journal).count
      + offenses (source alert) "1.2.3.4" (handle_event (host_at noon) alert start noon).0
handle_event-count_example = handle_event-count (host_at noon) alert start noon "1.2.3.4"

handle_event-keeps_sources_example :
    has "1.2.3.4" (handle_event (host_at noon) alert full noon).1.journal.entries
    ≡ has "1.2.3.4" full.journal.entries
handle_event-keeps_sources_example =
    handle_event-keeps_sources (host_at noon) alert full noon "1.2.3.4" (ap ttl_of capped_now)

handle_event-escalates_example :
    (noon + 3600 * second ≤ evening) × (7200 ≡ at_most 86400 (2 * 3600))
handle_event-escalates_example =
    handle_event-escalates (host_at noon) (host_at evening) alert alert start noon evening 3600 7200
      blocked_once refl (ap ttl_of blocked_twice)

stamped : is_stamp after_block.journal.file.boot_stamp "b2" ≡ false
unfolding runs
stamped = refl

load-expires_example :
    (offender "1.2.3.4" (load (λ k. evening) "b2" after_block.journal.file)).blocked_until ≡ 0
load-expires_example = load-expires (λ k. evening) "b2" after_block.journal.file "1.2.3.4" stamped

load-save_example :
    (load (λ k. evening) "b1" (save noon after_block.journal).file).entries
    ≡ survivors evening
        (not (str_eq after_block.journal.boot "") && str_eq after_block.journal.boot "b1")
        after_block.journal.entries
load-save_example = load-save (λ k. evening) noon "b1" after_block.journal

-- The loop, a while after the block.
abbrev waiting : Loop
waiting = record {
  st = after_block;
  last_prune = noon;
  last_malformed_report = noon;
  sids_mtime = 1;
}

abbrev one_line : Turn
one_line = record {
  line = alert;
  host = host_at noon;
  now = noon;
  pruned = λ k. noon;
  saved = noon;
  mtime = none;
  sids = start.sids;
}

-- Three alerts in one minute, handled before the first flush.
abbrev storm : List Step
storm = turn one_line ∷ turn one_line ∷ turn one_line ∷ []

storm-Until : Until noon storm
storm-Until = (omega arith, (omega arith, (omega arith, tt)))

attempt_times-within_cap_example :
    recent noon (attempt_times storm (record waiting { st = start })) ≤ 1
attempt_times-within_cap_example =
    attempt_times-within_cap noon storm (record waiting { st = start }) storm-Until start-Capped

handle_event-Agree_example :
    Agree
      (handle_event (host_at noon) alert (in_mode true start) noon)
      (handle_event (host_at noon) alert (in_mode false start) noon)
handle_event-Agree_example = handle_event-Agree (host_at noon) alert start noon
