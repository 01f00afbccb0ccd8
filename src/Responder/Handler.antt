-- ===== src/Responder/Handler.antt =====
-- `handle_event` of bin/nodeguard-responder: one line of eve.json through the gates.
use nodeguard.Prelude.{
  ℕ, ◌+◌, ◌*◌, ◌^◌, ◌/◌, String, Bool, true, false, not, ◌&&◌, ◌||◌, Option, none, some, List, [],
  ◌∷◌, ◌++◌, ltb, leb, ◌==◌, str_eq, if◌then◌else◌, any, length,
}
use nodeguard.Prelude.Dict.{insert, has, keep_if}
use nodeguard.Net.{Network, Address, contains}
use nodeguard.Responder.State.{
  second, Clock, Config, AllowCache, EventState, mem, offender, sighting, offense, flush_sec,
}

-- An event as the handler reads it: `proto` is its text in upper case, `lag` is what `eve_lag` makes
-- of its timestamp, and an absent field has the default of its `get`.
pub record Event : Type 0 where
  pub event_type : String
  pub lag : Option ℕ
  pub signature_id : ℕ
  pub severity : ℕ
  pub pkts_toclient : ℕ
  pub pkts_toserver : ℕ
  pub src_ip : String
  pub dest_ip : String
  pub proto : String

-- A line: no JSON, JSON but no object, or an object.
pub data Line : Type 0 where
  bad_json : Line
  not_object : Line
  event : Event → Line

-- What one call asks of the host: parsing and classes of addresses, the clocks, `ngmap.py
-- allow-dump`, and the exit code of nodeguard-block.
pub record Host : Type 0 where
  pub ip_address : String → Option Address
  pub is_global : Address → Bool
  pub monotonic : ℕ
  pub time : Clock
  pub allow_dump : Option (List Network)
  pub block_fn : String → ℕ → ℕ

-- Where the handler returned; the number is the TTL.
pub data Outcome : Type 0 where
  unreadable no_alert ignored low_severity not_eligible no_flow bad_address not_inbound not_global :
      Outcome
  undeterminable allowlisted covered capped : Outcome
  would_block blocked block_failed : ℕ → Outcome

-- A failed dump leaves no list.
unfoldable pub fetch : Host → AllowCache → AllowCache
fetch h c = elim h.allow_dump [
  | none ↦ record c { nets = none }
  | some ns ↦ record { nets = some ns; fetched = h.monotonic }
]

-- `AllowCache.protected`: the list is fetched again after 60 seconds.
unfoldable pub refresh : Host → AllowCache → AllowCache
unfolding fetch
refresh h c = elim c.nets [
  | none ↦ fetch h c
  | some _ ↦ if ltb (c.fetched + 60 * second) h.monotonic then fetch h c else c
]

abbrev pub any_contains : Option (List Network) → Address → Option Bool
any_contains none a = none
any_contains (some ns) a = some (any (λ n. contains n a) ns)

-- The early returns before any address is parsed.
unfoldable pub screen : EventState → Event → Option Outcome
screen st ev =
    if mem ev.signature_id st.sids.ignored
    then some ignored
    else if not (ev.severity == 1) && not (mem ev.signature_id st.sids.optin)
    then some low_severity
    else if not (str_eq ev.proto "TCP") && not (mem ev.signature_id st.sids.udp_ok)
    then some not_eligible
    else if str_eq ev.proto "TCP" && (ltb ev.pkts_toclient 1 || ltb ev.pkts_toserver 2)
    then some no_flow
    else none

-- `min(ttl_base * 2 ** count, ttl_max)`
unfoldable pub ttl_for : Config → ℕ → ℕ
ttl_for c n = let t = c.ttl_base * 2 ^ n in if leb t c.ttl_max then t else c.ttl_max

-- `while minute and minute[0] < now - 60: minute.popleft()`
unfoldable pub drop_old : ℕ → List ℕ → List ℕ
drop_old now [] = []
drop_old now (t ∷ ts) =
    let rest = drop_old now ts in if ltb (t + 60 * second) now then rest else t ∷ ts

-- Both rate structures without what is too old.
unfoldable pub age : ℕ → EventState → EventState
unfolding drop_old
age now st = record st {
  minute = drop_old now st.minute;
  hour_seen = keep_if (λ ts. leb now (ts + 3600 * second)) st.hour_seen;
}

unfoldable pub at_cap : String → EventState → Bool
at_cap src st =
    leb st.conf.rate_min_cap (length st.minute)
    || (not (has src st.hour_seen) && leb st.conf.rate_hour_cap (length st.hour_seen))

-- The readings after the first.
abbrev pub later : Clock → Clock
later time k = time (k + 1)

-- The cap is engaged: only a source with a record is journaled.
unfoldable pub suppress : Host → Event → EventState → EventState
suppress h ev st =
    let st' =
      if has ev.src_ip st.journal.entries
      then record st { journal = sighting (later h.time) ev.src_ip ev.signature_id st.journal }
      else record st { capped_suppressed = st.capped_suppressed + 1 } in
    record st' { capped_episode = true }

-- The attempt is counted, and a capped episode ends.
unfoldable pub account : ℕ → String → EventState → EventState
account now src st = record st {
  capped_suppressed = if st.capped_episode then 0 else st.capped_suppressed;
  capped_episode = false;
  minute = st.minute ++ (now ∷ []);
  hour_seen = if has src st.hour_seen then st.hour_seen else insert src now st.hour_seen;
}

-- The block, or its rehearsal.
unfoldable pub act : Host → Event → EventState → ℕ → Outcome × EventState
act h ev st now =
    let ttl = ttl_for st.conf (offender ev.src_ip st.journal).count in
    if not st.conf.enforce
    then (
      would_block ttl,
      record st {
        journal = offense (later h.time) ev.src_ip ev.signature_id ttl true st.journal;
        sec = record st.sec {
          dryrun_would_block = st.sec.dryrun_would_block + 1;
          last_action_ts = now / second;
        };
        sec_dirty = true;
      },
    )
    else if h.block_fn ev.src_ip ttl == 0
    then (
      blocked ttl,
      record st {
        journal = offense (later h.time) ev.src_ip ev.signature_id ttl false st.journal;
        sec = record st.sec {
          blocks_issued = st.sec.blocks_issued + 1;
          last_action_ts = now / second;
        };
        sec_dirty = true;
      },
    )
    else (block_failed ttl, st)

-- From the window check on: the source is not covered by the allow maps.
unfoldable pub attempt : Host → Event → EventState → ℕ → Outcome × EventState
attempt h ev st now =
    if ltb now (offender ev.src_ip st.journal).blocked_until
    then (
      covered,
      record st { journal = sighting (later h.time) ev.src_ip ev.signature_id st.journal },
    )
    else let aged = age now st in
      if at_cap ev.src_ip aged
      then (capped, suppress h ev aged)
      else act h ev (account now ev.src_ip aged) now

-- After the allow maps' answer.
unfoldable pub on_protected : Host → Event → Option Bool → EventState → ℕ → Outcome × EventState
on_protected h ev none st now = (undeterminable, st)
on_protected h ev (some true) st now = (allowlisted, st)
on_protected h ev (some false) st now = attempt h ev st now

-- Direction and address class, then the allow maps.
unfoldable pub on_addresses :
    Host → Event → Option Address → Option Address → EventState → ℕ → Outcome × EventState
on_addresses h ev (some src) (some dst) st now =
    if not (any (λ n. contains n dst) st.conf.home_nets)
    then (not_inbound, st)
    else if not (h.is_global src)
    then (not_global, st)
    else let cache = refresh h st.allow in
      on_protected h ev (any_contains cache.nets src) (record st { allow = cache }) now
on_addresses h ev _ _ st now = (bad_address, record st { malformed = st.malformed + 1 })

-- An alert, once it is counted.
unfoldable pub handle_alert : Host → Event → EventState → ℕ → Outcome × EventState
handle_alert h ev st now = elim (screen st ev) [
  | some o ↦ (o, st)
  | none ↦ on_addresses h ev (h.ip_address ev.src_ip) (h.ip_address ev.dest_ip) st now
]

-- The telemetry of an alert.
unfoldable pub count_alert : Host → Event → EventState → ℕ → EventState
count_alert h ev st now = flush_sec (h.time 0) (record st {
  sec = record st.sec {
    alerts_seen = st.sec.alerts_seen + 1;
    last_alert_ts = now / second;
    lag_s = elim ev.lag [ none ↦ st.sec.lag_s | some l ↦ l ];
  };
  sec_dirty = true;
})

-- `handle_event`
unfoldable pub handle_event : Host → Line → EventState → ℕ → Outcome × EventState
handle_event h bad_json st now = (unreadable, record st { malformed = st.malformed + 1 })
handle_event h not_object st now = (no_alert, flush_sec (h.time 0) st)
handle_event h (event ev) st now =
    if str_eq ev.event_type "alert"
    then handle_alert h ev (count_alert h ev st now) now
    else (no_alert, flush_sec (h.time 0) st)
