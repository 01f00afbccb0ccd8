-- ===== src/Responder/State.antt =====
-- What bin/nodeguard-responder reads and mutates: configuration, offense journal, allow cache, rate
-- structures and telemetry. Times are natural numbers of ticks, `second` ticks to a second.
use nodeguard.Prelude.{
  ℕ, ◌+◌, ◌*◌, ◌/◌, String, Bool, true, false, not, ◌&&◌, Option, none, some, List, [], ◌∷◌, ltb,
  leb, ◌==◌, str_eq, if◌then◌else◌, any,
}
use nodeguard.Prelude.Dict.{Dict, lookup, insert, keep_if}
use nodeguard.Net.{Network}

-- Ticks to a second; the resolution of Python's clock.
abbrev pub second : ℕ
second = 1000000

-- The readings of `time.time()` that a call makes, numbered from 0.
abbrev pub Clock : Type 0
Clock = ℕ → ℕ

-- The validated configuration.
pub record Config : Type 0 where
  pub enforce : Bool
  pub ttl_base : ℕ
  pub ttl_max : ℕ
  pub rate_min_cap : ℕ
  pub rate_hour_cap : ℕ
  pub home_nets : List Network

-- The three sets of sids.conf.
pub record Sids : Type 0 where
  pub optin : List ℕ
  pub ignored : List ℕ
  pub udp_ok : List ℕ

-- `sid in sids`
abbrev pub mem : ℕ → List ℕ → Bool
mem n = any (λ x. x == n)

-- One journal record; an absent field reads as 0.
pub record Offender : Type 0 where
  pub count : ℕ
  pub shadow_hits : ℕ
  pub blocked_until : ℕ
  pub first_seen : ℕ
  pub last_seen : ℕ
  pub sid : ℕ

-- The journal file: its records, and the boot id in its reserved record if it has one.
pub record File : Type 0 where
  pub records : Dict Offender
  pub boot_stamp : Option String

pub record Journal : Type 0 where
  pub boot : String
  pub entries : Dict Offender
  pub dirty : Bool
  pub last_flush : ℕ
  pub file : File

-- `AllowCache`
pub record AllowCache : Type 0 where
  pub nets : Option (List Network)
  pub fetched : ℕ

-- The counters of `st.sec`, and the debounce of their file.
pub record Telemetry : Type 0 where
  pub alerts_seen : ℕ
  pub blocks_issued : ℕ
  pub dryrun_would_block : ℕ
  pub last_alert_ts : ℕ
  pub last_action_ts : ℕ
  pub lag_s : ℕ

-- `EventState`; `minute` holds the times of new-block attempts, the oldest first.
pub record EventState : Type 0 where
  pub conf : Config
  pub sids : Sids
  pub journal : Journal
  pub allow : AllowCache
  pub minute : List ℕ
  pub hour_seen : Dict ℕ
  pub capped_episode : Bool
  pub capped_suppressed : ℕ
  pub malformed : ℕ
  pub sec : Telemetry
  pub sec_dirty : Bool
  pub sec_last_flush : ℕ
  -- the kv file: the counters, and the time of the flush in seconds
  pub sec_file : Option (Telemetry × ℕ)

abbrev pub no_record : Offender
no_record = record {
  count = 0;
  shadow_hits = 0;
  blocked_until = 0;
  first_seen = 0;
  last_seen = 0;
  sid = 0;
}

-- `data.get(src, {})`, read through its `get`s
unfoldable pub offender : String → Journal → Offender
offender src j = elim (lookup src j.entries) [ none ↦ no_record | some r ↦ r ]

-- `save`, where its directory and its file can be written: an empty boot id is not stamped.
unfoldable pub save : ℕ → Journal → Journal
save now j = record j {
  dirty = false;
  last_flush = now;
  file = record {
    records = j.entries;
    boot_stamp = if str_eq j.boot "" then none else some j.boot;
  };
}

-- `flush`: at most once in 15 seconds, unless forced; `saved` is the clock reading of its `save`.
unfoldable pub flush : ℕ → ℕ → Bool → Journal → Journal
flush now saved force j =
    if not j.dirty
    then j
    else if not force && ltb now (j.last_flush + 15 * second)
    then j
    else save saved j

abbrev pub seen_since : ℕ → Offender → Bool
seen_since now r = leb now (r.last_seen + 30 * 86400 * second)

-- `expire_windows`
unfoldable pub expire_windows : Dict Offender → Dict Offender
expire_windows [] = []
expire_windows ((ip, r) ∷ d) = (ip, record r { blocked_until = 0 }) ∷ expire_windows d

-- `prune`: records seen in the last 30 days stay.
unfoldable pub prune : Clock → Journal → Journal
unfolding save
prune time j = save (time 1) (record j { entries = keep_if (seen_since (time 0)) j.entries })

abbrev pub is_stamp : Option String → String → Bool
is_stamp none boot = false
is_stamp (some s) boot = str_eq s boot

-- `Journal(path)` on a file that is a JSON object: windows of another boot are expired.
unfoldable pub load : Clock → String → File → Journal
unfolding prune expire_windows
load time boot f = prune time (record {
  boot = boot;
  entries = if is_stamp f.boot_stamp boot then f.records else expire_windows f.records;
  dirty = false;
  last_flush = 0;
  file = f;
})

-- `_rec`: the record of an address, created if there is none.
unfoldable pub rec_of : ℕ → String → Journal → Offender
rec_of now ip j = elim (lookup ip j.entries) [
  | none ↦ record no_record { first_seen = now }
  | some r ↦ r
]

-- `sighting`
unfoldable pub sighting : Clock → String → ℕ → Journal → Journal
unfolding rec_of
sighting time ip s j =
    let r = rec_of (time 0) ip j in
    record j {
      entries =
          insert ip (record r { last_seen = time 1; sid = s; shadow_hits = r.shadow_hits + 1 })
            j.entries;
      dirty = true;
    }

-- `offense`: a real one counts, and is saved at once.
unfoldable pub offense : Clock → String → ℕ → ℕ → Bool → Journal → Journal
unfolding rec_of save
offense time ip s ttl shadow j =
    let r = rec_of (time 0) ip j in
    let r' = record r { last_seen = time 1; sid = s; blocked_until = time 2 + ttl * second } in
    if shadow
    then record j {
      entries = insert ip (record r' { shadow_hits = r.shadow_hits + 1 }) j.entries;
      dirty = true;
    }
    else save (time 3)
        (record j { entries = insert ip (record r' { count = r.count + 1 }) j.entries })

-- `flush_sec`, where the kv file can be written
unfoldable pub flush_sec : ℕ → EventState → EventState
flush_sec now st =
    if ltb now (st.sec_last_flush + 15 * second)
    then st
    else if not st.sec_dirty && ltb now (st.sec_last_flush + 60 * second)
    then st
    else record st {
      sec_dirty = false;
      sec_last_flush = now;
      sec_file = some (st.sec, now / second);
    }
