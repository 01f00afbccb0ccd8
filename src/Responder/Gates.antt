-- ===== src/Responder/Gates.antt =====
-- `handle_event` of bin/nodeguard-responder: what an event passed when a block is attempted.
use nodeguard.Prelude.{
  ℕ, ◌+◌, ◌*◌, ◌≤◌, ◌<◌, ◌≡◌, refl, ◌≢◌, ◌⊎◌, inl, inr, String, Bool, true, false, Option, none,
  some, ◌/◌, not, ◌&&◌, if◌then◌else◌, ltb, ==_iff, str_eq, str_eq_iff, any, length, arith, if-elim,
  Option-cases, Bool-cases,
}
use nodeguard.Prelude.Dict.{has}
use nodeguard.Net.{Address, contains}
use nodeguard.Responder.State.{second, Telemetry, EventState, mem, offender, flush_sec}
use nodeguard.Responder.Handler.{
  Event, Line, bad_json, not_object, event, Host, Outcome, not_inbound, not_global, would_block,
  blocked, block_failed, refresh, any_contains, screen, ttl_for, age, at_cap, account, act, attempt,
  on_protected, on_addresses, handle_alert, count_alert, handle_event,
}

-- The TTL of an attempt, made or rehearsed.
abbrev pub ttl_of : Outcome → Option ℕ
ttl_of (would_block t) = some t
ttl_of (blocked t) = some t
ttl_of (block_failed t) = some t
ttl_of _ = none

-- The state after a write of the telemetry's file.
abbrev written : ℕ → EventState → EventState
written now st = record st {
  sec_dirty = false;
  sec_last_flush = now;
  sec_file = some (st.sec, now / second);
}

-- The telemetry's file and its debounce are all that a flush changes.
pub flush_sec-elim {ℓ} :
    (P : EventState → Type ℓ) (now : ℕ) (st : EventState)
    → ((d : Bool) (l : ℕ) (f : Option (Telemetry × ℕ))
        → P (record st { sec_dirty = d; sec_last_flush = l; sec_file = f }))
    → P (flush_sec now st)
unfolding flush_sec
flush_sec-elim P now st p =
    if-elim P (ltb now (st.sec_last_flush + 15 * second)) st
      (if not st.sec_dirty && ltb now (st.sec_last_flush + 60 * second) then st else written now st)
      (p st.sec_dirty st.sec_last_flush st.sec_file)
      (if-elim P (not st.sec_dirty && ltb now (st.sec_last_flush + 60 * second)) st (written now st)
        (p st.sec_dirty st.sec_last_flush st.sec_file) (p false now (some (st.sec, now / second))))

-- Telemetry is all that counting an alert changes.
pub count_alert-elim {ℓ} :
    (P : EventState → Type ℓ) (h : Host) (ev : Event) (st : EventState) (now : ℕ)
    → ((s : Telemetry) (d : Bool) (l : ℕ) (f : Option (Telemetry × ℕ))
        → P (record st { sec = s; sec_dirty = d; sec_last_flush = l; sec_file = f }))
    → P (count_alert h ev st now)
unfolding count_alert
count_alert-elim P h ev st now p = flush_sec-elim P (h.time 0) _ (p _)

pub record Screened (st : EventState) (ev : Event) : Type 0 where
  pub not_ignored : mem ev.signature_id st.sids.ignored ≡ false
  pub severe : (ev.severity ≡ 1) ⊎ (mem ev.signature_id st.sids.optin ≡ true)
  pub evidence :
      ((ev.proto ≡ "TCP") × (1 ≤ ev.pkts_toclient) × (2 ≤ ev.pkts_toserver))
      ⊎ ((ev.proto ≢ "TCP") × (mem ev.signature_id st.sids.udp_ok ≡ true))

screen-none : (st : EventState) (ev : Event) → screen st ev ≡ none → Screened st ev
unfolding screen
screen-none st ev q = record {
  not_ignored = ground arith;
  severe = ground (arith, ==_iff ev.severity 1);
  evidence = ground (arith, str_eq_iff ev.proto "TCP");
}

pub screen-no_ttl :
    (st : EventState) (ev : Event) (o : Outcome) → screen st ev ≡ some o → ttl_of o ≡ none
unfolding screen
screen-no_ttl st ev o q = ground arith

pub act-ttl :
    (h : Host) (ev : Event) (st : EventState) (now : ℕ)
    → ttl_of (act h ev st now).0 ≡ some (ttl_for st.conf (offender ev.src_ip st.journal).count)
unfolding act
act-ttl h ev st now = ground arith

-- Both rates leave room for a source.
abbrev pub UnderCap : String → EventState → Type 0
UnderCap src st =
    (length st.minute < st.conf.rate_min_cap)
    × ((has src st.hour_seen ≡ true) ⊎ (length st.hour_seen < st.conf.rate_hour_cap))

attempt-ttl :
    (h : Host) (ev : Event) (st : EventState) (now ttl : ℕ)
    → ttl_of (attempt h ev st now).0 ≡ some ttl
    → ((offender ev.src_ip st.journal).blocked_until ≤ now)
      × UnderCap ev.src_ip (age now st)
      × (ttl ≡ ttl_for st.conf (offender ev.src_ip st.journal).count)
unfolding attempt account age at_cap
attempt-ttl h ev st now ttl q =
    ground (arith, act-ttl h ev (account now ev.src_ip (age now st)) now)

-- What holds of an event and of the state before it when a block with that TTL is attempted.
pub record Passed (h : Host) (ev : Event) (st : EventState) (now ttl : ℕ) : Type 0 where
  pub screened : Screened st ev
  pub src : Address
  pub dst : Address
  pub src_is : h.ip_address ev.src_ip ≡ some src
  pub dst_is : h.ip_address ev.dest_ip ≡ some dst
  pub inbound : any (λ n. contains n dst) st.conf.home_nets ≡ true
  pub global : h.is_global src ≡ true
  pub not_allowed : any_contains (refresh h st.allow).nets src ≡ some false
  pub window_over : (offender ev.src_ip st.journal).blocked_until ≤ now
  pub under_cap : UnderCap ev.src_ip (age now st)
  pub ttl_is : ttl ≡ ttl_for st.conf (offender ev.src_ip st.journal).count

on_protected-ttl :
    (h : Host) (ev : Event) (p : Option Bool) (st : EventState) (now ttl : ℕ)
    → ttl_of (on_protected h ev p st now).0 ≡ some ttl
    → (p ≡ some false) × (ttl_of (attempt h ev st now).0 ≡ some ttl)
unfolding on_protected
on_protected-ttl h ev none st now ttl q = ground arith
on_protected-ttl h ev (some true) st now ttl q = ground arith
on_protected-ttl h ev (some false) st now ttl q = (refl, q)

-- A return without a TTL was not the one taken.
past :
    (b : Bool) (x y : Outcome × EventState) (ttl : ℕ)
    → ttl_of x.0 ≡ none
    → ttl_of (if b then x else y).0 ≡ some ttl
    → (b ≡ false) × (ttl_of y.0 ≡ some ttl)
past true x y ttl p q = ground arith
past false x y ttl p q = (refl, q)

on_addresses-Passed :
    (h : Host) (ev : Event) (a b : Option Address) (st : EventState) (now ttl : ℕ)
    → h.ip_address ev.src_ip ≡ a
    → h.ip_address ev.dest_ip ≡ b
    → Screened st ev
    → ttl_of (on_addresses h ev a b st now).0 ≡ some ttl
    → Passed h ev st now ttl
unfolding on_addresses age
on_addresses-Passed h ev (some src) (some dst) st now ttl p q s r =
    let (inbound, r1) =
      past (not (any (λ n. contains n dst) st.conf.home_nets)) (not_inbound, st) _ ttl refl r in
    let (global, r2) = past (not (h.is_global src)) (not_global, st) _ ttl refl r1 in
    let (allowed, r3) = on_protected-ttl h ev _ _ now ttl r2 in
    let (over, cap, is) = attempt-ttl h ev _ now ttl r3 in
    record {
      screened = s;
      src = src;
      dst = dst;
      src_is = p;
      dst_is = q;
      inbound = ground (arith, inbound);
      global = ground (arith, global);
      not_allowed = allowed;
      window_over = over;
      under_cap = cap;
      ttl_is = is;
    }
on_addresses-Passed h ev none b st now ttl p q s r = ground arith
on_addresses-Passed h ev (some _) none st now ttl p q s r = ground arith

handle_alert-Passed :
    (h : Host) (ev : Event) (st : EventState) (now ttl : ℕ)
    → ttl_of (handle_alert h ev st now).0 ≡ some ttl
    → Passed h ev st now ttl
unfolding handle_alert
handle_alert-Passed h ev st now ttl q = elim (Option-cases (screen st ev)) [
  | inl e ↦
      on_addresses-Passed h ev _ _ st now ttl refl refl (screen-none st ev e) (ground (arith, e, q))
  | inr (o, e) ↦ ground (arith, e, q, screen-no_ttl st ev o e)
]

-- Telemetry plays no part in it.
forget_telemetry :
    (h : Host) (ev : Event) (st : EventState) (now ttl : ℕ) (s : Telemetry) (d : Bool) (l : ℕ)
    (f : Option (Telemetry × ℕ))
    → Passed h ev (record st { sec = s; sec_dirty = d; sec_last_flush = l; sec_file = f }) now ttl
    → Passed h ev st now ttl
unfolding age
forget_telemetry h ev st now ttl s d l f p = record {
  screened = record {
    not_ignored = p.screened.not_ignored;
    severe = p.screened.severe;
    evidence = p.screened.evidence;
  };
  src = p.src;
  dst = p.dst;
  src_is = p.src_is;
  dst_is = p.dst_is;
  inbound = p.inbound;
  global = p.global;
  not_allowed = p.not_allowed;
  window_over = p.window_over;
  under_cap = p.under_cap;
  ttl_is = p.ttl_is;
}

event-Passed :
    (h : Host) (ev : Event) (st : EventState) (now ttl : ℕ)
    → ttl_of (handle_event h (event ev) st now).0 ≡ some ttl
    → (ev.event_type ≡ "alert") × Passed h ev st now ttl
unfolding handle_event
event-Passed h ev st now ttl q = elim (Bool-cases (str_eq ev.event_type "alert")) [
  | inl e ↦ (
    ground (arith, e, str_eq_iff ev.event_type "alert"),
    count_alert-elim (λ s. ttl_of (handle_alert h ev s now).0 ≡ some ttl → Passed h ev st now ttl) h
        ev st now
        (λ s d l f r.
          forget_telemetry h ev st now ttl s d l f (handle_alert-Passed h ev _ now ttl r))
        (ground (arith, e, q)),
  )
  | inr e ↦ ground (arith, e, q)
]

-- If a line makes the responder attempt or rehearse a block, the line is an alert that is not
-- ignored, is severe or opted in, has the evidence of a flow (or is hand-promoted and not TCP), goes
-- from a global address that the fetched allow list does not cover to a home network, whose window
-- is over and whose rates leave room; and the TTL is the escalated one.
pub handle_event-Passed :
    (h : Host) (line : Line) (st : EventState) (now ttl : ℕ)
    → ttl_of (handle_event h line st now).0 ≡ some ttl
    → (ev : Event) × (line ≡ event ev) × (ev.event_type ≡ "alert") × Passed h ev st now ttl
unfolding handle_event
handle_event-Passed h bad_json st now ttl q = ground arith
handle_event-Passed h not_object st now ttl q = ground arith
handle_event-Passed h (event ev) st now ttl q =
    let (is_alert, passed) = event-Passed h ev st now ttl q in (ev, refl, is_alert, passed)
