-- ===== src/Responder/Rates.antt =====
-- The rate structures of bin/nodeguard-responder: what `handle_event` does to `minute` and
-- `hour_seen`.
use nodeguard.Prelude.{
  ℕ, ◌+◌, ◌*◌, ◌<◌, ◌≡◌, ◌⊎◌, String, Bool, true, false, not, Option, none, some, List, [], ◌∷◌,
  ◌++◌, leb, if◌then◌else◌, any, length, arith, if-elim, Bool-cases, Option-cases, str_eq, ltb, inl,
  inr,
}
use nodeguard.Prelude.Dict.{Dict, has, keep_if, insert}
use nodeguard.Net.{Address, contains}
use nodeguard.Responder.State.{second, Config, EventState, offender}
use nodeguard.Responder.Handler.{
  Event, Line, bad_json, not_object, event, Host, Outcome, drop_old, age, at_cap, account, suppress,
  act, attempt, on_protected, on_addresses, handle_alert, handle_event, screen,
}
use nodeguard.Responder.Gates.{ttl_of, flush_sec-elim, count_alert-elim, screen-no_ttl, act-ttl}

-- The part of the state that the rate caps read.
pub record Rates : Type 0 where
  pub conf : Config
  pub minute : List ℕ
  pub hour_seen : Dict ℕ

abbrev pub rates : EventState → Rates
rates st = record { conf = st.conf; minute = st.minute; hour_seen = st.hour_seen }

abbrev pub aged_rates : ℕ → Rates → Rates
aged_rates now r = record r {
  minute = drop_old now r.minute;
  hour_seen = keep_if (λ ts. leb now (ts + 3600 * second)) r.hour_seen;
}

abbrev pub counted_rates : ℕ → String → Rates → Rates
counted_rates now src r = record r {
  minute = r.minute ++ (now ∷ []);
  hour_seen = if has src r.hour_seen then r.hour_seen else insert src now r.hour_seen;
}

abbrev pub Room : String → Rates → Type 0
Room src r =
    (length r.minute < r.conf.rate_min_cap)
    × ((has src r.hour_seen ≡ true) ⊎ (length r.hour_seen < r.conf.rate_hour_cap))

-- One event, by the TTL of the attempt it makes, if any.
pub data RateStep (now : ℕ) : Rates → Option ℕ → Rates → Type 0 where
  kept : (r : Rates) → RateStep now r none r
  dropped : (r : Rates) → RateStep now r none (aged_rates now r)
  counted :
      (src : String) (ttl : ℕ) (r : Rates)
      → Room src (aged_rates now r)
      → RateStep now r (some ttl) (counted_rates now src (aged_rates now r))

-- An outcome with its state is a step from `r`.
abbrev Steps : ℕ → Rates → Outcome × EventState → Type 0
Steps now r x = RateStep now r (ttl_of x.0) (rates x.1)

pub suppress-rates : (h : Host) (ev : Event) (st : EventState) → rates (suppress h ev st) ≡ rates st
unfolding suppress
suppress-rates h ev st = ground arith

pub act-rates :
    (h : Host) (ev : Event) (st : EventState) (now : ℕ) → rates (act h ev st now).1 ≡ rates st
unfolding act
act-rates h ev st now = ground arith

-- An attempt's step, from what it reports and leaves.
counted_step :
    (now ttl : ℕ) (src : String) (r : Rates) (o : Outcome) (r' : Rates)
    → Room src (aged_rates now r)
    → ttl_of o ≡ some ttl
    → r' ≡ counted_rates now src (aged_rates now r)
    → RateStep now r (ttl_of o) r'
counted_step now ttl src r o r' room p q = rw (p, q) (counted src ttl r room)

at_cap-Room : (src : String) (st : EventState) → at_cap src st ≡ false → Room src (rates st)
unfolding at_cap
at_cap-Room src st q = ground (arith, q)

attempt-Steps :
    (h : Host) (ev : Event) (st : EventState) (now : ℕ) → Steps now (rates st) (attempt h ev st now)
unfolding attempt age account
attempt-Steps h ev st now =
    if-elim (Steps now (rates st)) (ltb now (offender ev.src_ip st.journal).blocked_until) _ _
      (kept _)
      (elim (Bool-cases (at_cap ev.src_ip (age now st))) [
        | inl full ↦ rw full (rw (suppress-rates h ev (age now st)) (dropped _))
        | inr room ↦ rw room (
            counted_step now _ ev.src_ip (rates st) _ _ (at_cap-Room ev.src_ip (age now st) room)
              (act-ttl h ev (account now ev.src_ip (age now st)) now)
              (act-rates h ev (account now ev.src_ip (age now st)) now))
      ])

on_protected-Steps :
    (h : Host) (ev : Event) (p : Option Bool) (st : EventState) (now : ℕ)
    → Steps now (rates st) (on_protected h ev p st now)
unfolding on_protected
on_protected-Steps h ev none st now = kept _
on_protected-Steps h ev (some true) st now = kept _
on_protected-Steps h ev (some false) st now = attempt-Steps h ev st now

on_addresses-Steps :
    (h : Host) (ev : Event) (a b : Option Address) (st : EventState) (now : ℕ)
    → Steps now (rates st) (on_addresses h ev a b st now)
unfolding on_addresses
on_addresses-Steps h ev (some src) (some dst) st now =
    if-elim (Steps now (rates st)) (not (any (λ n. contains n dst) st.conf.home_nets)) _ _ (kept _)
      (if-elim (Steps now (rates st)) (not (h.is_global src)) _ _ (kept _)
        (on_protected-Steps h ev _ _ now))
on_addresses-Steps h ev none b st now = kept _
on_addresses-Steps h ev (some _) none st now = kept _

handle_alert-Steps :
    (h : Host) (ev : Event) (st : EventState) (now : ℕ)
    → Steps now (rates st) (handle_alert h ev st now)
unfolding handle_alert
handle_alert-Steps h ev st now = elim (Option-cases (screen st ev)) [
  | inl e ↦ rw (e, handle_alert) (on_addresses-Steps h ev _ _ st now)
  | inr (o, e) ↦ rw (e, handle_alert) (rw (screen-no_ttl st ev o e) (kept _))
]

pub handle_event-RateStep :
    (h : Host) (line : Line) (st : EventState) (now : ℕ)
    → RateStep now
        (rates st)
        (ttl_of (handle_event h line st now).0)
        (rates (handle_event h line st now).1)
unfolding handle_event
handle_event-RateStep h bad_json st now = kept _
handle_event-RateStep h not_object st now =
    flush_sec-elim (λ s. RateStep now (rates st) none (rates s)) _ st (λ d l f. kept _)
handle_event-RateStep h (event ev) st now =
    if-elim (Steps now (rates st)) (str_eq ev.event_type "alert") _ _
      (count_alert-elim (λ s. Steps now (rates st) (handle_alert h ev s now)) h ev st now
        (λ s d l f. handle_alert-Steps h ev _ now))
      (flush_sec-elim (λ s. RateStep now (rates st) none (rates s)) _ st (λ d l f. kept _))
