-- ===== src/Responder/Rehearsal.antt =====
-- Dry-run and enforcement in bin/nodeguard-responder: ENFORCE=no rehearses ENFORCE=yes.
use mathlib.Core.Path.{subst₂}
use nodeguard.Prelude.{
  ℕ, ◌≡◌, refl, ap, sym, ◌∙◌, Bool, true, false, not, Option, none, some, any, ltb, str_eq,
  if◌then◌else◌, arith,
}
use nodeguard.Net.{Address, contains}
use nodeguard.Responder.State.{EventState, flush_sec, offender}
use nodeguard.Responder.Handler.{
  Event, Line, bad_json, not_object, event, Host, Outcome, screen, ttl_for, age, at_cap, account,
  act, attempt, on_protected, on_addresses, handle_alert, count_alert, handle_event, no_alert,
  refresh,
}
use nodeguard.Responder.Gates.{ttl_of, act-ttl}
use nodeguard.Responder.Rates.{act-rates, suppress-rates}

-- A state in one mode or the other.
abbrev pub in_mode : Bool → EventState → EventState
in_mode b st = record st { conf = record st.conf { enforce = b } }

-- The same attempt, with the same account of the rates.
abbrev pub Agree : Outcome × EventState → Outcome × EventState → Type 0
Agree x y = (ttl_of x.0 ≡ ttl_of y.0) × (x.1.minute ≡ y.1.minute) × (x.1.hour_seen ≡ y.1.hour_seen)

Agree-if :
    (b : Bool) (x y x' y' : Outcome × EventState)
    → Agree x x'
    → Agree y y'
    → Agree (if b then x else y) (if b then x' else y')
Agree-if true x y x' y' p q = p
Agree-if false x y x' y' p q = q

act-Agree :
    (h : Host) (ev : Event) (st : EventState) (now : ℕ)
    → Agree (act h ev (in_mode true st) now) (act h ev (in_mode false st) now)
unfolding ttl_for
act-Agree h ev st now =
    let e = act-rates h ev (in_mode true st) now in
    let d = act-rates h ev (in_mode false st) now in
    (
      act-ttl h ev (in_mode true st) now ∙ sym (act-ttl h ev (in_mode false st) now),
      ap (λ r. r.minute) e ∙ sym (ap (λ r. r.minute) d),
      ap (λ r. r.hour_seen) e ∙ sym (ap (λ r. r.hour_seen) d),
    )

attempt-Agree :
    (h : Host) (ev : Event) (st : EventState) (now : ℕ)
    → Agree (attempt h ev (in_mode true st) now) (attempt h ev (in_mode false st) now)
unfolding attempt age account at_cap
attempt-Agree h ev st now =
    Agree-if (ltb now (offender ev.src_ip st.journal).blocked_until) _ _ _ _ (refl, refl, refl)
      (Agree-if (at_cap ev.src_ip (age now st)) _ _ _ _
        (
          refl,
          ap (λ r. r.minute) (suppress-rates h ev (age now (in_mode true st)))
              ∙ sym (ap (λ r. r.minute) (suppress-rates h ev (age now (in_mode false st)))),
          ap (λ r. r.hour_seen) (suppress-rates h ev (age now (in_mode true st)))
              ∙ sym (ap (λ r. r.hour_seen) (suppress-rates h ev (age now (in_mode false st)))),
        )
        (act-Agree h ev (account now ev.src_ip (age now st)) now))

on_protected-Agree :
    (h : Host) (ev : Event) (p : Option Bool) (st : EventState) (now : ℕ)
    → Agree (on_protected h ev p (in_mode true st) now) (on_protected h ev p (in_mode false st) now)
unfolding on_protected
on_protected-Agree h ev none st now = (refl, refl, refl)
on_protected-Agree h ev (some true) st now = (refl, refl, refl)
on_protected-Agree h ev (some false) st now = attempt-Agree h ev st now

on_addresses-Agree :
    (h : Host) (ev : Event) (a b : Option Address) (st : EventState) (now : ℕ)
    → Agree
        (on_addresses h ev a b (in_mode true st) now)
        (on_addresses h ev a b (in_mode false st) now)
unfolding on_addresses
on_addresses-Agree h ev (some src) (some dst) st now =
    Agree-if (not (any (λ n. contains n dst) st.conf.home_nets)) _ _ _ _ (refl, refl, refl)
      (Agree-if (not (h.is_global src)) _ _ _ _ (refl, refl, refl)
        (on_protected-Agree h ev _ (record st { allow = refresh h st.allow }) now))
on_addresses-Agree h ev none b st now = (refl, refl, refl)
on_addresses-Agree h ev (some _) none st now = (refl, refl, refl)

handle_alert-Agree :
    (h : Host) (ev : Event) (st : EventState) (now : ℕ)
    → Agree (handle_alert h ev (in_mode true st) now) (handle_alert h ev (in_mode false st) now)
unfolding handle_alert screen
handle_alert-Agree h ev st now = go (screen st ev)
  where
    go :
        (o : Option Outcome)
        → Agree
            (elim o [
              | some x ↦ (x, in_mode true st)
              | none ↦
                  on_addresses h ev
                    (h.ip_address ev.src_ip)
                    (h.ip_address ev.dest_ip)
                    (in_mode true st)
                    now
            ])
            (elim o [
              | some x ↦ (x, in_mode false st)
              | none ↦
                  on_addresses h ev
                    (h.ip_address ev.src_ip)
                    (h.ip_address ev.dest_ip)
                    (in_mode false st)
                    now
            ])
    go none = on_addresses-Agree h ev _ _ st now
    go (some x) = (refl, refl, refl)

flush_sec-in_mode :
    (now : ℕ) (b : Bool) (st : EventState)
    → flush_sec now (in_mode b st) ≡ in_mode b (flush_sec now st)
unfolding flush_sec
flush_sec-in_mode now b st = ground arith

count_alert-in_mode :
    (h : Host) (ev : Event) (b : Bool) (st : EventState) (now : ℕ)
    → count_alert h ev (in_mode b st) now ≡ in_mode b (count_alert h ev st now)
unfolding count_alert
count_alert-in_mode h ev b st now = flush_sec-in_mode (h.time 0) b _

flush_sec-Agree :
    (now : ℕ) (o : Outcome) (st : EventState)
    → Agree (o, flush_sec now (in_mode true st)) (o, flush_sec now (in_mode false st))
flush_sec-Agree now o st =
    subst₂ (λ x y. Agree (o, x) (o, y)) (sym (flush_sec-in_mode now true st))
      (sym (flush_sec-in_mode now false st)) (refl, refl, refl)

-- On the same state and line, dry-run rehearses a block exactly where enforcement attempts one, with
-- the same TTL, and both leave the same rate structures.
pub handle_event-Agree :
    (h : Host) (line : Line) (st : EventState) (now : ℕ)
    → Agree (handle_event h line (in_mode true st) now) (handle_event h line (in_mode false st) now)
unfolding handle_event
handle_event-Agree h bad_json st now = (refl, refl, refl)
handle_event-Agree h not_object st now = flush_sec-Agree (h.time 0) no_alert st
handle_event-Agree h (event ev) st now =
    Agree-if (str_eq ev.event_type "alert") _ _ _ _
      (subst₂ (λ x y. Agree (handle_alert h ev x now) (handle_alert h ev y now))
        (sym (count_alert-in_mode h ev true st now)) (sym (count_alert-in_mode h ev false st now))
        (handle_alert-Agree h ev (count_alert h ev st now) now))
      (flush_sec-Agree (h.time 0) no_alert st)
