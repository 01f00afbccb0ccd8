-- ===== src/Responder/Offenses.antt =====
-- The journal of bin/nodeguard-responder through `handle_event`.
use nodeguard.Prelude.{
  ℕ, ◌<◌, ◌≡◌, refl, String, Bool, true, false, not, Option, none, some, ltb, ◌==◌, str_eq, any,
  arith, if-elim, Bool-cases, Option-cases, inl, inr,
}
use nodeguard.Prelude.Dict.{has}
use nodeguard.Net.{Address, contains}
use nodeguard.Responder.State.{Clock, Journal, EventState, offender, sighting, offense}
use nodeguard.Responder.Handler.{
  Event, Line, bad_json, not_object, event, Host, Outcome, no_alert, covered, capped, would_block,
  blocked, block_failed, age, at_cap, account, later, suppress, act, attempt, on_protected,
  on_addresses, handle_alert, handle_event, ttl_for, screen,
}
use nodeguard.Responder.Gates.{ttl_of, flush_sec-elim, count_alert-elim, screen-no_ttl}

abbrev pub source : Line → String
source (event ev) = ev.src_ip
source _ = ""

-- What an event does to the journal, by where the handler returned.
pub data JournalStep (time : Clock) (src : String) (j : Journal) : Outcome → Journal → Type 0 where
  untouched : (o : Outcome) → ttl_of o ≡ none → JournalStep time src j o j
  failed : (ttl : ℕ) → JournalStep time src j (block_failed ttl) j
  seen :
      (o : Outcome) (sid : ℕ)
      → ttl_of o ≡ none
      → has src j.entries ≡ true
      → JournalStep time src j o (sighting time src sid j)
  rehearsed :
      (sid ttl : ℕ) → JournalStep time src j (would_block ttl) (offense time src sid ttl true j)
  enforced : (sid ttl : ℕ) → JournalStep time src j (blocked ttl) (offense time src sid ttl false j)

abbrev Steps : Clock → String → Journal → Outcome × EventState → Type 0
Steps time src j x = JournalStep time src j x.0 x.1.journal

act-Steps :
    (h : Host) (ev : Event) (st : EventState) (now : ℕ)
    → Steps (later h.time) ev.src_ip st.journal (act h ev st now)
unfolding act
act-Steps h ev st now =
    if-elim (Steps (later h.time) ev.src_ip st.journal) (not st.conf.enforce) _ _ (rehearsed _ _) (
      if-elim (Steps (later h.time) ev.src_ip st.journal)
        (h.block_fn ev.src_ip (ttl_for st.conf (offender ev.src_ip st.journal).count) == 0) _ _
        (enforced _ _) (failed _))

-- Only an address with a record has a window.
window-has :
    (src : String) (j : Journal) (now : ℕ)
    → now < (offender src j).blocked_until
    → has src j.entries ≡ true
unfolding offender
window-has src j now p = ground arith

suppress-Step :
    (h : Host) (ev : Event) (st : EventState)
    → JournalStep (later h.time) ev.src_ip st.journal capped (suppress h ev st).journal
unfolding suppress
suppress-Step h ev st = elim (Bool-cases (has ev.src_ip st.journal.entries)) [
  | inl e ↦ rw e (seen capped ev.signature_id refl e)
  | inr e ↦ rw e (untouched capped refl)
]

attempt-Steps :
    (h : Host) (ev : Event) (st : EventState) (now : ℕ)
    → Steps (later h.time) ev.src_ip st.journal (attempt h ev st now)
unfolding attempt age account
attempt-Steps h ev st now =
    elim (Bool-cases (ltb now (offender ev.src_ip st.journal).blocked_until)) [
      | inl e ↦ rw e (
          seen covered ev.signature_id refl
            (window-has ev.src_ip st.journal now (ground (arith, e))))
      | inr e ↦ rw e (
          if-elim (Steps (later h.time) ev.src_ip st.journal) (at_cap ev.src_ip (age now st)) _ _
            (suppress-Step h ev (age now st))
            (act-Steps h ev (account now ev.src_ip (age now st)) now))
    ]

on_protected-Steps :
    (h : Host) (ev : Event) (p : Option Bool) (st : EventState) (now : ℕ)
    → Steps (later h.time) ev.src_ip st.journal (on_protected h ev p st now)
unfolding on_protected
on_protected-Steps h ev none st now = untouched _ refl
on_protected-Steps h ev (some true) st now = untouched _ refl
on_protected-Steps h ev (some false) st now = attempt-Steps h ev st now

on_addresses-Steps :
    (h : Host) (ev : Event) (a b : Option Address) (st : EventState) (now : ℕ)
    → Steps (later h.time) ev.src_ip st.journal (on_addresses h ev a b st now)
unfolding on_addresses
on_addresses-Steps h ev (some src) (some dst) st now =
    if-elim (Steps (later h.time) ev.src_ip st.journal)
      (not (any (λ n. contains n dst) st.conf.home_nets)) _ _ (untouched _ refl)
      (if-elim (Steps (later h.time) ev.src_ip st.journal) (not (h.is_global src)) _ _
        (untouched _ refl) (on_protected-Steps h ev _ _ now))
on_addresses-Steps h ev none b st now = untouched _ refl
on_addresses-Steps h ev (some _) none st now = untouched _ refl

handle_alert-Steps :
    (h : Host) (ev : Event) (st : EventState) (now : ℕ)
    → Steps (later h.time) ev.src_ip st.journal (handle_alert h ev st now)
unfolding handle_alert
handle_alert-Steps h ev st now = elim (Option-cases (screen st ev)) [
  | inl e ↦ rw (e, handle_alert) (on_addresses-Steps h ev _ _ st now)
  | inr (o, e) ↦ rw (e, handle_alert) (untouched o (screen-no_ttl st ev o e))
]

pub handle_event-JournalStep :
    (h : Host) (line : Line) (st : EventState) (now : ℕ)
    → JournalStep
        (later h.time)
        (source line)
        st.journal
        (handle_event h line st now).0
        (handle_event h line st now).1.journal
unfolding handle_event
handle_event-JournalStep h bad_json st now = untouched _ refl
handle_event-JournalStep h not_object st now =
    flush_sec-elim (λ s. Steps (later h.time) "" st.journal (no_alert, s)) _ st
      (λ d l f. untouched _ refl)
handle_event-JournalStep h (event ev) st now =
    if-elim (Steps (later h.time) ev.src_ip st.journal) (str_eq ev.event_type "alert") _ _
      (count_alert-elim (λ s. Steps (later h.time) ev.src_ip st.journal (handle_alert h ev s now)) h
        ev st now (λ s d l f. handle_alert-Steps h ev _ now))
      (flush_sec-elim (λ s. Steps (later h.time) ev.src_ip st.journal (no_alert, s)) _ st
        (λ d l f. untouched _ refl))
