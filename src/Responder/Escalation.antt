-- ===== src/Responder/Escalation.antt =====
-- Offense counts and windows of bin/nodeguard-responder's journal.
use mathlib.Core.Path.{subst}
use nodeguard.Prelude.{
  ℕ, ◌+◌, ◌*◌, ◌≡◌, refl, ap, ◌∙◌, String, Bool, true, false, none, str_eq, str_eq_iff,
  if◌then◌else◌, arith, Bool-cases, inl, inr,
}
use nodeguard.Prelude.Dict.{Dict, has, insert, lookup, lookup-insert}
use nodeguard.Responder.State.{
  second, Clock, Journal, Offender, EventState, offender, rec_of, save, sighting, offense,
}
use nodeguard.Responder.Handler.{Line, Host, Outcome, blocked, later, handle_event}
use nodeguard.Responder.Gates.{ttl_of}
use nodeguard.Responder.Offenses.{
  source, JournalStep, untouched, failed, seen, rehearsed, enforced, handle_event-JournalStep,
}

-- What an outcome adds to an address's count.
abbrev pub offenses : String → String → Outcome → ℕ
offenses src ip (blocked _) = if str_eq src ip then 1 else 0
offenses src ip _ = 0

-- A journal with one record replaced.
offender-insert :
    (src ip : String) (r : Offender) (j j' : Journal)
    → j'.entries ≡ insert src r j.entries
    → offender ip j' ≡ (if str_eq src ip then r else offender ip j)
unfolding offender
offender-insert src ip r j j' e = ground (arith, e, lookup-insert src ip r j.entries)

pub rec_of-count :
    (now : ℕ) (src : String) (j : Journal) → (rec_of now src j).count ≡ (offender src j).count
unfolding rec_of offender
rec_of-count now src j = ground arith

-- The record that an offense leaves.
abbrev offended : Clock → ℕ → ℕ → Bool → Offender → Offender
offended time sid ttl shadow r = record r {
  last_seen = time 1;
  sid = sid;
  blocked_until = time 2 + ttl * second;
  shadow_hits = if shadow then r.shadow_hits + 1 else r.shadow_hits;
  count = if shadow then r.count else r.count + 1;
}

offender-offense :
    (time : Clock) (src ip : String) (sid ttl : ℕ) (shadow : Bool) (j : Journal)
    → offender ip (offense time src sid ttl shadow j) ≡ (
        if str_eq src ip
        then offended time sid ttl shadow (rec_of (time 0) src j)
        else offender ip j)
unfolding offense save
offender-offense time src ip sid ttl true j =
    offender-insert src ip (offended time sid ttl true (rec_of (time 0) src j)) j _ refl
offender-offense time src ip sid ttl false j =
    offender-insert src ip (offended time sid ttl false (rec_of (time 0) src j)) j _ refl

sighting-count :
    (time : Clock) (src ip : String) (sid : ℕ) (j : Journal)
    → (offender ip (sighting time src sid j)).count ≡ (offender ip j).count
unfolding sighting
sighting-count time src ip sid j = grind (
  arith,
  ap (λ r. r.count)
      (offender-insert src ip
        (record (rec_of (time 0) src j) {
          last_seen = time 1;
          sid = sid;
          shadow_hits = (rec_of (time 0) src j).shadow_hits + 1;
        })
        j (sighting time src sid j) refl),
  rec_of-count (time 0) src j,
  str_eq_iff src ip,
)

str_eq-same : (src ip : String) → str_eq src ip ≡ true → src ≡ ip
str_eq-same src ip e = ground (arith, str_eq_iff src ip)

str_eq_self : (src : String) → str_eq src src ≡ true
str_eq_self src = ground (arith, str_eq_iff src src)

pub offender-offense_self :
    (time : Clock) (src : String) (sid ttl : ℕ) (shadow : Bool) (j : Journal)
    → offender src (offense time src sid ttl shadow j)
      ≡ offended time sid ttl shadow (rec_of (time 0) src j)
offender-offense_self time src sid ttl shadow j =
    offender-offense time src src sid ttl shadow j ∙ rw (str_eq_self src) refl

offense-count :
    (time : Clock) (src ip : String) (sid ttl : ℕ) (shadow : Bool) (j : Journal)
    → (offender ip (offense time src sid ttl shadow j)).count
      ≡ (offender ip j).count + (if str_eq src ip then (if shadow then 0 else 1) else 0)
offense-count time src ip sid ttl shadow j = elim (Bool-cases (str_eq src ip)) [
  | inl e ↦ rw e (
      subst
        (λ k.
          (offender k (offense time src sid ttl shadow j)).count
          ≡ (offender k j).count + (if shadow then 0 else 1))
        (str_eq-same src ip e)
        (grind (
          arith,
          ap (λ r. r.count) (offender-offense_self time src sid ttl shadow j),
          rec_of-count (time 0) src j,
        )))
  | inr e ↦ rw e (grind (arith, ap (λ r. r.count) (offender-offense time src ip sid ttl shadow j)))
]

no_ttl-offenses : (src ip : String) (o : Outcome) → ttl_of o ≡ none → offenses src ip o ≡ 0
no_ttl-offenses src ip o e = ground arith

JournalStep-count :
    (time : Clock) (src ip : String) (j j' : Journal) (o : Outcome)
    → JournalStep time src j o j'
    → (offender ip j').count ≡ (offender ip j).count + offenses src ip o
JournalStep-count time src ip j _ _ (untouched o e) = ground (arith, no_ttl-offenses src ip o e)
JournalStep-count time src ip j _ _ (failed ttl) = ground arith
JournalStep-count time src ip j _ _ (seen o sid e p) =
    ground (arith, no_ttl-offenses src ip o e, sighting-count time src ip sid j)
JournalStep-count time src ip j _ _ (rehearsed sid ttl) =
    ground (arith, offense-count time src ip sid ttl true j)
JournalStep-count time src ip j _ _ (enforced sid ttl) =
    ground (arith, offense-count time src ip sid ttl false j)

-- An event adds 1 to the offense count of its source if it was blocked, and changes no count
-- otherwise: neither a rehearsal nor a sighting nor a failed block does.
pub handle_event-count :
    (h : Host) (line : Line) (st : EventState) (now : ℕ) (ip : String)
    → (offender ip (handle_event h line st now).1.journal).count
      ≡ (offender ip st.journal).count + offenses (source line) ip (handle_event h line st now).0
handle_event-count h line st now ip =
    JournalStep-count (later h.time) (source line) ip _ _ _ (handle_event-JournalStep h line st now)

-- Equal texts have one record.
str_eq-lookup :
    (src ip : String) (d : Dict Offender) → str_eq src ip ≡ true → lookup src d ≡ lookup ip d
str_eq-lookup src ip d e = ap (λ k. lookup k d) (str_eq-same src ip e)

has-insert :
    (src ip : String) (r : Offender) (d : Dict Offender)
    → has src d ≡ true
    → has ip (insert src r d) ≡ has ip d
has-insert src ip r d e = ground (arith, e, lookup-insert src ip r d, str_eq-lookup src ip d)

JournalStep-has :
    (time : Clock) (src ip : String) (j j' : Journal) (o : Outcome)
    → JournalStep time src j o j'
    → ttl_of o ≡ none
    → has ip j'.entries ≡ has ip j.entries
unfolding sighting
JournalStep-has time src ip j _ _ (untouched o e) q = refl
JournalStep-has time src ip j _ _ (failed ttl) q = refl
JournalStep-has time src ip j _ _ (seen o sid e p) q = has-insert src ip _ j.entries p
JournalStep-has time src ip j _ _ (rehearsed sid ttl) q = ground arith
JournalStep-has time src ip j _ _ (enforced sid ttl) q = ground arith

-- An event that attempts no block, in either mode, gives no address a record and takes none away:
-- while a cap is engaged, the journal does not grow.
pub handle_event-keeps_sources :
    (h : Host) (line : Line) (st : EventState) (now : ℕ) (ip : String)
    → ttl_of (handle_event h line st now).0 ≡ none
    → has ip (handle_event h line st now).1.journal.entries ≡ has ip st.journal.entries
handle_event-keeps_sources h line st now ip =
    JournalStep-has (later h.time) (source line) ip _ _ _ (handle_event-JournalStep h line st now)

-- What an accepted block leaves in the journal.
pub enforced-journal :
    (time : Clock) (src : String) (j j' : Journal) (o : Outcome) (ttl : ℕ)
    → JournalStep time src j o j'
    → o ≡ blocked ttl
    → (sid : ℕ) × (j' ≡ offense time src sid ttl false j)
enforced-journal time src j _ _ ttl (untouched o e) q = ground arith
enforced-journal time src j _ _ ttl (failed t) q = ground arith
enforced-journal time src j _ _ ttl (seen o sid e p) q = ground arith
enforced-journal time src j _ _ ttl (rehearsed sid t) q = ground arith
enforced-journal time src j _ _ ttl (enforced sid t) q = (sid, ground (arith, q))
