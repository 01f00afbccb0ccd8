-- ===== src/Responder/Repeat.antt =====
-- A source that bin/nodeguard-responder blocked and sees again.
use mathlib.Core.Path.{subst, ap₂}
use native.Mathlib.Nat.{mul_assoc, pow-suc}
use nodeguard.Prelude.{
  ℕ, suc, ◌+◌, ◌*◌, ◌^◌, ◌≤◌, ◌≡◌, refl, ap, ◌∙◌, sym, false, some, leb, if◌then◌else◌, arith,
}
use nodeguard.Responder.State.{second, Config, EventState, offender}
use nodeguard.Responder.Handler.{Line, Host, blocked, later, handle_event, ttl_for}
use nodeguard.Responder.Gates.{ttl_of, handle_event-Passed}
use nodeguard.Responder.Rates.{handle_event-RateStep}
use nodeguard.Responder.Window.{RateStep-conf}
use nodeguard.Responder.Offenses.{source, handle_event-JournalStep}
use nodeguard.Responder.Escalation.{enforced-journal, offender-offense_self, rec_of-count}

-- `min(t, ttl_max)`
abbrev pub at_most : ℕ → ℕ → ℕ
at_most m t = if leb t m then t else m

at_most-double : (m t : ℕ) → at_most m (2 * t) ≡ at_most m (2 * at_most m t)
at_most-double m t = ground arith

add_one : (n : ℕ) → n + 1 ≡ suc n
add_one n = omega arith

pow-next : (n : ℕ) → 2 ^ (n + 1) ≡ 2 ^ n * 2
pow-next n = ap (λ k. 2 ^ k) (add_one n) ∙ pow-suc 2 n

double : (b n : ℕ) → b * 2 ^ (n + 1) ≡ 2 * (b * 2 ^ n)
double b n = omega (arith, ap (λ k. b * k) (pow-next n), mul_assoc b (2 ^ n) 2)

ttl_for-next : (c : Config) (n : ℕ) → ttl_for c (n + 1) ≡ at_most c.ttl_max (2 * ttl_for c n)
unfolding ttl_for
ttl_for-next c n =
    ap (at_most c.ttl_max) (double c.ttl_base n) ∙ at_most-double c.ttl_max (c.ttl_base * 2 ^ n)

-- The window and the TTL of an attempt, by the source of its line.
attempt-offender :
    (h : Host) (line : Line) (st : EventState) (now ttl : ℕ)
    → ttl_of (handle_event h line st now).0 ≡ some ttl
    → ((offender (source line) st.journal).blocked_until ≤ now)
      × (ttl ≡ ttl_for st.conf (offender (source line) st.journal).count)
attempt-offender h line st now ttl q =
    let (ev, is, _, p) = handle_event-Passed h line st now ttl q in
    subst
      (λ l.
        ((offender (source l) st.journal).blocked_until ≤ now)
        × (ttl ≡ ttl_for st.conf (offender (source l) st.journal).count))
      (sym is) (p.window_over, p.ttl_is)

-- The source's record after its block.
blocked-offender :
    (h : Host) (line : Line) (st : EventState) (now ttl : ℕ)
    → (handle_event h line st now).0 ≡ blocked ttl
    → ((offender (source line) (handle_event h line st now).1.journal).blocked_until
        ≡ h.time 3 + ttl * second)
      × ((offender (source line) (handle_event h line st now).1.journal).count
          ≡ (offender (source line) st.journal).count + 1)
blocked-offender h line st now ttl q =
    let (sid, e) =
      enforced-journal (later h.time) (source line) _ _ _ ttl
        (handle_event-JournalStep h line st now) q in
    let self = offender-offense_self (later h.time) (source line) sid ttl false st.journal in
    rw e (
      ap (λ r. r.blocked_until) self,
      ap (λ r. r.count) self ∙ ap (λ n. n + 1) (rec_of-count (h.time 1) (source line) st.journal),
    )

-- If a source was blocked with some TTL and the next event attempts a block of the same source, then
-- the window opened by the first block (its own clock reading plus the TTL) is over, and the new TTL
-- is twice the old one, or the maximum if that is less.
pub handle_event-escalates :
    (h h' : Host) (line line' : Line) (st : EventState) (now now' ttl ttl' : ℕ)
    → (handle_event h line st now).0 ≡ blocked ttl
    → source line' ≡ source line
    → ttl_of (handle_event h' line' (handle_event h line st now).1 now').0 ≡ some ttl'
    → (h.time 3 + ttl * second ≤ now') × (ttl' ≡ at_most st.conf.ttl_max (2 * ttl))
handle_event-escalates h h' line line' st now now' ttl ttl' q same r =
    let (over, is) = attempt-offender h' line' (handle_event h line st now).1 now' ttl' r in
    let (window, count) = blocked-offender h line st now ttl q in
    let (_, first) = attempt-offender h line st now ttl (rw q refl) in
    let conf = RateStep-conf now _ _ _ (handle_event-RateStep h line st now) in
    (
      rw (← window) (
          subst (λ s. (offender s (handle_event h line st now).1.journal).blocked_until ≤ now') same
            over),
      is
          ∙ ap₂ ttl_for conf
              (ap (λ s. (offender s (handle_event h line st now).1.journal).count) same ∙ count)
          ∙ ttl_for-next st.conf (offender (source line) st.journal).count
          ∙ ap (λ t. at_most st.conf.ttl_max (2 * t)) (sym first),
    )
