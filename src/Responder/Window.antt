-- ===== src/Responder/Window.antt =====
-- The caps of bin/nodeguard-responder over a run of events.
use mathlib.Core.Path.{subst, sym}
use nodeguard.Prelude.{
  ℕ, ◌+◌, ◌*◌, ◌≤◌, ◌<◌, ◌⊎◌, String, ◌≡◌, refl, true, Option, none, some, List, [], ◌∷◌, ◌++◌, ap,
  ◌∙◌, ltb, leb, if◌then◌else◌, length, length-append, arith, All,
}
use nodeguard.Prelude.Dict.{Dict, has, insert, keep_if, length-keep_if, length-insert}
use nodeguard.Responder.State.{second, EventState}
use nodeguard.Responder.Handler.{Line, Host, drop_old, handle_event}
use nodeguard.Responder.Gates.{ttl_of, flush_sec-elim}
use nodeguard.Responder.Loop.{
  Loop, Turn, Step, idle, turn, prune_daily, report, reload_sids, housekept, step, run_loop,
}
use nodeguard.Responder.Rates.{
  Rates, rates, RateStep, kept, dropped, counted, handle_event-RateStep,
}

-- The caps hold.
pub record Capped (r : Rates) : Type 0 where
  pub minute : length r.minute ≤ r.conf.rate_min_cap
  pub hour : length r.hour_seen ≤ r.conf.rate_hour_cap

-- How many of the times are at most a minute before `t`.
abbrev pub recent : ℕ → List ℕ → ℕ
recent t [] = 0
recent t (s ∷ ts) = if ltb (s + 60 * second) t then recent t ts else recent t ts + 1

drop_old-shorter : (now : ℕ) (ts : List ℕ) → length (drop_old now ts) ≤ length ts
unfolding drop_old
drop_old-shorter now [] = ground arith
drop_old-shorter now (t ∷ ts) = ground (arith, drop_old-shorter now ts)

recent-drop_old : (t now : ℕ) (ts : List ℕ) → now ≤ t → recent t (drop_old now ts) ≡ recent t ts
unfolding drop_old
recent-drop_old t now [] p = refl
recent-drop_old t now (s ∷ ts) p = ground (arith, recent-drop_old t now ts p)

recent-append : (t : ℕ) (xs ys : List ℕ) → recent t (xs ++ ys) ≡ recent t xs + recent t ys
recent-append t [] ys = ground arith
recent-append t (x ∷ xs) ys = ground (arith, recent-append t xs ys)

recent-length : (t : ℕ) (ts : List ℕ) → recent t ts ≤ length ts
recent-length t [] = ground arith
recent-length t (s ∷ ts) = ground (arith, recent-length t ts)

room_kept :
    (src : String) (now : ℕ) (d : Dict ℕ) (cap : ℕ)
    → length d ≤ cap
    → (has src d ≡ true) ⊎ (length d < cap)
    → length (if has src d then d else insert src now d) ≤ cap
room_kept src now d cap p q = ground (arith, length-insert src now d)

RateStep-Capped :
    (now : ℕ) (r r' : Rates) (o : Option ℕ) → RateStep now r o r' → Capped r → Capped r'
RateStep-Capped now r _ _ (kept _) c = c
RateStep-Capped now r _ _ (dropped _) c = record {
  minute = ground (arith, c.minute, drop_old-shorter now r.minute);
  hour = ground (arith, c.hour, length-keep_if (λ ts. leb now (ts + 3600 * second)) r.hour_seen);
}
RateStep-Capped now r _ _ (counted src ttl _ room) c = record {
  minute = ground (arith, c.minute, length-append (drop_old now r.minute) (now ∷ []));
  hour =
      room_kept src now (keep_if (λ ts. leb now (ts + 3600 * second)) r.hour_seen)
        r.conf.rate_hour_cap
        (ground (arith, c.hour, length-keep_if (λ ts. leb now (ts + 3600 * second)) r.hour_seen))
        room.1;
}

-- The time of an attempt, if it was one.
abbrev pub attempts : ℕ → Option ℕ → List ℕ
attempts now none = []
attempts now (some _) = now ∷ []

RateStep-recent :
    (t now : ℕ) (r r' : Rates) (o : Option ℕ)
    → RateStep now r o r'
    → now ≤ t
    → recent t (attempts now o) + recent t r.minute ≡ recent t r'.minute
RateStep-recent t now r _ _ (kept _) p = ground arith
RateStep-recent t now r _ _ (dropped _) p = ground (arith, recent-drop_old t now r.minute p)
RateStep-recent t now r _ _ (counted src ttl _ room) p =
    ground
      (arith, recent-drop_old t now r.minute p, recent-append t (drop_old now r.minute) (now ∷ []))

-- When the loop attempted, or rehearsed, a block.
abbrev pub attempt_times : List Step → Loop → List ℕ
attempt_times [] l = []
attempt_times (idle sec now saved ∷ ss) l = attempt_times ss (step (idle sec now saved) l)
attempt_times (turn t ∷ ss) l =
    attempts t.now (ttl_of (handle_event t.host t.line (housekept t l).st t.now).0)
    ++ attempt_times ss (step (turn t) l)

abbrev pub By : ℕ → Step → Type 0
By t (idle _ _ _) = Unit
By t (turn u) = u.now ≤ t

-- Every line is handled at `t` or before.
abbrev pub Until : ℕ → List Step → Type 0
Until t = All (By t)

idle-rates : (sec now saved : ℕ) (l : Loop) → rates (step (idle sec now saved) l).st ≡ rates l.st
unfolding step
idle-rates sec now saved l = flush_sec-elim (λ s. rates s ≡ rates l.st) sec l.st (λ d m f. refl)

prune_daily-rates : (t : Turn) (l : Loop) → rates (prune_daily t l).st ≡ rates l.st
unfolding prune_daily
prune_daily-rates t l = ground arith

report-rates : (t : Turn) (l : Loop) → rates (report t l).st ≡ rates l.st
unfolding report
report-rates t l = ground arith

reload_sids-rates : (t : Turn) (l : Loop) → rates (reload_sids t l).st ≡ rates l.st
unfolding reload_sids
reload_sids-rates t l = ground arith

housekept-rates : (t : Turn) (l : Loop) → rates (housekept t l).st ≡ rates l.st
housekept-rates t l =
    reload_sids-rates t (report t (prune_daily t l))
    ∙ report-rates t (prune_daily t l)
    ∙ prune_daily-rates t l

turn-RateStep :
    (t : Turn) (l : Loop)
    → RateStep t.now
        (rates l.st)
        (ttl_of (handle_event t.host t.line (housekept t l).st t.now).0)
        (rates (step (turn t) l).st)
unfolding step
turn-RateStep t l =
    subst
      (λ r.
        RateStep t.now r (ttl_of (handle_event t.host t.line (housekept t l).st t.now).0)
          (rates (step (turn t) l).st))
      (housekept-rates t l) (handle_event-RateStep t.host t.line (housekept t l).st t.now)

recent-attempt_times :
    (t : ℕ) (ss : List Step) (l : Loop)
    → Until t ss
    → recent t (attempt_times ss l) + recent t l.st.minute ≡ recent t (run_loop ss l).st.minute
unfolding run_loop
recent-attempt_times t [] l p = ground arith
recent-attempt_times t (idle sec now saved ∷ ss) l p = grind (
  arith,
  recent-attempt_times t ss (step (idle sec now saved) l) p.1,
  ap (λ r. recent t r.minute) (idle-rates sec now saved l),
)
recent-attempt_times t (turn u ∷ ss) l p = ground (
  arith,
  recent-append t (attempts u.now (ttl_of (handle_event u.host u.line (housekept u l).st u.now).0))
      (attempt_times ss (step (turn u) l)),
  RateStep-recent t u.now _ _ _ (turn-RateStep u l) p.0,
  recent-attempt_times t ss (step (turn u) l) p.1,
)

pub RateStep-conf : (now : ℕ) (r r' : Rates) (o : Option ℕ) → RateStep now r o r' → r'.conf ≡ r.conf
RateStep-conf now r _ _ (kept _) = refl
RateStep-conf now r _ _ (dropped _) = refl
RateStep-conf now r _ _ (counted src ttl _ room) = refl

-- The caps hold after the loop, and they are the caps it started with.
run_loop-Capped :
    (ss : List Step) (l : Loop)
    → Capped (rates l.st)
    → Capped (rates (run_loop ss l).st) × ((run_loop ss l).st.conf ≡ l.st.conf)
unfolding run_loop
run_loop-Capped [] l c = (c, refl)
run_loop-Capped (idle sec now saved ∷ ss) l c =
    let (after, same) =
      run_loop-Capped ss (step (idle sec now saved) l)
        (subst Capped (sym (idle-rates sec now saved l)) c) in
    (after, same ∙ ap (λ r. r.conf) (idle-rates sec now saved l))
run_loop-Capped (turn u ∷ ss) l c =
    let (after, same) =
      run_loop-Capped ss (step (turn u) l) (RateStep-Capped u.now _ _ _ (turn-RateStep u l) c) in
    (after, same ∙ RateStep-conf u.now _ _ _ (turn-RateStep u l))

-- If both rate structures are within their caps before an event, they are after it.
pub handle_event-Capped :
    (h : Host) (line : Line) (st : EventState) (now : ℕ)
    → Capped (rates st)
    → Capped (rates (handle_event h line st now).1)
handle_event-Capped h line st now = RateStep-Capped now _ _ _ (handle_event-RateStep h line st now)

-- If the loop starts within the caps and handles all its lines by the time `t`, at most
-- `rate_min_cap` blocks were attempted or rehearsed in the minute before `t`.
pub attempt_times-within_cap :
    (t : ℕ) (ss : List Step) (l : Loop)
    → Until t ss
    → Capped (rates l.st)
    → recent t (attempt_times ss l) ≤ l.st.conf.rate_min_cap
attempt_times-within_cap t ss l p c =
    let (after, same) = run_loop-Capped ss l c in
    grind (
      arith,
      recent-attempt_times t ss l p,
      recent-length t (run_loop ss l).st.minute,
      after.minute,
      ap (λ k. k.rate_min_cap) same,
    )
