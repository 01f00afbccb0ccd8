-- ===== src/Responder/Loop.antt =====
-- `run_loop` and the shutdown of `main` in bin/nodeguard-responder.
use nodeguard.Prelude.{
  ℕ, ◌+◌, ◌*◌, Bool, true, false, not, ◌&&◌, Option, none, some, List, [], ◌∷◌, ltb, ◌==◌,
  if◌then◌else◌,
}
use nodeguard.Responder.State.{second, Clock, Sids, EventState, flush, flush_sec, prune}
use nodeguard.Responder.Handler.{Line, Host, handle_event}

-- The loop's variables.
pub record Loop : Type 0 where
  pub st : EventState
  pub last_prune : ℕ
  pub last_malformed_report : ℕ
  pub sids_mtime : ℕ

-- What the host gives to one turn with a line: the clock before it and its readings in `prune` and
-- in the flush, the time stamp of sids.conf if it exists and what is in it, and the event's host.
pub record Turn : Type 0 where
  pub line : Line
  pub host : Host
  pub now : ℕ
  pub pruned : Clock
  pub saved : ℕ
  pub mtime : Option ℕ
  pub sids : Sids

-- A line, or the idle sentinel with three readings of the clock.
pub data Step : Type 0 where
  idle : ℕ → ℕ → ℕ → Step
  turn : Turn → Step

abbrev day : ℕ
day = 86400 * second

unfoldable pub prune_daily : Turn → Loop → Loop
prune_daily t l =
    if ltb (l.last_prune + day) t.now
    then record l { st = record l.st { journal = prune t.pruned l.st.journal }; last_prune = t.now }
    else l

-- The report of malformed events starts their count again.
unfoldable pub report : Turn → Loop → Loop
report t l =
    if not (l.st.malformed == 0) && ltb (l.last_malformed_report + 60 * second) t.now
    then record l { st = record l.st { malformed = 0 }; last_malformed_report = t.now }
    else l

unfoldable pub reload_sids : Turn → Loop → Loop
reload_sids t l = elim t.mtime [
  | none ↦ l
  | some m ↦
      if m == l.sids_mtime
      then l
      else record l { st = record l.st { sids = t.sids }; sids_mtime = m }
]

abbrev pub flush_journal : ℕ → ℕ → Bool → EventState → EventState
flush_journal now saved force st = record st { journal = flush now saved force st.journal }

-- What a turn does before it handles its line.
abbrev pub housekept : Turn → Loop → Loop
housekept t l = reload_sids t (report t (prune_daily t l))

unfoldable pub step : Step → Loop → Loop
step (idle sec now saved) l = record l { st = flush_journal now saved false (flush_sec sec l.st) }
step (turn t) l =
    let l' = housekept t l in
    record l' { st = flush_journal t.now t.saved false (handle_event t.host t.line l'.st t.now).1 }

unfoldable pub run_loop : List Step → Loop → Loop
run_loop [] l = l
run_loop (s ∷ ss) l = run_loop ss (step s l)

-- `main`'s `finally`.
unfoldable pub shut_down : ℕ → ℕ → Loop → Loop
shut_down now saved l = record l { st = flush_journal now saved true l.st }
