-- ===== src/Ngmap/Sweep/Tally.antt =====
-- What `cmd_sweep` of bin/ngmap.py counts, and what it leaves alone.
use nodeguard.Prelude.{
  ℕ, ◌+◌, ◌≤◌, ◌≡◌, refl, String, Bool, true, false, Option, none, some, List, [], ◌∷◌,
  if◌then◌else◌, length, arith,
}
use nodeguard.Ngmap.Pack.{Bytes}
use nodeguard.Ngmap.Exec.{Exec}
use nodeguard.Ngmap.Exec.Ensures.{Ensures, Ensures-pure, Ensures-if, Ensures-bind, Ensures-then}
use nodeguard.Ngmap.Host.{Host}
use nodeguard.Ngmap.Maps.{Value, is_expired}
use nodeguard.Ngmap.Live.{purge_one, purge_found, purge_expired}
use nodeguard.Ngmap.Block.{locked}
use nodeguard.Ngmap.Sweep.{Walk, walk_end, walk_entry, sweep_each}

module _ (h : Host) where
  open h use {World}

  purge_one-at_most_one :
      (p : String) (now : ℕ) (k : Bytes) → Ensures (λ n. n ≤ 1) (purge_one h p now k)
  unfolding purge_one purge_found purge_expired
  purge_one-at_most_one p now k = Ensures-then _ _ found
    where
      one : (b : Bool) → (if b then 1 else 0) ≤ 1
      one true = omega arith
      one false = omega arith

      found : (cur : Option Bytes) → Ensures (λ n. n ≤ 1) (purge_found h p now k cur)
      found none = Ensures-pure 0 (omega arith)
      found (some v) = Ensures-then _ _ λ x.
          Ensures-if (is_expired now x.0) _ _
            (λ _. Ensures-then _ _ (λ gone. Ensures-pure _ (one gone)))
            (λ _. Ensures-pure 0 (omega arith))

  locked-Ensures :
      {A : Type 0} {Q : A → Type 0} (m : Exec World A) → Ensures Q m → Ensures Q (locked h m)
  locked-Ensures m e = record { at = λ w a q. e.at (h.lock w) a q }

  -- A finished walk has counted each entry of the dump once, as swept or as live, and has its hits.
  sweep_each-tally :
      (p : String) (now : ℕ) (es : List (Bytes × Value))
      → Ensures
          (λ (r : Walk). (r.swept + r.live ≡ length es) × (length r.hits ≡ length es))
          (sweep_each h p now es)
  unfolding sweep_each
  sweep_each-tally p now [] = Ensures-pure walk_end (omega arith, refl)
  sweep_each-tally p now ((k, v) ∷ es) = Ensures-then _ _ λ x. Ensures-then _ _ λ net.
      Ensures-bind _ _
        (Ensures-if (is_expired now x.0) _ _
          (λ _. locked-Ensures (purge_one h p now k) (purge_one-at_most_one p now k))
          (λ _. Ensures-pure 0 (omega arith)))
        λ gone one. Ensures-bind _ _ (sweep_each-tally p now es) λ later t.
          Ensures-pure (walk_entry net x.1 gone later)
            (ground (arith, one, t.0), ground (arith, t.1))
