-- ===== src/Prelude/Dict.antt =====
-- A Python dict with text keys, in insertion order.
use mathlib.Core.Path.{◌≡◌, refl}
use mathlib.Core.Bool.{Bool, true, false}
use mathlib.Core.Option.{Option, none, some}
use mathlib.Core.List.{List, [], ◌∷◌}
use Prim.Native.String.{String}
use Prim.Native.Nat.{◌+◌, ◌≤◌}
use nodeguard.Prelude.Lists.{length}
use native.Mathlib.Omega.{arith}
use nodeguard.Prelude.Tests.{str_eq, str_eq_iff, if◌then◌else◌}

abbrev pub Dict {ℓ} : Type ℓ → Type ℓ
Dict V = List (String × V)

module _ {ℓ} {V : Type ℓ} where
  -- `d.get(k)`
  unfoldable pub lookup : String → Dict V → Option V
  lookup k [] = none
  lookup k ((j, v) ∷ d) = if str_eq j k then some v else lookup k d

  -- `d[k] = v`
  unfoldable pub insert : String → V → Dict V → Dict V
  insert k v [] = (k, v) ∷ []
  insert k v ((j, w) ∷ d) = if str_eq j k then (j, v) ∷ d else (j, w) ∷ insert k v d

  -- `k in d`
  abbrev pub has : String → Dict V → Bool
  has k d = elim (lookup k d) [ none ↦ false | some _ ↦ true ]

  pub lookup-insert :
      (k j : String) (v : V) (d : Dict V)
      → lookup j (insert k v d) ≡ (if str_eq k j then some v else lookup j d)
  unfolding lookup insert
  lookup-insert k j v [] = refl
  lookup-insert k j v ((i, w) ∷ d) =
      ground (arith, str_eq_iff k j, str_eq_iff i k, str_eq_iff i j, lookup-insert k j v d)

-- `{k: v for k, v in d.items() if keep(v)}`
unfoldable pub keep_if {ℓ} : {V : Type ℓ} → (V → Bool) → Dict V → Dict V
keep_if p [] = []
keep_if p ((k, v) ∷ d) = let rest = keep_if p d in if p v then (k, v) ∷ rest else rest

pub length-keep_if {ℓ} : {V : Type ℓ} (p : V → Bool) (d : Dict V) → length (keep_if p d) ≤ length d
unfolding keep_if
length-keep_if p [] = ground arith
length-keep_if p ((k, v) ∷ d) = ground (arith, length-keep_if p d)

pub length-insert {ℓ} :
    {V : Type ℓ} (k : String) (v : V) (d : Dict V) → length (insert k v d) ≤ length d + 1
unfolding insert
length-insert k v [] = ground arith
length-insert k v ((j, w) ∷ d) = ground (arith, length-insert k v d)
