-- ===== src/Prelude/Decimal.antt =====
-- `str` of a number.
use Prim.Native.Nat.{ℕ, zero, suc, ◌-◌, ◌/◌, ◌%◌}
use Prim.Native.String.{String, ◌++◌ as ◌<>◌}
use mathlib.Core.List.{List, [], ◌∷◌}
use nodeguard.Prelude.Tests.{if◌then◌else◌, ltb, ◌==◌}

-- An item of a list, the last one where the list is too short.
unfoldable pub nth : String → List String → ℕ → String
nth last [] i = last
nth last (c ∷ cs) i = let rest = nth last cs (i - 1) in if i == 0 then c else rest

abbrev pub digits : List String
digits = "0" ∷ "1" ∷ "2" ∷ "3" ∷ "4" ∷ "5" ∷ "6" ∷ "7" ∷ "8" ∷ "9" ∷ []

abbrev pub digit : ℕ → String
digit = nth "9" digits

-- The number n itself is fuel enough.
unfoldable pub decimal_from : ℕ → ℕ → String
decimal_from zero n = digit (n % 10)
decimal_from (suc fuel) n =
    let rest = decimal_from fuel (n / 10) in if ltb n 10 then digit n else rest <> digit (n % 10)

-- `str(n)`, and "%d" of it.
unfoldable pub decimal : ℕ → String
decimal n = decimal_from n n
