-- ===== src/Dashboard/Sizes.antt =====
-- The legibility budgets of zbx/lib.py. Python's floats are a parameter: a literal, its text, stands for
-- the double nearest to it, and `int` cuts off at the point.
use nodeguard.Prelude.{
  ℕ, ◌≤◌, ◌≡◌, refl, ◌↔◌, String, Bool, false, ◌||◌, Option, none, some, ◌==◌, leb, if◌then◌else◌,
  arith,
}
use nodeguard.Prelude.Int.{ℤ, pos, negsuc}

pub record Floats : Type 1 where
  pub Float : Type 0
  pub literal : String → Float
  pub float : ℕ → Float
  pub sub : Float → Float → Float
  pub mul : Float → Float → Float
  pub div : Float → Float → Float
  pub max : Float → Float → Float
  pub min : Float → Float → Float
  pub int : Float → ℤ

-- `max(n, z)` and `min(n, z)` of a number and an integer.
abbrev pub at_least : ℕ → ℤ → ℕ
at_least n (pos m) = if leb n m then m else n
at_least n (negsuc m) = n

abbrev pub at_most : ℕ → ℤ → ℤ
at_most n (pos m) = if leb n m then pos n else pos m
at_most n (negsuc m) = negsuc m

-- DESC_SIZE, DESC_SIZE_MIN, VALUE_SIZE_MAX, VALUE_SIZE_MIN and VALUE_CHARS_FALLBACK
abbrev pub desc_size_min : ℕ
desc_size_min = 5

abbrev pub value_size_max : ℕ
value_size_max = 45

abbrev pub value_size_min : ℕ
value_size_min = 8

abbrev pub value_chars_fallback : ℕ
value_chars_fallback = 12

-- The keys of VALUE_PX_PER_SIZE.
abbrev pub is_calibrated : ℕ → Bool
is_calibrated height = height == 2 || height == 3 || height == 5

module _ (fl : Floats) where
  abbrev grid_px : fl.Float
  grid_px = fl.literal "1396.0"

  -- COLUMN_PX
  unfoldable pub column_px : fl.Float
  column_px = fl.div grid_px (fl.float 72)

  -- `VALUE_PX_PER_SIZE.get(height)`
  unfoldable pub px_per_size : ℕ → Option fl.Float
  px_per_size height =
      if height == 2
      then some (fl.literal "0.675")
      else if height == 3
      then some (fl.literal "1.290")
      else if height == 5
      then some (fl.literal "2.336")
      else none

  -- `max(1.0, width * COLUMN_PX - VALUE_PADDING_PX)`
  unfoldable pub usable_px : ℕ → fl.Float
  usable_px width =
      fl.max (fl.literal "1.0") (fl.sub (fl.mul (fl.float width) column_px) (fl.float 40))

  unfoldable pub desc_size_for : ℕ → ℕ → ℕ → ℕ
  desc_size_for chars width height = elim (px_per_size height) [
    | none ↦ 13
    | some px ↦
        let fits_px =
          fl.mul
            (fl.div (usable_px width)
              (fl.mul (fl.max (fl.literal "1.0") (fl.float chars)) (fl.literal "0.62")))
            (fl.literal "0.9") in
        at_least desc_size_min (fl.int (fl.div (fl.min (fl.float 17) fits_px) px))
  ]

  unfoldable pub value_size_for : ℕ → ℕ → ℕ → Option ℕ
  value_size_for chars width height = elim (px_per_size height) [
    | none ↦ none
    | some px ↦
        let grown = fl.max (fl.literal "1.0") (fl.mul (fl.float chars) (fl.literal "1.2")) in
        let font_px = fl.div (usable_px width) (fl.mul grown (fl.literal "0.62")) in
        let size = fl.int (fl.mul (fl.div font_px px) (fl.literal "0.9")) in
        some (at_least value_size_min (at_most value_size_max size))
  ]

  unfoldable pub header_chars : ℕ → ℕ
  header_chars width = at_least 0 (
      fl.int (fl.div (fl.sub (fl.mul (fl.float width) column_px) (fl.float 72)) (fl.literal "8.0")))

  clamped :
      (z : ℤ) (n : ℕ)
      → some (at_least value_size_min (at_most value_size_max z)) ≡ some n
      → (8 ≤ n) × (n ≤ 45)
  clamped (pos m) n e = ground (arith, e)
  clamped (negsuc m) n e = ground (arith, e)

  sized :
      (o : Option fl.Float) (g : fl.Float → ℤ)
      → ((o ≡ none) ↔ (
          (elim o [
            | none ↦ none
            | some px ↦ some (at_least value_size_min (at_most value_size_max (g px)))
          ])
          ≡ none))
        × ((n : ℕ)
            → (elim o [
              | none ↦ none
              | some px ↦ some (at_least value_size_min (at_most value_size_max (g px)))
            ])
              ≡ some n
            → (8 ≤ n) × (n ≤ 45))
  sized none g = ((λ _. refl, λ _. refl), λ n e. ground (arith, e))
  sized (some px) g = (ground arith, λ n e. clamped (g px) n e)

  px_per_size-calibrated :
      (height : ℕ) → (is_calibrated height ≡ false) ↔ (px_per_size height ≡ none)
  unfolding px_per_size
  px_per_size-calibrated height = ground arith

  -- Whatever the floats compute, a tile of a calibrated height has a value size, another tile has
  -- none, and a size is from 8 to 45.
  pub value_size_for-bounds :
      (chars width height : ℕ)
      → ((is_calibrated height ≡ false) ↔ (value_size_for chars width height ≡ none))
        × ((n : ℕ) → value_size_for chars width height ≡ some n → (8 ≤ n) × (n ≤ 45))
  unfolding value_size_for
  value_size_for-bounds chars width height =
      let table = px_per_size-calibrated height in
      let grown = fl.max (fl.literal "1.0") (fl.mul (fl.float chars) (fl.literal "1.2")) in
      let font_px = fl.div (usable_px width) (fl.mul grown (fl.literal "0.62")) in
      let (found, bounds) =
        sized (px_per_size height) (λ px. fl.int (fl.mul (fl.div font_px px) (fl.literal "0.9"))) in
      ((λ e. found.0 (table.0 e), λ e. table.1 (found.1 e)), bounds)
