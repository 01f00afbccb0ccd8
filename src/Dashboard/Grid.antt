-- ===== src/Dashboard/Grid.antt =====
-- The grid, the palette and the reference strings of zbx/lib.py.
use Prim.Native.String.{◌++◌ as ◌<>◌}
use mathlib.Core.Path.{subst}
use nodeguard.Prelude.Decimal.{nth}
use nodeguard.Prelude.{
  ℕ, zero, suc, ◌+◌, ◌*◌, ◌/◌, ◌%◌, ◌≤◌, ◌≡◌, refl, sym, ap, all_below, all_below_sound, ◌∙◌, ◌<◌,
  str_eq, ◌≢◌, String, Bool, true, List, [], ◌∷◌, ◌++◌, length, if◌then◌else◌, ◌==◌, All, arith,
}

-- GRID_COLUMNS
abbrev pub grid_columns : ℕ
grid_columns = 72

-- `[(x0 + i * w, w) for i in range(n)]`, from a number i on.
unfoldable pub columns_from : ℕ → ℕ → ℕ → ℕ → List (ℕ × ℕ)
columns_from x0 w i zero = []
columns_from x0 w i (suc n) = (x0 + i * w, w) ∷ columns_from x0 w (suc i) n

unfoldable pub split_columns : ℕ → ℕ → ℕ → List (ℕ × ℕ)
split_columns zero total x0 = []
split_columns (suc n) total x0 = columns_from x0 (total / suc n) 0 (suc n)

-- OKABE_ITO
abbrev pub okabe_ito : List String
okabe_ito =
    "0072B2" ∷ "D55E00" ∷ "009E73" ∷ "CC79A7" ∷ "E69F00" ∷ "56B4E9" ∷ "F0E442" ∷ "999999" ∷ []

-- The digest of the name as a number is a parameter.
unfoldable pub host_color : (String → ℕ) → String → ℕ → String
host_color sha256 host shift = nth "999999" okabe_ito ((sha256 host + shift) % 8)

abbrev pub letters : List String
letters =
    "A" ∷ "B" ∷ "C" ∷ "D" ∷ "E" ∷ "F" ∷ "G" ∷ "H" ∷ "I" ∷ "J" ∷ "K" ∷ "L" ∷ "M" ∷ "N" ∷ "O" ∷ "P"
    ∷ "Q" ∷ "R" ∷ "S" ∷ "T" ∷ "U" ∷ "V" ∷ "W" ∷ "X" ∷ "Y" ∷ "Z" ∷ []

-- `(prefix + a for a in letters)`
unfoldable pub followed : String → List String → List String
followed prefix [] = []
followed prefix (a ∷ as') = (prefix <> a) ∷ followed prefix as'

-- Every prefix with every letter behind it, the letter going round fastest.
unfoldable pub extended : List String → List String
extended [] = []
extended (p ∷ ps) = followed p letters ++ extended ps

-- The supply of a RefSeq: the prefix and three letters. `next` takes the first.
unfoldable pub ref_seq : String → List String
ref_seq prefix = extended (extended (followed prefix letters))

-- A column begins where the one before it ends.
abbrev pub Adjacent : ℕ → ℕ → List (ℕ × ℕ) → Type 0
Adjacent start w [] = Unit
Adjacent start w ((x, v) ∷ cs) = (x ≡ start) × (v ≡ w) × Adjacent (start + w) w cs

columns_from-Adjacent :
    (x0 w i n start : ℕ) → start ≡ x0 + i * w → Adjacent start w (columns_from x0 w i n)
unfolding columns_from
columns_from-Adjacent x0 w i zero start e = tt
columns_from-Adjacent x0 w i (suc n) start e =
    (sym e, refl, columns_from-Adjacent x0 w (suc i) n (start + w) (omega (arith, e)))

length-columns_from : (x0 w i n : ℕ) → length (columns_from x0 w i n) ≡ n
unfolding columns_from
length-columns_from x0 w i zero = refl
length-columns_from x0 w i (suc n) = ap suc (length-columns_from x0 w (suc i) n)

div_fits : (total n : ℕ) → suc n * (total / suc n) ≤ total
div_fits total n = omega arith

-- Columns side by side stay within their total width.
columns_inside :
    (x0 total w i n : ℕ)
    → (i + n) * w ≤ total
    → All (λ (c : ℕ × ℕ). (x0 ≤ c.0) × (c.0 + c.1 ≤ x0 + total)) (columns_from x0 w i n)
unfolding columns_from
columns_inside x0 total w i zero fits = tt
columns_inside x0 total w i (suc n) fits =
    ((omega arith, omega (arith, fits)), columns_inside x0 total w (suc i) n (omega (arith, fits)))

-- n columns of a grid, if n is at least 1: there are n, of one width, the first begins at x0 and each
-- other where the one before it ends, and all lie within the total width.
pub split_columns-Adjacent :
    (n total x0 : ℕ)
    → 1 ≤ n
    → (length (split_columns n total x0) ≡ n)
      × Adjacent x0 (total / n) (split_columns n total x0)
      × All (λ (c : ℕ × ℕ). (x0 ≤ c.0) × (c.0 + c.1 ≤ x0 + total)) (split_columns n total x0)
unfolding split_columns
split_columns-Adjacent zero total x0 h = absurd (omega (arith, h))
split_columns-Adjacent (suc n) total x0 h = (
  length-columns_from x0 (total / suc n) 0 (suc n),
  columns_from-Adjacent x0 (total / suc n) 0 (suc n) x0 (omega arith),
  columns_inside x0 total (total / suc n) 0 (suc n)
      (subst (λ m. m * (total / suc n) ≤ total) (omega arith) (div_fits total n)),
)

-- The place of a colour in the palette.
place_of : String → List String → ℕ
place_of c [] = 0
place_of c (d ∷ ds) = let rest = place_of c ds in if str_eq d c then 0 else suc rest

found_again : ℕ → Bool
found_again i = place_of (nth "999999" okabe_ito i) okabe_ito == i

found_again_table : all_below 8 found_again ≡ true
unfolding found_again place_of nth
found_again_table = refl

nth_place : (i : ℕ) → i < 8 → place_of (nth "999999" okabe_ito i) okabe_ito ≡ i
unfolding found_again
nth_place i h = ground (arith, all_below_sound 8 found_again i found_again_table h)

-- Two shifts of one host that differ by no multiple of 8 give different colours: up to eight metrics
-- of a host are told apart on one graph.
host_color-apart :
    (sha256 : String → ℕ) (host : String) (shift shift' : ℕ)
    → shift % 8 ≢ shift' % 8
    → host_color sha256 host shift ≢ host_color sha256 host shift'
unfolding host_color
host_color-apart sha256 host shift shift' differ same = differ (omega (arith, index))
  where
    low : (n : ℕ) → n % 8 < 8
    low n = omega arith

    index : (sha256 host + shift) % 8 ≡ (sha256 host + shift') % 8
    index =
        sym (nth_place _ (low (sha256 host + shift)))
        ∙ (ap (λ c. place_of c okabe_ito) same ∙ nth_place _ (low (sha256 host + shift')))
