-- ===== src/Prelude/Text.antt =====
-- Python's methods on `str` that the tools use, character by character.
use Prim.Native.Char.{Char, code}
use Prim.Native.String.{String, ◌++◌ as ◌<>◌}
use Prim.Native.Nat.{ℕ, zero, suc, ◌-◌}
use mathlib.Core.Path.{◌≡◌, ap, subst, sym, ◌∙◌}
use mathlib.Core.Logic.{inl, inr}
use mathlib.Core.Bool.{Bool, true, ◌&&◌, ◌||◌}
use mathlib.Core.Option.{Option, none, some}
use mathlib.Core.List.{List, [], ◌∷◌}
use native.Mathlib.Omega.{arith}
use text.Mathlib.TextEquality.{Char-path}
use text.Mathlib.TextLemmas.{nil-append, cons-append}
use nodeguard.Prelude.Tests.{Bool-cases, Option-cases, leb, ◌==◌, str_eq, str_eq_iff, if◌then◌else◌}

some_injective {ℓ} : {A : Type ℓ} (x y : A) → some x ≡ some y → x ≡ y
some_injective x y e = cc

-- `c.isspace()`
abbrev pub is_space : ℕ → Bool
is_space c =
    (leb 9 c && leb c 13)
    || (leb 28 c && leb c 32)
    || c == 133
    || c == 160
    || c == 5760
    || (leb 8192 c && leb c 8202)
    || c == 8232
    || c == 8233
    || c == 8239
    || c == 8287
    || c == 12288

-- The text from its first character that is no space on.
unfoldable pub skip_spaces : String → String
skip_spaces String.[] = String.[]
skip_spaces (String.◌∷◌ c s) =
    let rest = skip_spaces s in if is_space (code c) then rest else String.◌∷◌ c s

-- The text up to its last character that is no space.
unfoldable pub drop_trailing : String → String
drop_trailing String.[] = String.[]
drop_trailing (String.◌∷◌ c s) =
    let rest = drop_trailing s in
    if is_space (code c) && str_eq rest "" then "" else String.◌∷◌ c rest

-- `text.strip()`
unfoldable pub strip : String → String
unfolding skip_spaces drop_trailing
strip s = drop_trailing (skip_spaces s)

-- `text.split("#", 1)[0]`
unfoldable pub before_hash : String → String
before_hash String.[] = String.[]
before_hash (String.◌∷◌ c s) =
    let rest = before_hash s in if code c == 35 then "" else String.◌∷◌ c rest

-- A character in front of the first part.
abbrev pub extend : String → List String → List String
extend h [] = h ∷ []
extend h (w ∷ ws) = (h <> w) ∷ ws

-- The parts between the characters that satisfy a test, empty ones too.
unfoldable pub split_by : (ℕ → Bool) → String → List String
split_by p String.[] = "" ∷ []
split_by p (String.◌∷◌ c s) =
    let rest = split_by p s in if p (code c) then "" ∷ rest else extend (String.◌∷◌ c "") rest

unfoldable pub nonempty : List String → List String
nonempty [] = []
nonempty (w ∷ ws) = let rest = nonempty ws in if str_eq w "" then rest else w ∷ rest

-- `text.split()`
unfoldable pub fields : String → List String
unfolding split_by nonempty
fields s = nonempty (split_by is_space s)

-- What follows a prefix, if the text has it.
unfoldable pub skip_prefix : String → String → Option String
skip_prefix String.[] s = some s
skip_prefix (String.◌∷◌ c p) String.[] = none
skip_prefix (String.◌∷◌ c p) (String.◌∷◌ d s) =
    let rest = skip_prefix p s in if code c == code d then rest else none

-- What precedes a suffix, if the text has it.
unfoldable pub drop_suffix : String → String → Option String
drop_suffix t String.[] = if str_eq t "" then some "" else none
drop_suffix t (String.◌∷◌ c s) =
    let rest = drop_suffix t s in
    if str_eq (String.◌∷◌ c s) t
    then some ""
    else elim rest [ none ↦ none | some r ↦ some (String.◌∷◌ c r) ]

same_char : (c d : Char) → (code c == code d) ≡ true → c ≡ d
same_char c d e = Char-path c d (ground arith)

text_eq : (s t : String) → str_eq s t ≡ true → s ≡ t
text_eq s t = (str_eq_iff s t).0

-- What follows the prefix, and the prefix, make up the text.
pub skip_prefix_sound : (p s r : String) → skip_prefix p s ≡ some r → s ≡ p <> r
unfolding skip_prefix
skip_prefix_sound String.[] s r e = some_injective s r e ∙ sym (nil-append r)
skip_prefix_sound (String.◌∷◌ c p) String.[] r e = ground arith
skip_prefix_sound (String.◌∷◌ c p) (String.◌∷◌ d s) r e = elim (Bool-cases (code c == code d)) [
  | inl y ↦ cc (
    same_char c d (ground (arith, y)),
    skip_prefix_sound p s r (ground (arith, y, e)),
    cons-append c p r,
  )
  | inr n ↦ ground (arith, n, e)
]

pub drop_suffix_sound : (t s r : String) → drop_suffix t s ≡ some r → s ≡ r <> t
unfolding drop_suffix
drop_suffix_sound t String.[] r e = elim (Bool-cases (str_eq t "")) [
  | inl y ↦ cc (text_eq t "" y, some_injective "" r (ground (arith, y, e)), nil-append t)
  | inr n ↦ ground (arith, n, e)
]
drop_suffix_sound t (String.◌∷◌ c s) r e = elim (Bool-cases (str_eq (String.◌∷◌ c s) t)) [
  | inl y ↦
      cc (text_eq (String.◌∷◌ c s) t y, some_injective "" r (ground (arith, y, e)), nil-append t)
  | inr n ↦ elim (Option-cases (drop_suffix t s)) [
    | inl none' ↦ ground (arith, n, e, none')
    | inr (q, some') ↦ cc (
      drop_suffix_sound t s q some',
      cons-append c q t,
      some_injective (String.◌∷◌ c q) r (ground (arith, n, e, some')),
    )
  ]
]

-- A prefix that is there is found.
pub skip_prefix-append : (p r : String) → skip_prefix p (p <> r) ≡ some r
unfolding skip_prefix
skip_prefix-append String.[] r = ap some (nil-append r)
skip_prefix-append (String.◌∷◌ c p) r =
    subst (λ t. skip_prefix (String.◌∷◌ c p) t ≡ some r) (sym (cons-append c p r))
      (ground (arith, skip_prefix-append p r))

-- `len(text)`
abbrev pub count : String → ℕ
count String.[] = 0
count (String.◌∷◌ c s) = suc (count s)

-- `text.replace(old, new)` of a nonempty `old`; the first argument is what is left of a match.
unfoldable pub replace_from : ℕ → String → String → String → String
replace_from k old new String.[] = ""
replace_from (suc k) old new (String.◌∷◌ c s) = replace_from k old new s
replace_from zero old new (String.◌∷◌ c s) = elim (skip_prefix old (String.◌∷◌ c s)) [
  | none ↦ String.◌∷◌ c (replace_from 0 old new s)
  | some _ ↦ new <> replace_from (count old - 1) old new s
]

unfoldable pub replace : String → String → String → String
unfolding replace_from
replace old new s = replace_from 0 old new s

-- The longest front part whose characters satisfy a test, and the rest.
unfoldable pub span : (ℕ → Bool) → String → String × String
span p String.[] = ("", "")
span p (String.◌∷◌ c s) =
    let (w, r) = span p s in if p (code c) then (String.◌∷◌ c w, r) else ("", String.◌∷◌ c s)

pub span-append : (p : ℕ → Bool) (s : String) → s ≡ (span p s).0 <> (span p s).1
unfolding span
span-append p String.[] = sym (nil-append "")
span-append p (String.◌∷◌ c s) = elim (Bool-cases (p (code c))) [
  | inl y ↦
      rw y
        (ap (λ t. String.◌∷◌ c t) (span-append p s) ∙ sym (cons-append c (span p s).0 (span p s).1))
  | inr n ↦ rw n (sym (nil-append (String.◌∷◌ c s)))
]
