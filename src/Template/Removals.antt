-- ===== src/Template/Removals.antt =====
-- What `load_removed` of zbx/check_template.py makes of removed-objects.txt.
use mathlib.Core.Path.{subst}
use nodeguard.Prelude.Text.{strip, split_by, skip_prefix}
use nodeguard.Prelude.{
  Option, if◌then◌else◌, ◌∙◌, refl, not, ◌⊎◌, inl, inr, str_eq_iff, Bool-cases, ◌==◌, ◌≡◌, ap, ◌↔◌,
  String, Bool, true, false, ◌&&◌, ◌||◌, none, some, List, [], ◌∷◌, str_eq, any, arith,
}
use nodeguard.Template.Checker.{
  Removed, Kind, item, trigger, discovery_rule, item_prototype, trigger_prototype, same_kind, is_in,
}
use nodeguard.Template.Sanctions.{
  Sanction, nothing, malformed, unknown_kind, removal, read_line, entry_of, kind_of, add_removal,
  load_lines, load_removed,
}

-- The line sanctions the removal of that object.
abbrev told : Kind → String → Sanction → Bool
told k i (removal kind ident) = same_kind k kind && str_eq ident i
told k i _ = false

abbrev is_refused : Sanction → Bool
is_refused malformed = true
is_refused (unknown_kind _) = true
is_refused _ = false

add_removal-is_in :
    (kind k : Kind) (ident i : String) (removed : Removed)
    → is_in i (add_removal kind ident removed k)
      ≡ (told k i (removal kind ident) || is_in i (removed k))
unfolding add_removal
add_removal-is_in kind k ident i removed = ground arith

load_step :
    (s : Sanction) (ls : List String) (removed r : Removed) (k : Kind) (i : String)
    → ((m : Removed)
        → load_lines ls m ≡ some r
        → is_in i (r k) ≡ (is_in i (m k) || any (λ raw. told k i (read_line raw)) ls))
    → (elim s [
      | nothing ↦ load_lines ls removed
      | malformed ↦ none
      | unknown_kind _ ↦ none
      | removal kind ident ↦ load_lines ls (add_removal kind ident removed)
    ])
      ≡ some r
    → is_in i (r k)
      ≡ (is_in i (removed k) || (told k i s || any (λ raw. told k i (read_line raw)) ls))
load_step nothing ls removed r k i ih e = ih removed e
load_step malformed ls removed r k i ih e = ground arith
load_step (unknown_kind _) ls removed r k i ih e = ground arith
load_step (removal kind ident) ls removed r k i ih e =
    ground (arith, ih (add_removal kind ident removed) e, add_removal-is_in kind k ident i removed)

some_path : (x y : Removed) → some x ≡ some y → x ≡ y
some_path x y e = cc

load_lines-records :
    (ls : List String) (removed r : Removed) (k : Kind) (i : String)
    → load_lines ls removed ≡ some r
    → is_in i (r k) ≡ (is_in i (removed k) || any (λ raw. told k i (read_line raw)) ls)
unfolding load_lines
load_lines-records [] removed r k i e =
    ground (arith, ap (λ m. is_in i (m k)) (some_path removed r e))
load_lines-records (raw ∷ ls) removed r k i e =
    load_step (read_line raw) ls removed r k i (λ m. load_lines-records ls m r k i) e

none_step :
    (s : Sanction) (ls : List String) (removed : Removed)
    → ((m : Removed)
        → (load_lines ls m ≡ none) ↔ (any (λ raw. is_refused (read_line raw)) ls ≡ true))
    → ((elim s [
      | nothing ↦ load_lines ls removed
      | malformed ↦ none
      | unknown_kind _ ↦ none
      | removal kind ident ↦ load_lines ls (add_removal kind ident removed)
    ])
        ≡ none)
      ↔ ((is_refused s || any (λ raw. is_refused (read_line raw)) ls) ≡ true)
none_step nothing ls removed ih = ih removed
none_step malformed ls removed ih = ground arith
none_step (unknown_kind _) ls removed ih = ground arith
none_step (removal kind ident) ls removed ih = ih (add_removal kind ident removed)

load_lines-none :
    (ls : List String) (removed : Removed)
    → (load_lines ls removed ≡ none) ↔ (any (λ raw. is_refused (read_line raw)) ls ≡ true)
unfolding load_lines
load_lines-none [] removed = ground arith
load_lines-none (raw ∷ ls) removed =
    none_step (read_line raw) ls removed (λ m. load_lines-none ls m)

-- The words of REMOVED_KINDS.
abbrev pub word_of : Kind → String
word_of item = "item"
word_of trigger = "trigger"
word_of discovery_rule = "discovery_rule"
word_of item_prototype = "item_prototype"
word_of trigger_prototype = "trigger_prototype"

abbrev pub is_filled : String → Bool
is_filled field = not (str_eq (strip field) "")

-- Four fields, none blank: a kind, an identifier, a reason and a date.
abbrev pub entry_says : Kind → String → List String → Bool
entry_says k i (kind ∷ ident ∷ reason ∷ date ∷ []) =
    str_eq (word_of k) (strip kind)
    && str_eq (strip ident) i
    && (is_filled ident && is_filled reason && is_filled date)
entry_says k i _ = false

-- Another number of fields, a blank field, or a kind that is none of the five.
abbrev pub entry_is_bad : List String → Bool
entry_is_bad (kind ∷ ident ∷ reason ∷ date ∷ []) =
    not (is_filled ident && is_filled reason && is_filled date)
    || not (
        str_eq "item" (strip kind)
        || str_eq "trigger" (strip kind)
        || str_eq "discovery_rule" (strip kind)
        || str_eq "item_prototype" (strip kind)
        || str_eq "trigger_prototype" (strip kind))
entry_is_bad _ = true

-- A test of the fields of a line, parted by "|", that is neither blank nor a comment.
abbrev pub in_line : (List String → Bool) → String → Bool
in_line test raw = not (str_eq (strip raw) "") && elim (skip_prefix "#" (strip raw)) [
  | none ↦ test (split_by (λ c. c == 124) (strip raw))
  | some _ ↦ false
]

same_kind-words : (k c : Kind) → str_eq (word_of k) (word_of c) ≡ same_kind k c
same_kind-words item item = refl
same_kind-words trigger item = refl
same_kind-words discovery_rule item = refl
same_kind-words item_prototype item = refl
same_kind-words trigger_prototype item = refl
same_kind-words _ _ = refl

-- A word is that of one of the kinds, or of none.
abbrev Known : String → Type 0
Known x =
    ((c : Kind) × (kind_of x ≡ some c) × (x ≡ word_of c))
    ⊎ ((kind_of x ≡ none)
        × (str_eq "item" x ≡ false)
        × (str_eq "trigger" x ≡ false)
        × (str_eq "discovery_rule" x ≡ false)
        × (str_eq "item_prototype" x ≡ false)
        × (str_eq "trigger_prototype" x ≡ false))

kind_of-Known : (x : String) → Known x
unfolding kind_of
kind_of-Known x = elim (Bool-cases (str_eq "item" x)) [
  | inl y ↦ is y (inl (item, refl, refl))
  | inr n₁ ↦ elim (Bool-cases (str_eq "trigger" x)) [
    | inl y ↦ is y (inl (trigger, refl, refl))
    | inr n₂ ↦ elim (Bool-cases (str_eq "discovery_rule" x)) [
      | inl y ↦ is y (inl (discovery_rule, refl, refl))
      | inr n₃ ↦ elim (Bool-cases (str_eq "item_prototype" x)) [
        | inl y ↦ is y (inl (item_prototype, refl, refl))
        | inr n₄ ↦ elim (Bool-cases (str_eq "trigger_prototype" x)) [
          | inl y ↦ is y (inl (trigger_prototype, refl, refl))
          | inr n₅ ↦ inr (ground (arith, n₁, n₂, n₃, n₄, n₅), n₁, n₂, n₃, n₄, n₅)
        ]
      ]
    ]
  ]
]
  where
    is : {word : String} → str_eq word x ≡ true → Known word → Known x
    is {word} y = subst Known ((str_eq_iff word x).0 y)

word_of-filled : (c : Kind) → str_eq (word_of c) "" ≡ false
word_of-filled item = refl
word_of-filled trigger = refl
word_of-filled discovery_rule = refl
word_of-filled item_prototype = refl
word_of-filled trigger_prototype = refl

-- No kind has a word that is none of the five.
word_of-other :
    (k : Kind) (x : String)
    → str_eq "item" x ≡ false
    → str_eq "trigger" x ≡ false
    → str_eq "discovery_rule" x ≡ false
    → str_eq "item_prototype" x ≡ false
    → str_eq "trigger_prototype" x ≡ false
    → str_eq (word_of k) x ≡ false
word_of-other item x a b c d e = a
word_of-other trigger x a b c d e = b
word_of-other discovery_rule x a b c d e = c
word_of-other item_prototype x a b c d e = d
word_of-other trigger_prototype x a b c d e = e

entry_of-told :
    (k : Kind) (i : String) (fields : List String)
    → told k i (entry_of fields) ≡ entry_says k i fields
unfolding entry_of
entry_of-told k i (kind ∷ ident ∷ reason ∷ date ∷ []) = elim (kind_of-Known (strip kind)) [
  | inl (c, known, word) ↦ ground (
    arith,
    known,
    ap (str_eq (word_of k)) word ∙ same_kind-words k c,
    ap (λ y. str_eq y "") word ∙ word_of-filled c,
  )
  | inr (unknown, a, b, c, d, e) ↦ ground (arith, unknown, word_of-other k (strip kind) a b c d e)
]
entry_of-told k i _ = refl

one_word :
    (x : String) (c : Kind)
    → x ≡ word_of c
    → (str_eq "item" x
        || str_eq "trigger" x
        || str_eq "discovery_rule" x
        || str_eq "item_prototype" x
        || str_eq "trigger_prototype" x)
      ≡ true
one_word x c word =
    ap
      (λ y.
        str_eq "item" y
        || str_eq "trigger" y
        || str_eq "discovery_rule" y
        || str_eq "item_prototype" y
        || str_eq "trigger_prototype" y)
      word
    ∙ of_kind c
  where
    of_kind :
        (c : Kind)
        → (str_eq "item" (word_of c)
            || str_eq "trigger" (word_of c)
            || str_eq "discovery_rule" (word_of c)
            || str_eq "item_prototype" (word_of c)
            || str_eq "trigger_prototype" (word_of c))
          ≡ true
    of_kind item = refl
    of_kind trigger = refl
    of_kind discovery_rule = refl
    of_kind item_prototype = refl
    of_kind trigger_prototype = refl

entry_of-is_refused : (fields : List String) → is_refused (entry_of fields) ≡ entry_is_bad fields
unfolding entry_of
entry_of-is_refused (kind ∷ ident ∷ reason ∷ date ∷ []) = elim (kind_of-Known (strip kind)) [
  | inl (c, known, word) ↦
      ground
        (arith, known, one_word (strip kind) c word, ap (λ y. str_eq y "") word ∙ word_of-filled c)
  | inr (unknown, a, b, c, d, e) ↦ ground (arith, unknown, a, b, c, d, e)
]
entry_of-is_refused _ = refl

read_line-in_line :
    (f : Sanction → Bool) (g : List String → Bool) (raw : String)
    → f nothing ≡ false
    → ((fields : List String) → f (entry_of fields) ≡ g fields)
    → f (read_line raw) ≡ in_line g raw
unfolding read_line
read_line-in_line f g raw e h = by_blank (str_eq (strip raw) "") (skip_prefix "#" (strip raw))
  where
    by_blank :
        (b : Bool) (o : Option String)
        → f (
            if b then nothing else elim o [
              | some _ ↦ nothing
              | none ↦ entry_of (split_by (λ c. c == 124) (strip raw))
            ])
          ≡ (not b && elim o [ none ↦ g (split_by (λ c. c == 124) (strip raw)) | some _ ↦ false ])
    by_blank true o = e
    by_blank false none = h (split_by (λ c. c == 124) (strip raw))
    by_blank false (some _) = e

any-each :
    (f g : String → Bool) (ls : List String) → ((l : String) → f l ≡ g l) → any f ls ≡ any g ls
any-each f g [] h = refl
any-each f g (l ∷ ls) h = ground (arith, h l, any-each f g ls h)

-- If the file of removals is read, an object is sanctioned exactly if some line of it that is neither
-- blank nor a comment has four fields, parted by "|" and none of them blank, of which the first is
-- the object's kind and the second its identifier, spaces round them left aside.
pub load_removed-records :
    (ls : List String) (removed : Removed) (k : Kind) (i : String)
    → load_removed (some ls) ≡ some removed
    → is_in i (removed k) ≡ any (in_line (entry_says k i)) ls
unfolding load_removed
load_removed-records ls removed k i e =
    load_lines-records ls (λ k. []) removed k i e
    ∙ any-each (λ raw. told k i (read_line raw)) (in_line (entry_says k i)) ls
        (λ raw. read_line-in_line (told k i) (entry_says k i) raw refl (entry_of-told k i))

-- The program exits with code 2 on the file exactly if some line that is neither blank nor a comment
-- has another number of fields than four, a blank field, or a kind that is none of the five.
pub load_removed-none :
    (ls : List String) → (load_removed (some ls) ≡ none) ↔ (any (in_line entry_is_bad) ls ≡ true)
unfolding load_removed
load_removed-none ls =
    subst (λ b. (load_lines ls (λ k. []) ≡ none) ↔ (b ≡ true))
      (any-each (λ raw. is_refused (read_line raw)) (in_line entry_is_bad) ls
        (λ raw. read_line-in_line is_refused entry_is_bad raw refl entry_of-is_refused))
      (load_lines-none ls (λ k. []))
