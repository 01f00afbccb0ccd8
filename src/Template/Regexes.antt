-- ===== src/Template/Regexes.antt =====
-- `check_regexes` of zbx/check_template.py: every extraction finds a value in the sample.
use Prim.Native.String.{◌++◌ as ◌<>◌}
use mathlib.Core.Path.{subst}
use text.Mathlib.TextLemmas.{append_assoc}
use nodeguard.Prelude.{
  ℕ, ◌≡◌, refl, sym, ◌∙◌, ap, ◌≢◌, String, Bool, true, false, ◌&&◌, ◌||◌, Option, none, some, List,
  [], ◌∷◌, ◌++◌, map, str_eq, str_eq_iff, leb, ◌==◌, if◌then◌else◌, arith, All, Bool-cases,
  Option-cases, inl, inr,
}
use nodeguard.Prelude.Text.{
  skip_prefix, span, split_by, replace, skip_prefix_sound, skip_prefix-append, span-append,
}
use nodeguard.Template.Export.{
  Export, Item, Step, DiscoveryRule, Prototype, each, walk_items, discovery_rules,
}
use nodeguard.Template.Checker.{Checker, is_in, sort_set, ok, failed}

-- What `re.search(pattern, text)` and `group(1)` of its match give: `re.error`, None, an IndexError
-- for a pattern without a group, or the group (None for one that took no part).
pub data Search : Type 0 where
  invalid unmatched no_group : Search
  group : Option String → Search

-- Python's `re`: `search pattern text`, and `re.escape`.
pub record Re : Type 0 where
  pub search : String → String → Search
  pub escape : String → String

abbrev pub is_word : ℕ → Bool
is_word c = (leb 65 c && leb c 90) || (leb 97 c && leb c 122) || (leb 48 c && leb c 57) || c == 95

-- LLD_FEED_RE at a line: the name between the prefix and the equals sign, which is not `min`.
unfoldable pub line_feed : String → Option String
line_feed line = elim (skip_prefix "ng.feeds_last_success_ts_" line) [
  | none ↦ none
  | some rest ↦ elim (skip_prefix "min=" rest) [
    | some _ ↦ none
    | none ↦
        let (name, after) = span is_word rest in
        if str_eq name ""
        then none
        else elim (skip_prefix "=" after) [ none ↦ none | some _ ↦ some name ]
  ]
]

unfoldable pub feeds_of : List String → List String
feeds_of [] = []
feeds_of (line ∷ ls) =
    let rest = feeds_of ls in elim (line_feed line) [ none ↦ rest | some name ↦ name ∷ rest ]

-- `LLD_FEED_RE.findall(sample)`: a match lies in one line.
unfoldable pub lld_feeds : String → List String
unfolding feeds_of
lld_feeds sample = feeds_of (split_by (λ c. c == 10) sample)

-- `sorted(xs) != sorted(set(xs))`
unfoldable pub has_duplicate : List String → Bool
has_duplicate [] = false
has_duplicate (x ∷ xs) = is_in x xs || has_duplicate xs

abbrev pub is_empty : List String → Bool
is_empty [] = true
is_empty (_ ∷ _) = false

unfoldable pub check_feeds : List String → Checker → Checker
check_feeds feeds c =
    if has_duplicate feeds || is_empty feeds
    then failed "lld-extraction" feeds c
    else if is_in "min" feeds
    then failed "lld-extraction" feeds c
    else ok "lld-extraction found feeds" (sort_set feeds) c

-- `check_one`, on what the search gives; `none` is the IndexError that ends the program.
unfoldable pub judge : Search → String → String → Checker → Option Checker
judge invalid label pattern c = some (failed label (pattern ∷ []) c)
judge unmatched label pattern c = some (failed label (pattern ∷ []) c)
judge no_group label pattern c = none
judge (group none) label pattern c = some (failed label (pattern ∷ []) c)
judge (group (some text)) label pattern c =
    some (if str_eq text "" then failed label (pattern ∷ []) c else c)

abbrev pub check_one : Re → String → String × String → Checker → Option Checker
check_one re sample p = judge (re.search p.1 sample) p.0 p.1

-- The patterns of the steps of type REGEX.
unfoldable pub patterns : List Step → List String
patterns [] = []
patterns (s ∷ ss) =
    let rest = patterns ss in if str_eq s.kind "REGEX" then s.parameter ∷ rest else rest

unfoldable pub item_checks : Export → List (String × String)
unfolding each
item_checks exp =
    each (λ (i : Item). map (λ p. ("regex " <> i.key, p)) (patterns i.preprocessing))
      (walk_items exp)

-- Each pattern of a prototype, for each feed.
unfoldable pub prototype_checks : Re → List String → Export → List (String × String)
unfolding each
prototype_checks re feeds exp =
    each
      (λ (dr : DiscoveryRule).
        each
          (λ (ip : Prototype).
            each
              (λ p.
                map
                  (λ feed. (
                    "prototype regex " <> ip.key <> " feed " <> feed,
                    replace "{#FEED}" (re.escape feed) p,
                  ))
                  feeds)
              (patterns ip.preprocessing))
          dr.item_prototypes)
      (discovery_rules exp)

unfoldable pub check_each : Re → String → List (String × String) → Checker → Option Checker
check_each re sample [] c = some c
check_each re sample (p ∷ ps) c = elim (check_one re sample p c) [
  | none ↦ none
  | some c' ↦ check_each re sample ps c'
]

unfoldable pub regex_checks : Re → Export → String → List (String × String)
regex_checks re exp sample = item_checks exp ++ prototype_checks re (lld_feeds sample) exp

unfoldable pub check_regexes : Re → Checker → Export → String → Option Checker
check_regexes re c exp sample =
    elim (check_each re sample (regex_checks re exp sample) (check_feeds (lld_feeds sample) c)) [
      | none ↦ none
      | some c' ↦ some (ok "checked extraction regexes against the sample" [] c')
    ]

-- The pattern has a group that takes a nonempty text from the sample.
abbrev pub Extracts : Re → String → String × String → Type 0
Extracts re sample p = (text : String) × (re.search p.1 sample ≡ group (some text)) × (text ≢ "")

judge-group :
    (s : Search) (label pattern : String) (c c' : Checker)
    → judge s label pattern c ≡ some c'
    → c'.failures ≡ 0
    → (c.failures ≡ 0) × ((text : String) × (s ≡ group (some text)) × (text ≢ ""))
unfolding judge failed
judge-group invalid label pattern c c' e z = ground (arith, e, z)
judge-group unmatched label pattern c c' e z = ground (arith, e, z)
judge-group no_group label pattern c c' e z = ground (arith, e)
judge-group (group none) label pattern c c' e z = ground (arith, e, z)
judge-group (group (some text)) label pattern c c' e z = elim (Bool-cases (str_eq text "")) [
  | inl y ↦ ground (arith, y, e, z)
  | inr n ↦ (ground (arith, n, e, z), (text, refl, ground (arith, n, str_eq_iff text "")))
]

check_each-Extracts :
    (re : Re) (sample : String) (ps : List (String × String)) (c c' : Checker)
    → check_each re sample ps c ≡ some c'
    → c'.failures ≡ 0
    → (c.failures ≡ 0) × All (Extracts re sample) ps
unfolding check_each
check_each-Extracts re sample [] c c' e z = (ground (arith, e, z), tt)
check_each-Extracts re sample (p ∷ ps) c c' e z = elim (Option-cases (check_one re sample p c)) [
  | inl n ↦ ground (arith, n, e)
  | inr (d, y) ↦
      let (later, rest) = check_each-Extracts re sample ps d c' (ground (arith, y, e)) z in
      let (first, found) = judge-group (re.search p.1 sample) p.0 p.1 c d y later in
      (first, (found, rest))
]

check_feeds-failures :
    (feeds : List String) (c : Checker)
    → (check_feeds feeds c).failures ≡ 0
    → (c.failures ≡ 0) × (has_duplicate feeds ≡ false) × (is_empty feeds ≡ false)
unfolding check_feeds ok failed
check_feeds-failures feeds c e = ground (arith, e)

-- If the regex check ends with no failure counted, the sample names feeds, none twice, and every
-- pattern of an item, and of a prototype for each feed, extracts a nonempty text from the sample.
pub check_regexes-Extracts :
    (re : Re) (c c' : Checker) (exp : Export) (sample : String)
    → check_regexes re c exp sample ≡ some c'
    → c'.failures ≡ 0
    → (c.failures ≡ 0)
      × (has_duplicate (lld_feeds sample) ≡ false)
      × (is_empty (lld_feeds sample) ≡ false)
      × All (Extracts re sample) (regex_checks re exp sample)
unfolding check_regexes ok
check_regexes-Extracts re c c' exp sample e z =
    elim (Option-cases
      (check_each re sample (regex_checks re exp sample) (check_feeds (lld_feeds sample) c))) [
        | inl n ↦ ground (arith, n, e)
        | inr (d, y) ↦
            let (feeds, found) =
              check_each-Extracts re sample (regex_checks re exp sample)
                (check_feeds (lld_feeds sample) c) d y (ground (arith, y, e, z)) in
            let (first, distinct, named) = check_feeds-failures (lld_feeds sample) c feeds in
            (first, distinct, named, found)
      ]

min_found :
    (rest after r : String)
    → rest ≡ "min" <> after
    → skip_prefix "=" after ≡ some r
    → skip_prefix "min=" rest ≡ some r
min_found rest after r e f =
    let joined : rest ≡ "min=" <> r =
      e ∙ ap (λ t. "min" <> t) (skip_prefix_sound "=" after r f) ∙ sym (append_assoc "min" "=" r) in
    subst (λ t. skip_prefix "min=" t ≡ some r) (sym joined) (skip_prefix-append "min=" r)

name_not_min :
    (rest name : String)
    → skip_prefix "min=" rest ≡ none
    → (if str_eq (span is_word rest).0 ""
        then none
        else elim (skip_prefix "=" (span is_word rest).1) [
          | none ↦ none
          | some _ ↦ some (span is_word rest).0
        ])
      ≡ some name
    → name ≢ "min"
name_not_min rest name n e is_min = elim (Option-cases (skip_prefix "=" (span is_word rest).1)) [
  | inl m ↦ ground (arith, m, e)
  | inr (r, y) ↦
      let same : (span is_word rest).0 ≡ name = ground (arith, y, e) in
      let found =
        min_found rest (span is_word rest).1 r
          (span-append is_word rest ∙ ap (λ t. t <> (span is_word rest).1) (same ∙ is_min)) y in
      ground (arith, n, found)
]

-- A name of the discovery's extraction is not the aggregate's.
line_feed-not_min : (line name : String) → line_feed line ≡ some name → name ≢ "min"
unfolding line_feed
line_feed-not_min line name e = elim (Option-cases (skip_prefix "ng.feeds_last_success_ts_" line)) [
  | inl n ↦ ground (arith, n, e)
  | inr (rest, y) ↦ elim (Option-cases (skip_prefix "min=" rest)) [
    | inl m ↦ name_not_min rest name m (rest_of rest y m e)
    | inr (r, z) ↦ ground (arith, y, z, e)
  ]
]
  where
    rest_of :
        (rest : String)
        → skip_prefix "ng.feeds_last_success_ts_" line ≡ some rest
        → skip_prefix "min=" rest ≡ none
        → line_feed line ≡ some name
        → (if str_eq (span is_word rest).0 ""
            then none
            else elim (skip_prefix "=" (span is_word rest).1) [
              | none ↦ none
              | some _ ↦ some (span is_word rest).0
            ])
          ≡ some name
    rest_of rest y m e = ground (arith, y, m, e)

feeds_of-not_min : (lines : List String) → is_in "min" (feeds_of lines) ≡ false
unfolding feeds_of
feeds_of-not_min [] = refl
feeds_of-not_min (line ∷ ls) = elim (Option-cases (line_feed line)) [
  | inl n ↦ ground (arith, n, feeds_of-not_min ls)
  | inr (name, y) ↦
      ground (arith, y, feeds_of-not_min ls, str_eq_iff name "min", line_feed-not_min line name y)
]

-- No sample makes the extraction name the aggregate `min` as a feed: the second branch of the
-- extraction's check is never taken.
lld_feeds-not_min : (sample : String) → is_in "min" (lld_feeds sample) ≡ false
unfolding lld_feeds
lld_feeds-not_min sample = feeds_of-not_min (split_by (λ c. c == 10) sample)
