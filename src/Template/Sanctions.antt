-- ===== src/Template/Sanctions.antt =====
-- `check_sanctions` and `load_removed` of zbx/check_template.py: designed removals.
use Prim.Native.String.{◌++◌ as ◌<>◌}
use nodeguard.Prelude.{
  ◌≡◌, refl, ◌↔◌, String, false, ◌||◌, Option, none, some, List, [], ◌∷◌, map, str_eq, ◌==◌,
  if◌then◌else◌, arith, All, Bool-cases, inl, inr,
}
use nodeguard.Prelude.Text.{strip, split_by, skip_prefix}
use nodeguard.Template.Export.{
  Export, Item, Trigger, DiscoveryRule, each, walk_items, walk_triggers, discovery_rules,
  item_prototypes, trigger_prototypes,
}
use nodeguard.Template.Checker.{
  Checker, Removed, Kind, item, trigger, discovery_rule, item_prototype, trigger_prototype,
  same_kind, kinds, is_in, report, report-failures, sort_set, sort_set-empty_iff, each-empty_iff,
  All-iff, map-empty_iff,
}

-- `present_identifiers`: what the template emits, by kind.
unfoldable pub present_identifiers : Export → Kind → List String
present_identifiers exp item = map (λ (i : Item). i.key) (walk_items exp)
present_identifiers exp trigger = map (λ (t : Trigger). t.name) (walk_triggers exp)
present_identifiers exp discovery_rule = map (λ (d : DiscoveryRule). d.key) (discovery_rules exp)
present_identifiers exp item_prototype = map (λ p. p.0) (item_prototypes (λ p. p.uuid) exp)
present_identifiers exp trigger_prototype = map (λ p. p.0) (trigger_prototypes (λ t. t.uuid) exp)

-- `xs & ys`
unfoldable pub both : List String → List String → List String
both [] ys = []
both (x ∷ xs) ys = let rest = both xs ys in if is_in x ys then x ∷ rest else rest

-- The sanctioned identifiers of a kind that are still emitted.
unfoldable pub stale_of : Removed → Export → String × Kind → List String
unfolding both
stale_of removed exp (name, kind) =
    map (λ i. name <> " " <> i) (sort_set (both (removed kind) (present_identifiers exp kind)))

unfoldable pub check_sanctions : Checker → Export → Removed → Checker
check_sanctions c exp removed = report "stale-sanction" (each (stale_of removed exp) kinds) c

-- What a line of removed-objects.txt says.
pub data Sanction : Type 0 where
  nothing : Sanction
  malformed : Sanction
  unknown_kind : String → Sanction
  removal : Kind → String → Sanction

-- `kind in REMOVED_KINDS`
unfoldable pub kind_of : String → Option Kind
kind_of name = find kinds
  where
    find : List (String × Kind) → Option Kind
    find [] = none
    find ((n, k) ∷ ks) = let rest = find ks in if str_eq n name then some k else rest

unfoldable pub entry_of : List String → Sanction
entry_of (kind ∷ ident ∷ reason ∷ date ∷ []) =
    if str_eq (strip kind) ""
      || str_eq (strip ident) ""
      || str_eq (strip reason) ""
      || str_eq (strip date) ""
    then malformed
    else elim (kind_of (strip kind)) [
      | none ↦ unknown_kind (strip kind)
      | some k ↦ removal k (strip ident)
    ]
entry_of _ = malformed

-- Blank lines and comments are skipped; an entry has four fields, and none is blank.
unfoldable pub read_line : String → Sanction
read_line raw =
    let line = strip raw in
    if str_eq line "" then nothing else elim (skip_prefix "#" line) [
      | some _ ↦ nothing
      | none ↦ entry_of (split_by (λ c. c == 124) line)
    ]

-- `removed[kind].add(ident)`
unfoldable pub add_removal : Kind → String → Removed → Removed
add_removal kind ident removed k = if same_kind k kind then ident ∷ removed k else removed k

-- The loop over the lines; `none` is the exit with code 2.
unfoldable pub load_lines : List String → Removed → Option Removed
load_lines [] removed = some removed
load_lines (raw ∷ ls) removed = elim (read_line raw) [
  | nothing ↦ load_lines ls removed
  | malformed ↦ none
  | unknown_kind _ ↦ none
  | removal kind ident ↦ load_lines ls (add_removal kind ident removed)
]

-- `load_removed`, on the lines of the file if there is one.
unfoldable pub load_removed : Option (List String) → Option Removed
unfolding load_lines
load_removed none = some (λ k. [])
load_removed (some ls) = load_lines ls (λ k. [])

both-empty_iff : (xs ys : List String) → (both xs ys ≡ []) ↔ All (λ x. is_in x ys ≡ false) xs
unfolding both
both-empty_iff [] ys = ground arith
both-empty_iff (x ∷ xs) ys =
    let rest = both-empty_iff xs ys in
    elim (Bool-cases (is_in x ys)) [
      | inl y ↦ rw y (λ e. ground (arith, e), λ e. ground (arith, e.0))
      | inr n ↦ rw n (λ e. (refl, rest.0 e), λ e. rest.1 e.1)
    ]

-- No sanctioned identifier of the kind is emitted.
abbrev pub Retired : Removed → Export → String × Kind → Type 0
Retired removed exp k = All (λ x. is_in x (present_identifiers exp k.1) ≡ false) (removed k.1)

stale_iff :
    (removed : Removed) (exp : Export) (k : String × Kind)
    → (stale_of removed exp k ≡ []) ↔ Retired removed exp k
unfolding stale_of
stale_iff removed exp (name, kind) =
    let found = both (removed kind) (present_identifiers exp kind) in
    let shown = map-empty_iff (λ i. name <> " " <> i) (sort_set found) in
    let sorted = sort_set-empty_iff found in
    let none_left = both-empty_iff (removed kind) (present_identifiers exp kind) in
    (λ e. none_left.0 (sorted.0 (shown.0 e)), λ e. shown.1 (sorted.1 (none_left.1 e)))

pub check_sanctions_iff :
    (c : Checker) (exp : Export) (removed : Removed)
    → ((check_sanctions c exp removed).failures ≡ 0)
      ↔ ((c.failures ≡ 0) × All (Retired removed exp) kinds)
unfolding check_sanctions
check_sanctions_iff c exp removed =
    let r = report-failures "stale-sanction" (each (stale_of removed exp) kinds) c in
    let none_stale = each-empty_iff (stale_of removed exp) kinds in
    let retired = All-iff (stale_iff removed exp) kinds in
    (
      λ e. let (z, n) = r.0 e in (z, retired.0 (none_stale.0 n)),
      λ e. r.1 (e.0, none_stale.1 (retired.1 e.1)),
    )
