-- ===== src/Template/Checker.antt =====
-- The tally of zbx/check_template.py, its sanctioned removals, and Python's sets and dicts of texts.
use Prim.Native.String.{compare}
use Prim.Native.Nat.{Ordering}
use nodeguard.Prelude.{
  ℕ, ◌+◌, ◌≡◌, ◌≢◌, ◌↔◌, String, Bool, true, false, List, [], ◌∷◌, str_eq, any, ◌++◌, map, arith,
  All,
}
use nodeguard.Prelude.Dict.{Dict, insert}
use nodeguard.Template.Export.{Pairs, each}

-- REMOVED_KINDS
pub data Kind : Type 0 where
  discovery_rule item item_prototype trigger trigger_prototype : Kind

-- A printed line: its label, and what the text after it lists.
pub data Line : Type 0 where
  pass : String → List String → Line
  fail : String → List String → Line

pub record Checker : Type 0 where
  pub failures : ℕ
  pub lines : List Line

-- `Checker()`
abbrev pub new_checker : Checker
new_checker = record { failures = 0; lines = [] }

-- `k1 == k2`
abbrev pub same_kind : Kind → Kind → Bool
same_kind discovery_rule discovery_rule = true
same_kind item item = true
same_kind item_prototype item_prototype = true
same_kind trigger trigger = true
same_kind trigger_prototype trigger_prototype = true
same_kind _ _ = false

-- The kinds in the order of their names, with them.
abbrev pub kinds : List (String × Kind)
kinds =
    ("discovery_rule", discovery_rule)
    ∷ ("item", item)
    ∷ ("item_prototype", item_prototype)
    ∷ ("trigger", trigger)
    ∷ ("trigger_prototype", trigger_prototype)
    ∷ []

-- The last line printed comes first.
unfoldable pub ok : String → List String → Checker → Checker
ok label listed c = record c { lines = pass label listed ∷ c.lines }

unfoldable pub failed : String → List String → Checker → Checker
failed label listed c = record { failures = c.failures + 1; lines = fail label listed ∷ c.lines }

-- `if problems: c.fail(...) else: c.ok(...)`
unfoldable pub report : String → List String → Checker → Checker
unfolding ok failed
report label [] c = ok label [] c
report label (p ∷ ps) c = failed label (p ∷ ps) c

pub report-failures :
    (label : String) (ps : List String) (c : Checker)
    → ((report label ps c).failures ≡ 0) ↔ ((c.failures ≡ 0) × (ps ≡ []))
unfolding report ok failed
report-failures label [] c = ground arith
report-failures label (p ∷ ps) c = ground arith

-- `removed[kind]`, as a list of the identifiers.
abbrev pub Removed : Type 0
Removed = Kind → List String

-- `x in xs`
abbrev pub is_in : String → List String → Bool
is_in x = any (λ y. str_eq y x)

unfoldable pub insert_all : Pairs → Dict String → Dict String
insert_all [] d = d
insert_all ((k, v) ∷ ps) d = insert_all ps (insert k v d)

-- `dict(pairs)`: of two pairs with one key the later counts.
unfoldable pub dict_of : Pairs → Dict String
unfolding insert_all
dict_of ps = insert_all ps []

unfoldable pub insert_text : String → List String → List String
insert_text x [] = x ∷ []
insert_text x (y ∷ ys) =
    let rest = insert_text x ys in
    elim (compare x y) [ Ordering.lt ↦ x ∷ y ∷ ys | Ordering.eq ↦ y ∷ ys | Ordering.gt ↦ y ∷ rest ]

-- `sorted(set(xs))`
unfoldable pub sort_set : List String → List String
unfolding insert_text
sort_set [] = []
sort_set (x ∷ xs) = insert_text x (sort_set xs)

insert_text-nonempty : (x : String) (ys : List String) → insert_text x ys ≢ []
unfolding insert_text
insert_text-nonempty x [] = ground arith
insert_text-nonempty x (y ∷ ys) = ground arith

pub sort_set-empty_iff : (xs : List String) → (sort_set xs ≡ []) ↔ (xs ≡ [])
unfolding sort_set
sort_set-empty_iff [] = ground arith
sort_set-empty_iff (x ∷ xs) = ground (arith, insert_text-nonempty x (sort_set xs))

append_nil_iff : (xs ys : List String) → (xs ++ ys ≡ []) ↔ ((xs ≡ []) × (ys ≡ []))
append_nil_iff [] ys = ground arith
append_nil_iff (x ∷ xs) ys = ground arith

pub append_iff {ℓ m} :
    {P : Type ℓ} {Q : Type m} (xs ys : List String)
    → (xs ≡ []) ↔ P
    → (ys ≡ []) ↔ Q
    → (xs ++ ys ≡ []) ↔ (P × Q)
append_iff xs ys p q =
    let a = append_nil_iff xs ys in
    (λ e. let (x, y) = a.0 e in (p.0 x, q.0 y), λ e. a.1 (p.1 e.0, q.1 e.1))

pub each-empty_iff {ℓ} :
    {A : Type ℓ} (f : A → List String) (xs : List A) → (each f xs ≡ []) ↔ All (λ x. f x ≡ []) xs
unfolding each
each-empty_iff f [] = ground arith
each-empty_iff f (x ∷ xs) = append_iff (f x) (each f xs) (λ e. e, λ e. e) (each-empty_iff f xs)

pub All-iff {ℓ m n} :
    {A : Type ℓ} {P : A → Type m} {Q : A → Type n} (f : (x : A) → P x ↔ Q x) (xs : List A)
    → All P xs ↔ All Q xs
All-iff f [] = (λ _. tt, λ _. tt)
All-iff f (x ∷ xs) =
    let rest = All-iff f xs in (λ e. ((f x).0 e.0, rest.0 e.1), λ e. ((f x).1 e.0, rest.1 e.1))

pub map-empty_iff {ℓ} : {A : Type ℓ} (f : A → String) (xs : List A) → (map f xs ≡ []) ↔ (xs ≡ [])
map-empty_iff f [] = ground arith
map-empty_iff f (x ∷ xs) = (λ e. ground (arith, e), λ e. ground (arith, e))
