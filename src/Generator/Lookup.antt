-- ===== src/Generator/Lookup.antt =====
-- What a look-up in a dict of pairs, as the uuid maps of zbx/gen-template.py are, can give.
use mathlib.Core.Path.{subst}
use nodeguard.Prelude.{
  ◌≡◌, inl, inr, String, true, some, List, [], ◌∷◌, map, str_eq, str_eq_iff, arith, All, All-append,
  All-split, Bool-cases,
}
use nodeguard.Prelude.Dict.{Dict, lookup, insert, has, lookup-insert}
use nodeguard.Template.Export.{Pairs, each}
use nodeguard.Template.Checker.{dict_of, insert_all}

module _ {ℓ m k} {A : Type ℓ} {B : Type m} (P : B → Type k) where
  pub All-of_map : (f : A → B) (xs : List A) → All (λ x. P (f x)) xs → All P (map f xs)
  All-of_map f [] h = tt
  All-of_map f (x ∷ xs) h = (h.0, All-of_map f xs h.1)

  pub All-in_map : (f : A → B) (xs : List A) → All P (map f xs) → All (λ x. P (f x)) xs
  All-in_map f [] h = tt
  All-in_map f (x ∷ xs) h = (h.0, All-in_map f xs h.1)

  pub All-of_each : (f : A → List B) (xs : List A) → All (λ x. All P (f x)) xs → All P (each f xs)
  unfolding each
  All-of_each f [] h = tt
  All-of_each f (x ∷ xs) h = All-append P (f x) (each f xs) h.0 (All-of_each f xs h.1)

module _ {ℓ m} {A : Type ℓ} (P : A → Type m) where
  pub All-always : (f : (x : A) → P x) (xs : List A) → All P xs
  All-always f [] = tt
  All-always f (x ∷ xs) = (f x, All-always f xs)

module _ {ℓ m k} {A : Type ℓ} {B : Type m} (P : B → Type k) where
  pub All-in_each : (f : A → List B) (xs : List A) → All P (each f xs) → All (λ x. All P (f x)) xs
  unfolding each
  All-in_each f [] h = tt
  All-in_each f (x ∷ xs) h = let (a, b) = All-split P (f x) (each f xs) h in (a, All-in_each f xs b)

pub All-zip {ℓ m n} :
    {A : Type ℓ} (P : A → Type m) (Q : A → Type n) (xs : List A)
    → All P xs
    → All Q xs
    → All (λ x. P x × Q x) xs
All-zip P Q [] p q = tt
All-zip P Q (x ∷ xs) p q = ((p.0, q.0), All-zip P Q xs p.1 q.1)

-- A look-up gives what every pair has, and finds every key of a pair.
module _ (R : String → String → Type 0) where
  insert_all-lookup :
      (ps : Pairs) (d : Dict String)
      → All (λ p. R p.0 p.1) ps
      → ((k w : String) → lookup k d ≡ some w → R k w)
      → (k w : String) → lookup k (insert_all ps d) ≡ some w
      → R k w
  unfolding insert_all
  insert_all-lookup [] d h hd = hd
  insert_all-lookup ((i, v) ∷ ps) d h hd = insert_all-lookup ps (insert i v d) h.1 (λ k w e.
      elim (Bool-cases (str_eq i k)) [
        | inl y ↦
            let val : v ≡ w = ground (arith, lookup-insert i k v d, y, e) in
            subst (λ a. R a w) ((str_eq_iff i k).0 y) (subst (λ b. R i b) val h.0)
        | inr n ↦ hd k w (ground (arith, lookup-insert i k v d, n, e))
      ])

  pub dict_of-lookup :
      (ps : Pairs)
      → All (λ p. R p.0 p.1) ps
      → (k w : String) → lookup k (dict_of ps) ≡ some w
      → R k w
  unfolding dict_of lookup
  dict_of-lookup ps h = insert_all-lookup ps [] h (λ k w e. ground (arith, e))

insert_all-has :
    (ps : Pairs) (d : Dict String) (k : String) → has k d ≡ true → has k (insert_all ps d) ≡ true
unfolding insert_all
insert_all-has [] d k h = h
insert_all-has ((i, v) ∷ ps) d k h =
    insert_all-has ps (insert i v d) k (ground (arith, lookup-insert i k v d, h))

insert_all-keys : (ps : Pairs) (d : Dict String) → All (λ p. has p.0 (insert_all ps d) ≡ true) ps
unfolding insert_all
insert_all-keys [] d = tt
insert_all-keys ((i, v) ∷ ps) d = (
  insert_all-has ps (insert i v d) i (ground (arith, lookup-insert i i v d, str_eq_iff i i)),
  insert_all-keys ps (insert i v d),
)

pub dict_of-keys : (ps : Pairs) → All (λ p. has p.0 (dict_of ps) ≡ true) ps
unfolding dict_of
dict_of-keys ps = insert_all-keys ps []
