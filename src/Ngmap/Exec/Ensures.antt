-- ===== src/Ngmap/Exec/Ensures.antt =====
-- Postconditions of operations that return.
use mathlib.Core.Path.{subst}
use nodeguard.Prelude.{◌≡◌, refl, Bool, true, false, Option, none, some, if◌then◌else◌}
use nodeguard.Ngmap.Exec.{Exec, ok, Error, pure, raise, or_raise, ◌>>=◌}
use nodeguard.Ngmap.Exec.Inversion.{>>=-eq-ok}

pub record Ensures {W A : Type 0} (Q : A → Type 0) (m : Exec W A) : Type 0 where
  pub at : (w : W) (a : A) → (m w).0 ≡ ok a → Q a

result_inj : {A : Type 0} {a b : A} → ok a ≡ ok b → a ≡ b
result_inj h = cc

module _ {W A : Type 0} {Q : A → Type 0} where
  pub Ensures-pure : (a : A) → Q a → Ensures {W = W} Q (pure a)
  unfolding pure
  Ensures-pure a q = record { at = λ w b h. subst Q (result_inj h) q }

  pub Ensures-raise : (e : Error) → Ensures {W = W} Q (raise e)
  unfolding raise
  Ensures-raise e = record { at = λ w b h. cc }

  pub Ensures-or_raise :
      (e : Error) (o : Option A) → ((a : A) → o ≡ some a → Q a) → Ensures {W = W} Q (or_raise e o)
  unfolding or_raise
  Ensures-or_raise e none q = record { at = λ w b h. cc }
  Ensures-or_raise e (some a) q = record { at = λ w b h. q b (cc) }

  pub Ensures-if :
      (b : Bool) (m n : Exec W A)
      → (b ≡ true → Ensures Q m)
      → (b ≡ false → Ensures Q n)
      → Ensures Q (if b then m else n)
  Ensures-if true m n hm hn = hm refl
  Ensures-if false m n hm hn = hn refl

module _ {W A B : Type 0} {P : A → Type 0} {Q : B → Type 0} where
  pub Ensures-bind :
      (m : Exec W A) (f : A → Exec W B)
      → Ensures P m
      → ((a : A) → P a → Ensures Q (f a))
      → Ensures Q (m >>= f)
  Ensures-bind m f hm hf = record {
    at = λ w b h.
        let o = >>=-eq-ok m f b w h in (hf o.value (hm.at w o.value o.first)).at (m w).1 b o.second;
  }

module _ {W A B : Type 0} {Q : B → Type 0} where
  -- nothing is known of the first part's result
  pub Ensures-then :
      (m : Exec W A) (f : A → Exec W B) → ((a : A) → Ensures Q (f a)) → Ensures Q (m >>= f)
  Ensures-then m f hf = record {
    at = λ w b h. let o = >>=-eq-ok m f b w h in (hf o.value).at (m w).1 b o.second;
  }

pub ruleset ensures_rules =
    (Ensures-pure, Ensures-raise, Ensures-or_raise, Ensures-if, Ensures-bind, Ensures-then)
