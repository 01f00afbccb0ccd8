-- ===== src/Ngmap/Exec/Respects.antt =====
-- Operations that relate the state before to the state after, whether they return or raise.
use nodeguard.Prelude.{
  ◌≡◌, refl, Bool, true, false, Option, none, some, List, [], ◌∷◌, if◌then◌else◌,
}
use nodeguard.Ngmap.Exec.{
  Exec, Result, ok, raised, Error, Refusal, pure, raise, die, die_if, or_raise, ◌>>=◌, attempt,
  map_each,
}

pub record Order (W : Type 0) : Type 1 where
  pub R : W → W → Type 0
  pub same : (w : W) → R w w
  pub chain : {u v w : W} → R u v → R v w → R u w

pub record Respects {W A : Type 0} (o : Order W) (m : Exec W A) : Type 0 where
  pub at : (w : W) → o.R w (m w).1

module _ {W A : Type 0} {o : Order W} where
  pub Respects-pure : (a : A) → Respects o (pure a)
  unfolding pure
  Respects-pure a = record { at = λ w. o.same w }

  pub Respects-raise : (e : Error) → Respects {A = A} o (raise e)
  unfolding raise
  Respects-raise e = record { at = λ w. o.same w }

  pub Respects-die : (r : Refusal) → Respects {A = A} o (die r)
  unfolding die
  Respects-die r = record { at = λ w. o.same w }

  pub Respects-or_raise : (e : Error) (a : Option A) → Respects o (or_raise e a)
  unfolding or_raise
  Respects-or_raise e none = record { at = λ w. o.same w }
  Respects-or_raise e (some a) = record { at = λ w. o.same w }

  pub Respects-if :
      (b : Bool) (m n : Exec W A) → Respects o m → Respects o n → Respects o (if b then m else n)
  Respects-if true m n hm hn = hm
  Respects-if false m n hm hn = hn

pub Respects-die_if : {W : Type 0} {o : Order W} (b : Bool) (r : Refusal) → Respects o (die_if b r)
unfolding die_if
Respects-die_if {o = o} true r = record { at = λ w. o.same w }
Respects-die_if {o = o} false r = record { at = λ w. o.same w }

module _ {W A B : Type 0} (o : Order W) where
  attempt_rest :
      (f : A → Exec W B) (g : Error → Exec W B) (r : Result A) (w w' : W)
      → o.R w w'
      → ((a : A) → r ≡ ok a → o.R w' (f a w').1)
      → ((e : Error) → r ≡ raised e → o.R w' (g e w').1)
      → o.R w (attempt {W = W} (λ _. (r, w')) f g w).1
  unfolding attempt
  attempt_rest f g (ok a) w w' hw hf hg = o.chain hw (hf a refl)
  attempt_rest f g (raised e) w w' hw hf hg = o.chain hw (hg e refl)

  -- The rest may use how the first part ended, and in which state.
  pub attempt_at :
      (m : Exec W A) (f : A → Exec W B) (g : Error → Exec W B) (w : W)
      → o.R w (m w).1
      → ((a : A) → (m w).0 ≡ ok a → o.R (m w).1 (f a (m w).1).1)
      → ((e : Error) → (m w).0 ≡ raised e → o.R (m w).1 (g e (m w).1).1)
      → o.R w (attempt m f g w).1
  unfolding attempt
  attempt_at m f g w hm hf hg = let (r, w') = m w in attempt_rest f g r w w' hm hf hg

  pub bind_at :
      (m : Exec W A) (f : A → Exec W B) (w : W)
      → o.R w (m w).1
      → ((a : A) → (m w).0 ≡ ok a → o.R (m w).1 (f a (m w).1).1)
      → o.R w ((m >>= f) w).1
  unfolding ◌>>=◌ attempt
  bind_at m f w hm hf = attempt_at m f raise w hm hf (λ e _. o.same (m w).1)

module _ {W A B : Type 0} {o : Order W} where
  pub Respects-attempt :
      (m : Exec W A) (f : A → Exec W B) (g : Error → Exec W B)
      → Respects o m
      → ((a : A) → Respects o (f a))
      → ((e : Error) → Respects o (g e))
      → Respects o (attempt m f g)
  Respects-attempt m f g hm hf hg = record {
    at = λ w. attempt_at o m f g w (hm.at w) (λ a _. (hf a).at (m w).1) (λ e _. (hg e).at (m w).1);
  }

  pub Respects-bind :
      (m : Exec W A) (f : A → Exec W B)
      → Respects o m
      → ((a : A) → Respects o (f a))
      → Respects o (m >>= f)
  Respects-bind m f hm hf = record {
    at = λ w. bind_at o m f w (hm.at w) (λ a _. (hf a).at (m w).1);
  }

module _ {W A B : Type 0} {o : Order W} where
  pub Respects-map_each :
      (f : A → Exec W B) (xs : List A) → ((a : A) → Respects o (f a)) → Respects o (map_each f xs)
  unfolding map_each
  Respects-map_each f [] hf = Respects-pure []
  Respects-map_each f (x ∷ xs) hf =
      Respects-bind _ _ (hf x)
        λ y. Respects-bind _ _ (Respects-map_each f xs hf) λ ys. Respects-pure _

pub ruleset respects_rules = (
  Respects-pure, Respects-raise, Respects-die, Respects-or_raise, Respects-if, Respects-die_if,
  Respects-bind, Respects-attempt, Respects-map_each,
)
