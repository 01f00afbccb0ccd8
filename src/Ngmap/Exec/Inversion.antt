-- ===== src/Ngmap/Exec/Inversion.antt =====
-- Taking a successful run of a `do` block apart.
use nodeguard.Prelude.{◌≡◌, refl, Bool, true, false, Option, none, some}
use nodeguard.Ngmap.Exec.{Exec, Result, ok, raised, Error, Refusal, die_if, or_raise, ◌>>=◌}

-- What a bind that returned consists of: the first part's result and state, and the rest's.
pub record Bound {W A B : Type 0} (m : Exec W A) (f : A → Exec W B) (b : B) (w : W) : Type 0 where
  pub value : A
  pub first : (m w).0 ≡ ok value
  pub second : (f value (m w).1).0 ≡ ok b
  pub state : ((m >>= f) w).1 ≡ (f value (m w).1).1

module _ {W A B : Type 0} where
  Bound-at :
      (r : Result A) (w' : W) (f : A → Exec W B) (b : B)
      → (◌>>=◌ {W = W} (λ _. (r, w')) f w').0 ≡ ok b
      → Bound {W = W} (λ _. (r, w')) f b w'
  unfolding ◌>>=◌
  Bound-at (ok a) w' f b h = record { value = a; first = refl; second = h; state = refl }
  Bound-at (raised e) w' f b h = cc

  pub >>=-eq-ok :
      (m : Exec W A) (f : A → Exec W B) (b : B) (w : W) → ((m >>= f) w).0 ≡ ok b → Bound m f b w
  unfolding ◌>>=◌
  >>=-eq-ok m f b w h =
      let (r, w') = m w in
      let o = Bound-at r w' f b h in
      record { value = o.value; first = o.first; second = o.second; state = o.state }

module _ {W A B : Type 0} where
  bind-state_at :
      (r : Result A) (w' : W) (f : A → Exec W B) (a : A)
      → r ≡ ok a
      → (◌>>=◌ {W = W} (λ _. (r, w')) f w').1 ≡ (f a w').1
  unfolding ◌>>=◌
  bind-state_at (ok b) w' f a e = cc
  bind-state_at (raised x) w' f a e = cc

  -- Where the first part returns, the state at the end is that of the rest.
  pub bind-state :
      (m : Exec W A) (f : A → Exec W B) (w : W) (a : A)
      → (m w).0 ≡ ok a
      → ((m >>= f) w).1 ≡ (f a (m w).1).1
  unfolding ◌>>=◌
  bind-state m f w a e = bind-state_at (m w).0 (m w).1 f a e

pub die_if-ok :
    {W : Type 0} (b : Bool) (r : Refusal) (w : W) {u : Unit {0}}
    → (die_if b r w).0 ≡ ok u
    → b ≡ false
unfolding die_if
die_if-ok true r w h = cc
die_if-ok false r w h = refl

module _ {W A : Type 0} where
  pub or_raise-state : (x : Error) (o : Option A) (w : W) → (or_raise x o w).1 ≡ w
  unfolding or_raise
  or_raise-state x none w = refl
  or_raise-state x (some a) w = refl

  pub or_raise-some :
      (x : Error) (o : Option A) (w : W) (a : A) → (or_raise x o w).0 ≡ ok a → o ≡ some a
  unfolding or_raise
  or_raise-some x none w a e = cc
  or_raise-some x (some b) w a e = cc
