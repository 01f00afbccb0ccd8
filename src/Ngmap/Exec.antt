-- ===== src/Ngmap/Exec.antt =====
-- How an operation of bin/ngmap.py ends, and the sequencing of operations on the host's state.
pub mod Inversion
pub mod Ensures
pub mod Respects
use nodeguard.Prelude.{ℕ, String, ◌≡◌, refl, Bool, true, false, Option, none, some, List, [], ◌∷◌}
use nodeguard.Net.{Network}
use nodeguard.Ngmap.Protect.{Reason}

-- What a call of `die` reports, one constructor for each call.
pub data Refusal : Type 0 where
  not_an_ip : String → Refusal
  prefix_too_short permanent_unconfirmed ttl_not_positive : Refusal
  protected_target : Reason → Refusal
  contains_range : Network → Refusal
  expiry_past_u64 already_permanent : Refusal
  slot_not_found slot_out_of_range value_out_of_range port_out_of_range : Refusal
  allow_check_failed spec_empty : Refusal
  spec_mismatch : String → Refusal
  canary_allowed : Network → Refusal
  allow_file_missing : String → Refusal
  caught : String → Refusal

-- The `code` that each call of `die` passes.
abbrev pub exit_code : Refusal → ℕ
exit_code allow_check_failed = 3
exit_code (spec_mismatch _) = 2
exit_code (canary_allowed _) = 2
exit_code _ = 1

-- Python's exceptions. `timeout` is `BpftoolTimeout`, a subclass of RuntimeError.
pub data Error : Type 0 where
  runtime timeout : String → Error
  value_error type_error key_error index_error os_error struct_error : Error
  system_exit : Refusal → Error

pub data Result {ℓ} (A : Type ℓ) : Type ℓ where
  ok : A → Result A
  raised : Error → Result A

-- The state comes back beside an exception too: what was written stays written.
abbrev pub Exec : Type 0 → Type 0 → Type 0
Exec W A = W → Result A × W

module _ {W A : Type 0} where
  unfoldable pub pure : A → Exec W A
  pure a w = (ok a, w)

  unfoldable pub raise : Error → Exec W A
  raise e w = (raised e, w)

  unfoldable pub die : Refusal → Exec W A
  die r w = (raised (system_exit r), w)

  -- A failure of the standard library, `none`, raises.
  unfoldable pub or_raise : Error → Option A → Exec W A
  or_raise e none w = (raised e, w)
  or_raise e (some a) w = (ok a, w)

module _ {W A B : Type 0} where
  infixl 5 ◌>>=◌ ◌>>◌
  -- Opening this opens `pure`, `raise`, `die` and `or_raise` too.
  unfoldable pub ◌>>=◌ : Exec W A → (A → Exec W B) → Exec W B
  unfolding pure raise die or_raise
  ◌>>=◌ m f w = let (r, w') = m w in elim r [ ok a ↦ f a w' | raised e ↦ (raised e, w') ]

  abbrev pub ◌>>◌ : Exec W A → Exec W B → Exec W B
  m >> k = m >>= λ _. k

module _ {W A B : Type 0} where
  -- `try` round the first part alone: the rest of the function, or the handler.
  unfoldable pub attempt : Exec W A → (A → Exec W B) → (Error → Exec W B) → Exec W B
  attempt m f g w = let (r, w') = m w in elim r [ ok a ↦ f a w' | raised e ↦ g e w' ]

-- `if test: die(...)`
unfoldable pub die_if : {W : Type 0} → Bool → Refusal → Exec W (Unit {0})
die_if true r w = (raised (system_exit r), w)
die_if false r w = (ok tt, w)

-- `[f(x) for x in xs]`
unfoldable pub map_each : {W A B : Type 0} → (A → Exec W B) → List A → Exec W (List B)
map_each f [] = pure []
map_each f (x ∷ xs) = do y ← f x; ys ← map_each f xs; pure (y ∷ ys)
