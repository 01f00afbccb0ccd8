-- ===== src/Ngmap/Allow/Check.antt =====
-- `cmd_allow_check` of bin/ngmap.py: what the exit statuses of `ngmap.py allow-check` mean.
use nodeguard.Prelude.{
  ℕ, ◌≡◌, ◌≢◌, ◌⊎◌, inl, inr, refl, sym, ap, ◌∙◌, Bool, true, false, Option, none, some, List, ◌++◌,
  String, All, All-append, All-split, if◌then◌else◌,
}
use mathlib.Core.Path.{subst}
use nodeguard.Net.{Address, Network}
use nodeguard.Ngmap.Protect.{Reason, never_block, is_protected}
use nodeguard.Ngmap.Protect.Sound.{Avoids, is_protected-none_iff}
use nodeguard.Ngmap.Exec.{
  Result, ok, raised, Error, Refusal, exit_code, runtime, timeout, value_error, os_error,
  system_exit, allow_check_failed, spec_mismatch, canary_allowed, pure, raise, die, or_raise,
  attempt, ◌>>=◌,
}
use nodeguard.Ngmap.Host.{Host}
use nodeguard.Ngmap.Live.{allow_entries_live}
use nodeguard.Ngmap.Allow.{
  Checked, is_caught, checked, exit_status, reason_for, cmd_allow_check, allow_check_status,
}

-- The exceptions that `except (RuntimeError, OSError, ValueError)` lets through.
abbrev pub Escapes : Error → Type 0
Escapes (runtime _) = ⊥
Escapes (timeout _) = ⊥
Escapes value_error = ⊥
Escapes os_error = ⊥
Escapes _ = Unit {0}

-- What the statuses say of the live allow entries, read or not, and of the address, parsed or not.
pub record Means (L : Result (List Network)) (P : Option Address) (status : ℕ) : Type 0 where
  pub protected :
      status ≡ 0
      → (live : List Network) × (addr : Address) × (L ≡ ok live)
        × (P ≡ some addr)
        × ¬ All (Avoids addr) (never_block ++ live)
  pub blockable_or_escaped :
      status ≡ 1
      → ((live : List Network) × (addr : Address) × (L ≡ ok live)
          × (P ≡ some addr)
          × All (Avoids addr) (never_block ++ live))
        ⊎ ((e : Error) × (L ≡ raised e) × Escapes e)
  pub undetermined :
      status ≡ 3 → (live : List Network) (addr : Address) → L ≡ ok live → P ≢ some addr

-- The run of the command, from those two results.
abbrev reading : Result (List Network) → Option Address → Result (Option Reason)
reading (raised e) p = raised e
reading (ok live) none = raised value_error
reading (ok live) (some addr) = ok (is_protected addr live)

abbrev answer : Result (Option Reason) → Result Checked
answer (ok r) = ok (checked r)
answer (raised e) = if is_caught e then raised (system_exit allow_check_failed) else raised e

exit_code-positive : (r : Refusal) → exit_code r ≢ 0
exit_code-positive allow_check_failed e = cc
exit_code-positive (spec_mismatch _) e = cc
exit_code-positive (canary_allowed _) e = cc
exit_code-positive _ e = cc

-- A status of 3, after an exception.
caught : (e : Error) (P : Option Address) → Means (raised e) P 3
caught e P = record {
  protected = λ z. cc;
  blockable_or_escaped = λ z. cc;
  undetermined = λ _ live addr q. cc;
}

Means-raised :
    (e : Error) (P : Option Address) → Means (raised e) P (exit_status (answer (raised e)))
Means-raised (system_exit r) P = record {
  protected = λ z. absurd (exit_code-positive r z);
  blockable_or_escaped = λ _. inr (system_exit r, refl, tt);
  undetermined = λ _ live addr q. cc;
}
Means-raised (runtime m) P = caught (runtime m) P
Means-raised (timeout m) P = caught (timeout m) P
Means-raised value_error P = caught value_error P
Means-raised os_error P = caught os_error P
Means-raised e P = record {
  protected = λ z. cc;
  blockable_or_escaped = λ _. inr (e, refl, tt);
  undetermined = λ z. cc;
}

Means-ok :
    (live : List Network) (addr : Address)
    → Means (ok live) (some addr) (exit_status (answer (ok (is_protected addr live))))
Means-ok live addr = by_reason (is_protected addr live) refl
  where
    sound : All (Avoids addr) (never_block ++ live) → is_protected addr live ≡ none
    sound h = (is_protected-none_iff addr live).1 (All-split (Avoids addr) never_block live h)

    complete : is_protected addr live ≡ none → All (Avoids addr) (never_block ++ live)
    complete e =
        let (outside, unlisted) = (is_protected-none_iff addr live).0 e in
        All-append (Avoids addr) never_block live outside unlisted

    by_reason :
        (o : Option Reason)
        → is_protected addr live ≡ o
        → Means (ok live) (some addr) (exit_status (answer (ok o)))
    by_reason none e = record {
      protected = λ z. cc;
      blockable_or_escaped = λ _. inl (live, addr, refl, refl, complete e);
      undetermined = λ z. cc;
    }
    by_reason (some r) e = record {
      protected = λ _. (live, addr, refl, refl, λ h. absurd (cc (sound h)));
      blockable_or_escaped = λ z. cc;
      undetermined = λ z. cc;
    }

Means-reading :
    (L : Result (List Network)) (P : Option Address)
    → Means L P (exit_status (answer (reading L P)))
Means-reading (raised e) P = Means-raised e P
Means-reading (ok live) none = record {
  protected = λ z. cc;
  blockable_or_escaped = λ z. cc;
  undetermined = λ _ l addr q. cc;
}
Means-reading (ok live) (some addr) = Means-ok live addr

module _ (h : Host) where
  reason_for-eq_reading :
      (target : String) (w : h.World)
      → (reason_for h target w).0 ≡ reading (allow_entries_live h w).0 (h.ip_address target)
  unfolding reason_for ◌>>=◌ or_raise pure
  reason_for-eq_reading target w =
      let (r, w') = allow_entries_live h w in ended r w' (h.ip_address target)
    where
      ended :
          (r : Result (List Network)) (w' : h.World) (p : Option Address)
          → (◌>>=◌ {W = h.World}
              (λ _. (r, w'))
              (λ live. or_raise value_error p >>= λ addr. pure (is_protected addr live))
              w').0
            ≡ reading r p
      ended (ok live) w' none = refl
      ended (ok live) w' (some addr) = refl
      ended (raised e) w' p = refl

  cmd_allow_check-eq_answer :
      (target : String) (w : h.World)
      → (cmd_allow_check h target w).0 ≡ answer (reason_for h target w).0
  unfolding cmd_allow_check attempt pure die raise
  cmd_allow_check-eq_answer target w = let (r, w') = reason_for h target w in ended r w'
    where
      handled :
          (b : Bool) (e : Error) (w' : h.World)
          → ((if b then die {W = h.World} {A = Checked} allow_check_failed else raise e) w').0
            ≡ (if b then raised (system_exit allow_check_failed) else raised e)
      handled true e w' = refl
      handled false e w' = refl

      ended :
          (r : Result (Option Reason)) (w' : h.World)
          → (attempt {W = h.World}
              (λ _. (r, w'))
              (λ o. pure (checked o))
              (λ e. if is_caught e then die allow_check_failed else raise e)
              w').0
            ≡ answer r
      ended (ok o) w' = refl
      ended (raised e) w' = handled (is_caught e) e w'

  -- Where `ngmap.py allow-check` ends with status 0, both allow maps were read, the address was parsed,
  -- and it lies in a never-block range or in a live allow entry. With status 1, either they were read
  -- and it was parsed and lies in none of these, or reading the maps raised an exception that the
  -- command does not catch. With status 3, the maps were not read or the address was not parsed.
  pub allow_check_status-Means :
      (target : String) (w : h.World)
      → Means (allow_entries_live h w).0 (h.ip_address target) (allow_check_status h target w)
  unfolding allow_check_status
  allow_check_status-Means target w =
      subst (λ r. Means (allow_entries_live h w).0 (h.ip_address target) (exit_status r))
        (sym (cmd_allow_check-eq_answer target w ∙ ap answer (reason_for-eq_reading target w)))
        (Means-reading (allow_entries_live h w).0 (h.ip_address target))
