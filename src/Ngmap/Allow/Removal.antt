-- ===== src/Ngmap/Allow/Removal.antt =====
-- The removal loop of `cmd_reconcile_allow` of bin/ngmap.py.
use Prim.Native.String.{◌++◌ as ◌<>◌}
use mathlib.Core.Path.{subst}
use nodeguard.Prelude.{
  ℕ, ◌+◌, ◌≡◌, ◌≢◌, refl, sym, ap, ◌∙◌, ◌⊎◌, inl, inr, String, Bool, true, false, Option, none,
  List, [], ◌∷◌, if◌then◌else◌, All, Bool-cases, arith, strs_eq, strs_eq_iff,
}
use nodeguard.Ngmap.Pack.{Bytes, IsBytes}
use nodeguard.Ngmap.Hex.{bytes_to_args, bytes_to_args-injective}
use nodeguard.Ngmap.Exec.{Exec, ok, pure, attempt, ◌>>◌}
use nodeguard.Ngmap.Exec.Inversion.{>>=-eq-ok}
use nodeguard.Ngmap.Exec.Respects.{Respects, Respects-bind, Respects-pure}
use nodeguard.Ngmap.Host.{
  Host, Laws, map_delete, command_line, Outcome, done, failed, timed_out, not_executable,
}
use nodeguard.Ngmap.Maps.{key_gone, bpftool, delete_key, not_deleted}
use nodeguard.Ngmap.Maps.Writes.{kept_at, delete_key-keeps}
use nodeguard.Ngmap.Allow.{Tags, has_key, remove_each}

-- A deletion that fails because there is no such entry, of a map that is pinned.
pub record GoneLaw (h : Host) (holds : h.World → String → List String → Option (List String))
    : Type 0 where
  pub already_gone :
      (w : h.World) (p : String) (k : List String) {message : String}
      → (h.run (map_delete p k) w).0 ≡ failed message
      → key_gone (command_line (map_delete p k) <> ": " <> message) ≡ true
      → h.path_exists (h.run (map_delete p k) w).1 p ≡ true
      → holds (h.run (map_delete p k) w).1 p k ≡ none
  -- The binary can be executed. `delete_key` takes the error of a missing binary for a key that is gone.
  pub deletion_runs :
      (w : h.World) (p : String) (k : List String) (text : String)
      → (h.run (map_delete p k) w).0 ≢ not_executable text
  -- The text of a timeout is not taken for that of an entry that is gone.
  pub timeout_text :
      (w : h.World) (p : String) (k : List String) (limit : String)
      → (h.run (map_delete p k) w).0 ≡ timed_out limit
      → key_gone (command_line (map_delete p k) <> ": no answer in " <> limit <> "s") ≡ false

-- One of the entries has the key.
abbrev pub HasEntry : Bytes → List (Bytes × Option ℕ) → Type 0
HasEntry k [] = ⊥
HasEntry k (c ∷ current) = (c.0 ≡ k) ⊎ HasEntry k current

pub true-false : true ≢ false
true-false e = cc

module _ (h : Host) (holds : h.World → String → List String → Option (List String))
    (laws : Laws h holds) (gone : GoneLaw h holds) (p : String) (want : Tags) where
  -- A deletion that returns has left no entry.
  delete_key-none :
      (k : Bytes) (w : h.World) (b : Bool)
      → (delete_key h p k w).0 ≡ ok b
      → holds (delete_key h p k w).1 p (bytes_to_args k) ≡ none
  unfolding delete_key attempt bpftool not_deleted pure
  delete_key-none k w b e = go (h.run (map_delete p (bytes_to_args k)) w).0 refl
    where
      go :
          (o : Outcome)
          → (h.run (map_delete p (bytes_to_args k)) w).0 ≡ o
          → holds (delete_key h p k w).1 p (bytes_to_args k) ≡ none
      go (done y) eo = ground (arith, laws.delete_done w p (bytes_to_args k) {r = y} eo)
      go (failed m) eo = ground (arith, gone.already_gone w p (bytes_to_args k) {message = m} eo)
      go (timed_out limit) eo =
          absurd (ground (arith, gone.timeout_text w p (bytes_to_args k) limit eo))
      go (not_executable text) eo = absurd (gone.deletion_runs w p (bytes_to_args k) text eo)
      go _ eo = absurd (ground arith)

  remove_key : Bytes → Exec h.World ℕ
  remove_key j = if has_key j want then pure 0 else (delete_key h p j >> pure 1)

  remove_key-keeps :
      (j : Bytes) (k : List String)
      → (has_key j want ≡ false → bytes_to_args j ≢ k)
      → Respects (kept_at h holds p k) (remove_key j)
  unfolding remove_key
  remove_key-keeps j k ne = by_test (has_key j want) refl
    where
      by_test :
          (b : Bool)
          → has_key j want ≡ b
          → Respects {A = ℕ}
              (kept_at h holds p k)
              (if b then pure 0 else (delete_key h p j >> pure 1))
      by_test true e = Respects-pure 0
      by_test false e =
          Respects-bind _ _ (delete_key-keeps h holds laws p j p k (inr (ne e)))
            (λ u. Respects-pure 1)

  -- The removals leave a wanted key.
  pub remove_each-keeps :
      (k : Bytes) (current : List (Bytes × Option ℕ))
      → IsBytes k
      → has_key k want ≡ true
      → All (λ (c : Bytes × Option ℕ). IsBytes c.0) current
      → Respects (kept_at h holds p (bytes_to_args k)) (remove_each h p want current)
  unfolding remove_each remove_key
  remove_each-keeps k [] hk wanted bs = Respects-pure 0
  remove_each-keeps k ((j, b) ∷ current) hk wanted bs =
      Respects-bind _ _ (remove_key-keeps j (bytes_to_args k) apart) λ here.
        Respects-bind _ _ (remove_each-keeps k current hk wanted bs.1)
          (λ later. Respects-pure (here + later))
    where
      apart : has_key j want ≡ false → bytes_to_args j ≢ bytes_to_args k
      apart unwanted same = true-false (
          sym wanted
          ∙ (ap (λ i. has_key i want) (sym (bytes_to_args-injective j k bs.0 hk same)) ∙ unwanted))

  removed :
      (j : Bytes) (w : h.World) (n : ℕ)
      → ((delete_key h p j >> pure {A = ℕ} 1) w).0 ≡ ok n
      → holds ((delete_key h p j >> pure {A = ℕ} 1) w).1 p (bytes_to_args j) ≡ none
  unfolding pure
  removed j w n e =
      let r = >>=-eq-ok _ _ n w e in
      ap (λ u. holds u p (bytes_to_args j)) r.state ∙ delete_key-none j w r.value r.first

  -- A turn of the loop leaves an unwanted key without an entry, if it had none.
  remove_key-none :
      (j k : Bytes) (w : h.World) (n : ℕ)
      → holds w p (bytes_to_args k) ≡ none
      → (remove_key j w).0 ≡ ok n
      → holds (remove_key j w).1 p (bytes_to_args k) ≡ none
  unfolding remove_key pure
  remove_key-none j k w n before e =
      elim (Bool-cases (strs_eq (bytes_to_args j) (bytes_to_args k))) [
        | inl same ↦ of_same (has_key j want) ((strs_eq_iff _ _).0 same) e
        | inr other ↦
            (remove_key-keeps j (bytes_to_args k)
                (λ _ q. true-false (sym ((strs_eq_iff _ _).1 q) ∙ other))).at
              w
            ∙ before
      ]
    where
      of_same :
          (b : Bool)
          → bytes_to_args j ≡ bytes_to_args k
          → ((if b then pure {A = ℕ} 0 else (delete_key h p j >> pure 1)) w).0 ≡ ok n
          → holds
              ((if b then pure {A = ℕ} 0 else (delete_key h p j >> pure 1)) w).1
              p
              (bytes_to_args k)
            ≡ none
      of_same true same f = before
      of_same false same f = ap (holds _ p) (sym same) ∙ removed j w n f

  -- And of its own key, if it is unwanted.
  remove_key_self :
      (k : Bytes) (w : h.World) (n : ℕ)
      → has_key k want ≡ false
      → (remove_key k w).0 ≡ ok n
      → holds (remove_key k w).1 p (bytes_to_args k) ≡ none
  unfolding remove_key pure
  remove_key_self k w n unwanted e = by_test (has_key k want) unwanted e
    where
      by_test :
          (b : Bool)
          → b ≡ false
          → ((if b then pure {A = ℕ} 0 else (delete_key h p k >> pure 1)) w).0 ≡ ok n
          → holds
              ((if b then pure {A = ℕ} 0 else (delete_key h p k >> pure 1)) w).1
              p
              (bytes_to_args k)
            ≡ none
      by_test true q f = absurd (true-false q)
      by_test false q f = removed k w n f

  -- An unwanted key has no entry after the removals, if it had none before or was among those read.
  pub remove_each-none :
      (k : Bytes) (current : List (Bytes × Option ℕ)) (w : h.World) (n : ℕ)
      → has_key k want ≡ false
      → (holds w p (bytes_to_args k) ≡ none) ⊎ HasEntry k current
      → (remove_each h p want current w).0 ≡ ok n
      → holds (remove_each h p want current w).1 p (bytes_to_args k) ≡ none
  unfolding remove_each remove_key pure
  remove_each-none k [] w n unwanted (inl none_there) e = none_there
  remove_each-none k [] w n unwanted (inr here) e = elim here [ ]
  remove_each-none k ((j, b) ∷ current) w n unwanted before e =
      let r = >>=-eq-ok _ _ n w e in
      let q = >>=-eq-ok _ _ n _ r.second in
      ap (λ u. holds u p (bytes_to_args k)) (r.state ∙ q.state)
      ∙ remove_each-none k current _ q.value unwanted (next before r.value r.first) q.first
    where
      next :
          (holds w p (bytes_to_args k) ≡ none) ⊎ ((j ≡ k) ⊎ HasEntry k current)
          → (m : ℕ) → (remove_key j w).0 ≡ ok m
          → (holds (remove_key j w).1 p (bytes_to_args k) ≡ none) ⊎ HasEntry k current
      next (inl none_there) m f = inl (remove_key-none j k w m none_there f)
      next (inr (inl here)) m f = inl (
          subst
            (λ i. (remove_key i w).0 ≡ ok m → holds (remove_key i w).1 p (bytes_to_args k) ≡ none)
            (sym here) (remove_key_self k w m unwanted) f)
      next (inr (inr later)) m f = inr later
