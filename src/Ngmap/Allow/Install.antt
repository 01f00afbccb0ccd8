-- ===== src/Ngmap/Allow/Install.antt =====
-- The two loops of `cmd_reconcile_allow` of bin/ngmap.py on one allow map, against what the map holds.
use mathlib.Core.Path.{subst}
use nodeguard.Prelude.{
  ℕ, ◌+◌, ◌≡◌, ◌≢◌, refl, sym, ap, ◌∙◌, ◌⊎◌, inl, inr, String, Bool, true, false, Option, none,
  some, List, [], ◌∷◌, if◌then◌else◌, All, arith,
}
use nodeguard.Ngmap.Pack.{Bytes, IsBytes}
use nodeguard.Ngmap.Hex.{bytes_to_args, args_to_bytes, args_to_bytes-bytes_to_args}
use nodeguard.Ngmap.Exec.{Exec, ok, pure, ◌>>◌}
use nodeguard.Ngmap.Exec.Inversion.{>>=-eq-ok}
use nodeguard.Ngmap.Exec.Respects.{Respects, Respects-bind, Respects-pure, Respects-if}
use nodeguard.Ngmap.Host.{Host, Laws}
use nodeguard.Ngmap.Maps.{update_map}
use nodeguard.Ngmap.Maps.Writes.{kept_at, update_map-holds, update_map-keeps}
use nodeguard.Ngmap.Allow.{bytes_eq, Tags, same_tag, has_tag, update_each}

pub bytes_eq-true : (a b : Bytes) → bytes_eq a b ≡ true → a ≡ b
bytes_eq-true [] [] e = refl
bytes_eq-true [] (y ∷ b) e = absurd (cc)
bytes_eq-true (x ∷ a) [] e = absurd (cc)
bytes_eq-true (x ∷ a) (y ∷ b) e = ground (arith, e, bytes_eq-true a b)

pub bytes_eq_refl : (a : Bytes) → bytes_eq a a ≡ true
bytes_eq_refl [] = refl
bytes_eq_refl (x ∷ a) = ground (arith, bytes_eq_refl a)

same_tag-true : (t : ℕ) (b : Option ℕ) → same_tag t b ≡ true → b ≡ some t
same_tag-true t none e = absurd (cc)
same_tag-true t (some u) e = ground (arith, e)

chosen : (c x y : Bool) → (if c then x else y) ≡ true → ((c ≡ true) × (x ≡ true)) ⊎ (y ≡ true)
chosen true x y e = inl (refl, e)
chosen false x y e = inr e

-- What a map holds under a key begins with a tag.
abbrev pub Begins : Option (List String) → ℕ → Type 0
Begins held t =
    (ts : List String) × (rest : Bytes) × (held ≡ some ts) × (args_to_bytes ts ≡ some (t ∷ rest))

-- The keys to write are byte strings and stand once; the tags are bytes.
abbrev pub Writable : Tags → Type 0
Writable [] = Unit
Writable ((k, t) ∷ want) =
    IsBytes k
    × IsBytes (t ∷ [])
    × All (λ (x : Bytes × ℕ). bytes_to_args x.0 ≢ bytes_to_args k) want
    × Writable want

module _ (h : Host) (holds : h.World → String → List String → Option (List String))
    (laws : Laws h holds) (p : String) where
  abbrev pub Tagged : h.World → Bytes → ℕ → Type 0
  Tagged w k t = Begins (holds w p (bytes_to_args k)) t

  -- What was read of a key is what the map holds.
  abbrev pub IsRead : h.World → Bytes × Option ℕ → Type 0
  IsRead w c = IsBytes c.0 × ((t : ℕ) → c.1 ≡ some t → Tagged w c.0 t)

  pub has_tag-Tagged :
      (w : h.World) (k : Bytes) (t : ℕ) (current : List (Bytes × Option ℕ))
      → All (IsRead w) current
      → has_tag k t current ≡ true
      → Tagged w k t
  unfolding has_tag
  has_tag-Tagged w k t [] a e = absurd (cc)
  has_tag-Tagged w k t ((j, b) ∷ current) a e =
      elim (chosen (bytes_eq j k) (same_tag t b) (has_tag k t current) e) [
        | inl (here, tagged) ↦
            subst (λ i. Tagged w i t) (bytes_eq-true j k here) (a.0.1 t (same_tag-true t b tagged))
        | inr later ↦ has_tag-Tagged w k t current a.1 later
      ]

  -- An update of other keys leaves a key.
  pub update_each-keeps :
      (k : Bytes) (current : List (Bytes × Option ℕ)) (want : Tags)
      → All (λ (x : Bytes × ℕ). bytes_to_args x.0 ≢ bytes_to_args k) want
      → Respects (kept_at h holds p (bytes_to_args k)) (update_each h p current want)
  unfolding update_each
  update_each-keeps k current [] a = Respects-pure 0
  update_each-keeps k current ((j, t) ∷ want) a =
      Respects-bind _ _
        (Respects-if (has_tag j t current) _ _ (Respects-pure 0) (
          Respects-bind _ _
            (update_map-keeps h holds laws p j (t ∷ []) p (bytes_to_args k) (inr a.0))
            (λ u. Respects-pure 1)))
        λ here.
          Respects-bind _ _ (update_each-keeps k current want a.1)
            (λ later. Respects-pure (here + later))

  write_tag : Bool → Bytes → ℕ → Exec h.World ℕ
  write_tag b k t = if b then pure 0 else (update_map h p k (t ∷ []) >> pure 1)

  -- One turn of the loop of updates.
  write_tag-Tagged :
      (k : Bytes) (t : ℕ) (b : Bool) (w : h.World) (n : ℕ)
      → IsBytes (t ∷ [])
      → (b ≡ false) ⊎ Tagged w k t
      → (write_tag b k t w).0 ≡ ok n
      → Tagged (write_tag b k t w).1 k t
  unfolding write_tag pure
  write_tag-Tagged k t true w n fits (inl unread) e = absurd (cc)
  write_tag-Tagged k t true w n fits (inr tagged) e = tagged
  write_tag-Tagged k t false w n fits ready e =
      let r = >>=-eq-ok _ _ n w e in
      (
        bytes_to_args (t ∷ []),
        [],
        ap (λ u. holds u p (bytes_to_args k)) r.state
            ∙ update_map-holds h holds laws p k (t ∷ []) w r.first,
        args_to_bytes-bytes_to_args (t ∷ []) fits,
      )

  write_tag-keeps :
      (b : Bool) (k : Bytes) (t : ℕ) (j : Bytes)
      → bytes_to_args j ≢ bytes_to_args k
      → Respects (kept_at h holds p (bytes_to_args j)) (write_tag b k t)
  unfolding write_tag
  write_tag-keeps b k t j ne = Respects-if b _ _ (Respects-pure 0) (
      Respects-bind _ _
        (update_map-keeps h holds laws p k (t ∷ []) p (bytes_to_args j) (inr (λ e. ne (sym e))))
        (λ u. Respects-pure 1))

  -- What was ready stays so where the keys differ.
  still :
      (current : List (Bytes × Option ℕ)) (k : Bytes) (w w1 : h.World)
      → ((j : Bytes)
          → bytes_to_args j ≢ bytes_to_args k
          → holds w1 p (bytes_to_args j) ≡ holds w p (bytes_to_args j))
      → (want : Tags) → All (λ (x : Bytes × ℕ). bytes_to_args x.0 ≢ bytes_to_args k) want
      → All (λ (x : Bytes × ℕ). (has_tag x.0 x.1 current ≡ false) ⊎ Tagged w x.0 x.1) want
      → All (λ (x : Bytes × ℕ). (has_tag x.0 x.1 current ≡ false) ⊎ Tagged w1 x.0 x.1) want
  still current k w w1 others [] a r = tt
  still current k w w1 others ((j, t) ∷ want) (ne, a) (ready, r) = (
    elim ready [
      | inl new ↦ inl new
      | inr tagged ↦ inr (subst (λ o. Begins o t) (sym (others j ne)) tagged)
    ],
    still current k w w1 others want a r,
  )

  -- If the loop of updates finishes, every wanted key has its tag.
  pub update_each-Tagged :
      (current : List (Bytes × Option ℕ)) (want : Tags) (w : h.World) (n : ℕ)
      → Writable want
      → All (λ (x : Bytes × ℕ). (has_tag x.0 x.1 current ≡ false) ⊎ Tagged w x.0 x.1) want
      → (update_each h p current want w).0 ≡ ok n
      → All (λ (x : Bytes × ℕ). Tagged (update_each h p current want w).1 x.0 x.1) want
  unfolding update_each write_tag pure
  update_each-Tagged current [] w n wr ready e = tt
  update_each-Tagged current ((k, t) ∷ want) w n (is_key, fits, apart, wr) (ready, readies) e =
      let r = >>=-eq-ok _ _ n w e in
      let q = >>=-eq-ok _ _ n _ r.second in
      let w1 = (write_tag (has_tag k t current) k t w).1 in
      let here = write_tag-Tagged k t (has_tag k t current) w r.value fits ready r.first in
      let others = λ (j : Bytes) (ne : bytes_to_args j ≢ bytes_to_args k).
        (write_tag-keeps (has_tag k t current) k t j ne).at w in
      let tagged =
        update_each-Tagged current want w1 q.value wr
          (still current k w w1 others want apart readies) q.first in
      subst (λ u. Tagged u k t × All (λ (x : Bytes × ℕ). Tagged u x.0 x.1) want)
        (sym (r.state ∙ q.state))
        (
          subst (λ o. Begins o t) (sym ((update_each-keeps k current want apart).at w1)) here,
          tagged,
        )
