-- ===== src/Generator/Minted.antt =====
-- The format of the uuids that zbx/gen-template.py mints for new objects.
use Prim.Native.String.{◌++◌ as ◌<>◌}
use nodeguard.Prelude.{
  ℕ, zero, suc, ◌+◌, ◌*◌, ◌/◌, ◌%◌, ◌≡◌, refl, ap, ◌∙◌, String, List, [], ◌∷◌, length, arith,
}
use nodeguard.Generator.Uuid.{
  Bytes, Uuid5, update, set_version, set_variant, force_v4, nibbles, text_of, hex, mint,
}

-- A change of a byte that keeps its low digit is one of its high digit.
nibbles-update :
    (f g : ℕ → ℕ)
    → ((b : ℕ) → f b / 16 ≡ g (b / 16))
    → ((b : ℕ) → f b % 16 ≡ b % 16)
    → (i : ℕ) (bs : Bytes) → nibbles (update i f bs) ≡ update (2 * i) g (nibbles bs)
unfolding nibbles update
nibbles-update f g high low zero [] = refl
nibbles-update f g high low (suc i) [] = refl
nibbles-update f g high low zero (b ∷ bs) = rw (high b, low b) refl
nibbles-update f g high low (suc i) (b ∷ bs) =
    let e : 2 * suc i ≡ suc (suc (2 * i)) = omega arith in
    rw (e, nibbles-update f g high low i bs) refl

-- The digits of a version-4 uuid: the 13th is 4, and the 17th has the high bits 10.
abbrev pub as_v4 : List ℕ → List ℕ
as_v4 ns = update 16 (λ n. n % 4 + 8) (update 12 (λ _. 4) ns)

nibbles-force_v4 : (bs : Bytes) → nibbles (force_v4 bs) ≡ as_v4 (nibbles bs)
unfolding force_v4 set_version set_variant
nibbles-force_v4 bs =
    let variant =
      nibbles-update set_variant (λ n. n % 4 + 8) (λ b. omega arith) (λ b. omega arith) 8
        (update 6 set_version bs) in
    let version = nibbles-update set_version (λ _. 4) (λ b. omega arith) (λ b. omega arith) 6 bs in
    variant ∙ ap (update 16 (λ n. n % 4 + 8)) version

length-nibbles : (bs : Bytes) → length (nibbles bs) ≡ 2 * length bs
unfolding nibbles
length-nibbles [] = refl
length-nibbles (b ∷ bs) = omega (arith, length-nibbles bs)

length-update : (i : ℕ) (f : ℕ → ℕ) (bs : List ℕ) → length (update i f bs) ≡ length bs
unfolding update
length-update zero f [] = refl
length-update (suc i) f [] = refl
length-update zero f (b ∷ bs) = refl
length-update (suc i) f (b ∷ bs) = ap suc (length-update i f bs)

-- If uuid5 gives sixteen bytes, then a minted uuid prints 32 digits: those of the bytes, except that
-- the 13th is 4 and the 17th is 8, 9, a or b by its two low bits.
pub mint-IsV4 :
    (uuid5 : Uuid5) (kind obj_key : String)
    → length (uuid5 (kind <> ":" <> obj_key)) ≡ 16
    → (mint uuid5 kind obj_key ≡ text_of (as_v4 (nibbles (uuid5 (kind <> ":" <> obj_key)))))
      × (length (as_v4 (nibbles (uuid5 (kind <> ":" <> obj_key)))) ≡ 32)
unfolding mint hex
mint-IsV4 uuid5 kind obj_key e =
    let ns = nibbles (uuid5 (kind <> ":" <> obj_key)) in
    (
      ap text_of (nibbles-force_v4 (uuid5 (kind <> ":" <> obj_key))),
      omega (
        arith,
        e,
        length-nibbles (uuid5 (kind <> ":" <> obj_key)),
        length-update 12 (λ _. 4) ns,
        length-update 16 (λ n. n % 4 + 8) (update 12 (λ _. 4) ns),
      ),
    )
