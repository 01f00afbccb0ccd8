-- ===== src/Ngmap/Pack.antt =====
-- `struct.pack` and `struct.unpack` of the formats "<I", "<Q" and "<QQ", and `ip.packed`: fixed-width
-- little-endian and big-endian bytes. A byte string is a list of numbers below 256.
use mathlib.Core.Path.{ap₂}
use mathlib.Core.List.{reverse, reverse-reverse}
use native.Mathlib.Nat.{pow-suc}
use nodeguard.Prelude.{
  ℕ, zero, suc, ◌+◌, ◌*◌, ◌/◌, ◌%◌, ◌^◌, ◌<◌, ◌≡◌, refl, ap, Option, none, some, List, [], ◌∷◌,
  ◌++◌, arith, ltb, ◌==◌, if◌then◌else◌, length, take, drop, All-append, All,
}

abbrev pub Bytes : Type 0
Bytes = List ℕ

abbrev pub IsBytes : Bytes → Type 0
IsBytes = All (λ x. x < 256)

-- `w` bytes of a number, the lowest first.
abbrev pub le_bytes : ℕ → ℕ → Bytes
le_bytes zero n = []
le_bytes (suc w) n = (n % 256) ∷ le_bytes w (n / 256)

abbrev pub of_le : Bytes → ℕ
of_le [] = 0
of_le (x ∷ xs) = x + 256 * of_le xs

-- `packed` of an address: the highest byte first.
abbrev pub be_bytes : ℕ → ℕ → Bytes
be_bytes w n = reverse (le_bytes w n)

abbrev pub of_be : Bytes → ℕ
of_be b = of_le (reverse b)

pub length-le_bytes : (w n : ℕ) → length (le_bytes w n) ≡ w
length-le_bytes zero n = refl
length-le_bytes (suc w) n = omega (arith, length-le_bytes w (n / 256))

pub le_bytes-IsBytes : (w n : ℕ) → IsBytes (le_bytes w n)
le_bytes-IsBytes zero n = tt
le_bytes-IsBytes (suc w) n = (omega arith, le_bytes-IsBytes w (n / 256))

pub of_le-le_bytes : (w n : ℕ) → n < 256 ^ w → of_le (le_bytes w n) ≡ n
of_le-le_bytes zero n h = omega arith
of_le-le_bytes (suc w) n h =
    let rest = of_le-le_bytes w (n / 256) (omega (arith, pow-suc 256 w)) in omega arith

-- `struct.pack("<I", n)`, which raises outside of 32 bits.
unfoldable pub pack_u32 : ℕ → Option Bytes
pack_u32 n = if ltb n (2 ^ 32) then some (le_bytes 4 n) else none

-- `struct.pack("<Q", n)`
unfoldable pub pack_u64 : ℕ → Option Bytes
pack_u64 n = if ltb n (2 ^ 64) then some (le_bytes 8 n) else none

-- `struct.pack("<QQ", a, b)`
unfoldable pub pack_pair : ℕ → ℕ → Option Bytes
pack_pair a b =
    if ltb a (2 ^ 64)
    then (if ltb b (2 ^ 64) then some (le_bytes 8 a ++ le_bytes 8 b) else none)
    else none

-- `struct.unpack`, which wants exactly the format's width.
unfoldable pub unpack_u32 : Bytes → Option ℕ
unpack_u32 b = if length b == 4 then some (of_le b) else none

unfoldable pub unpack_u64 : Bytes → Option ℕ
unpack_u64 b = if length b == 8 then some (of_le b) else none

unfoldable pub unpack_pair : Bytes → Option (ℕ × ℕ)
unpack_pair b = if length b == 16 then some (of_le (take 8 b), of_le (drop 8 b)) else none

take_8 : (a b : ℕ) → take 8 (le_bytes 8 a ++ le_bytes 8 b) ≡ le_bytes 8 a
take_8 a b = refl

drop_8 : (a b : ℕ) → drop 8 (le_bytes 8 a ++ le_bytes 8 b) ≡ le_bytes 8 b
drop_8 a b = refl

unpack_u32-le_bytes : (n : ℕ) → n < 2 ^ 32 → unpack_u32 (le_bytes 4 n) ≡ some n
unfolding unpack_u32
unpack_u32-le_bytes n h = ap some (of_le-le_bytes 4 n h)

unpack_u64-le_bytes : (n : ℕ) → n < 2 ^ 64 → unpack_u64 (le_bytes 8 n) ≡ some n
unfolding unpack_u64
unpack_u64-le_bytes n h = ap some (of_le-le_bytes 8 n h)

pub unpack_pair-le_bytes :
    (a b : ℕ) → a < 2 ^ 64 → b < 2 ^ 64 → unpack_pair (le_bytes 8 a ++ le_bytes 8 b) ≡ some (a, b)
unfolding unpack_pair
unpack_pair-le_bytes a b ha hb =
    ap₂ (λ x y. some (x, y)) (of_le-le_bytes 8 a ha) (of_le-le_bytes 8 b hb)

-- What was packed is what is unpacked.
pub unpack_u32-pack_u32 : (n : ℕ) {b : Bytes} → pack_u32 n ≡ some b → unpack_u32 b ≡ some n
unfolding pack_u32
unpack_u32-pack_u32 n h = ground (arith, unpack_u32-le_bytes n)

pub unpack_u64-pack_u64 : (n : ℕ) {b : Bytes} → pack_u64 n ≡ some b → unpack_u64 b ≡ some n
unfolding pack_u64
unpack_u64-pack_u64 n h = ground (arith, unpack_u64-le_bytes n)

pub unpack_pair-pack_pair :
    (a c : ℕ) {b : Bytes} → pack_pair a c ≡ some b → unpack_pair b ≡ some (a, c)
unfolding pack_pair
unpack_pair-pack_pair a c h = ground (arith, unpack_pair-le_bytes a c)

pub of_be-be_bytes : (w n : ℕ) → n < 256 ^ w → of_be (be_bytes w n) ≡ n
of_be-be_bytes w n h = rw reverse-reverse (of_le-le_bytes w n h)

pub pack_pair-some :
    (a c : ℕ) (b : Bytes) → pack_pair a c ≡ some b → b ≡ le_bytes 8 a ++ le_bytes 8 c
unfolding pack_pair
pack_pair-some a c b h = ground arith

pub le_pair-IsBytes : (a b : ℕ) → IsBytes (le_bytes 8 a ++ le_bytes 8 b)
le_pair-IsBytes a b =
    All-append (λ x. x < 256) (le_bytes 8 a) (le_bytes 8 b) (le_bytes-IsBytes 8 a)
      (le_bytes-IsBytes 8 b)
