-- ===== src/Ngmap/Hex.antt =====
-- `bytes_to_args` and `args_to_bytes` of bin/ngmap.py: a byte string as bpftool's hex tokens.
use Prim.Native.Char.{code}
use Prim.Native.String.{◌++◌ as ◌<>◌}
use nodeguard.Prelude.{
  ℕ, ◌+◌, ◌-◌, ◌*◌, ◌/◌, ◌%◌, ◌<◌, String, ◌≡◌, refl, Bool, true, false, ◌&&◌, ◌||◌, Option, none,
  some, List, [], ◌∷◌, map, arith, leb, ltb, ◌==◌, if◌then◌else◌, all_below, all_below_sound,
}
use nodeguard.Ngmap.Pack.{Bytes, IsBytes}

hex_char : ℕ → String
hex_char n =
    if n == 0
    then "0"
    else if n == 1
    then "1"
    else if n == 2
    then "2"
    else if n == 3
    then "3"
    else if n == 4
    then "4"
    else if n == 5
    then "5"
    else if n == 6
    then "6"
    else if n == 7
    then "7"
    else if n == 8
    then "8"
    else if n == 9
    then "9"
    else if n == 10
    then "a"
    else if n == 11
    then "b"
    else if n == 12
    then "c"
    else if n == 13
    then "d"
    else if n == 14
    then "e"
    else "f"

-- f"0x{x:02x}" of one byte
unfoldable pub hex_token : ℕ → String
unfolding hex_char
hex_token x = "0x" <> hex_char (x / 16) <> hex_char (x % 16)

hex_digit : ℕ → Option ℕ
hex_digit c =
    if leb 48 c && leb c 57
    then some (c - 48)
    else if leb 97 c && leb c 102
    then some (c - 87)
    else if leb 65 c && leb c 70
    then some (c - 55)
    else none

-- The digits of `int(text, 16)` after the prefix.
hex_digits : ℕ → String → Option ℕ
hex_digits acc String.[] = some acc
hex_digits acc (String.◌∷◌ c rest) =
    let d = hex_digit (code c) in elim d [ none ↦ none | some v ↦ hex_digits (acc * 16 + v) rest ]

hex_number : String → Option ℕ
unfolding hex_digit hex_digits
hex_number String.[] = none
hex_number s = hex_digits 0 s

-- `int(text, 16)` of an unsigned text without spaces or underscores: "0x" may stand in front.
unfoldable pub int_16 : String → Option ℕ
unfolding hex_number
int_16 (String.◌∷◌ a (String.◌∷◌ b rest)) =
    if code a == 48 && (code b == 120 || code b == 88)
    then hex_number rest
    else hex_number (String.◌∷◌ a (String.◌∷◌ b rest))
int_16 s = hex_number s

abbrev pub bytes_to_args : Bytes → List String
bytes_to_args = map hex_token

-- `bytes(...)` refuses a number above 255; either refusal is a ValueError, `none` here.
prepend_byte : Option ℕ → Option Bytes → Option Bytes
prepend_byte none rest = none
prepend_byte (some x) none = none
prepend_byte (some x) (some xs) = if ltb x 256 then some (x ∷ xs) else none

unfoldable pub args_to_bytes : List String → Option Bytes
unfolding prepend_byte
args_to_bytes [] = some []
args_to_bytes (t ∷ ts) = prepend_byte (int_16 t) (args_to_bytes ts)

reads_back : ℕ → Bool
reads_back x = elim (int_16 (hex_token x)) [ none ↦ false | some v ↦ v == x ]

reads_back_table : all_below 256 reads_back ≡ true
unfolding reads_back int_16 hex_token
reads_back_table = refl

int_16-hex_token : (x : ℕ) → x < 256 → int_16 (hex_token x) ≡ some x
int_16-hex_token x h =
    unfold reads_back in ground (arith, all_below_sound 256 reads_back x reads_back_table h)

-- The hex tokens of a string of bytes below 256 are read back as that string.
pub args_to_bytes-bytes_to_args : (b : Bytes) → IsBytes b → args_to_bytes (bytes_to_args b) ≡ some b
unfolding args_to_bytes
args_to_bytes-bytes_to_args [] h = refl
args_to_bytes-bytes_to_args (x ∷ xs) h =
    ground (arith, int_16-hex_token x h.0, args_to_bytes-bytes_to_args xs h.1)

pub bytes_to_args-injective :
    (b c : Bytes) → IsBytes b → IsBytes c → bytes_to_args b ≡ bytes_to_args c → b ≡ c
bytes_to_args-injective b c hb hc e =
    cc (args_to_bytes-bytes_to_args b hb, args_to_bytes-bytes_to_args c hc)

-- What is read is a byte string.
pub args_to_bytes-IsBytes : (ts : List String) (b : Bytes) → args_to_bytes ts ≡ some b → IsBytes b
unfolding args_to_bytes
args_to_bytes-IsBytes [] [] h = tt
args_to_bytes-IsBytes [] (x ∷ b) h = cc
args_to_bytes-IsBytes (t ∷ ts) [] h = tt
args_to_bytes-IsBytes (t ∷ ts) (x ∷ b) h = (ground arith, args_to_bytes-IsBytes ts b (ground arith))
