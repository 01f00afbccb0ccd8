-- ===== src/Ngmap/Keys.antt =====
-- `key_bytes` and `decode_key` of bin/ngmap.py: a network as the packed key of an LPM map.
use mathlib.Core.Path.{ap₂}
use nodeguard.Prelude.{
  ℕ, ◌≤◌, ◌<◌, ◌^◌, ◌≡◌, ap, ◌∙◌, Option, none, some, ◌++◌, arith, ◌==◌, if◌then◌else◌, length,
  take, drop,
}
use nodeguard.Net.{Version, v4, v6, bits, Network, IsNetwork, network_of}
use nodeguard.Net.Ranges.{network_of_self}
use nodeguard.Ngmap.Pack.{
  Bytes, IsBytes, le_bytes, of_le, be_bytes, of_be, of_be-be_bytes, of_le-le_bytes,
}
use nodeguard.Ngmap.Hex.{bytes_to_args, bytes_to_args-injective}

-- Bytes of a packed address.
abbrev pub address_width : Version → ℕ
address_width v4 = 4
address_width v6 = 16

-- A prefix length is at most 128, so `struct.pack("<I", net.prefixlen)` cannot raise.
unfoldable pub key_bytes : Network → Bytes
key_bytes n = le_bytes 4 n.prefixlen ++ be_bytes (address_width n.version) n.address

-- `ip_address(raw[4:])` takes 4 or 16 bytes and raises ValueError, here `none`, on any other
-- number; so does `ip_network` on a prefix that is too long, and `struct.unpack` on a short key.
unfoldable pub decode_key : Bytes → Option Network
decode_key raw =
    let address = drop 4 raw in
    if length address == 4
    then network_of v4 (of_be address) (of_le (take 4 raw))
    else if length address == 16
    then network_of v6 (of_be address) (of_le (take 4 raw))
    else none

decode_key_at :
    (v : Version) (a p : ℕ)
    → a < 2 ^ bits v
    → p ≤ bits v
    → decode_key (key_bytes (record { version = v; address = a; prefixlen = p })) ≡ network_of v a p
unfolding decode_key key_bytes
decode_key_at v4 a p ha hp =
    ap₂ (network_of v4) (of_be-be_bytes 4 a ha) (of_le-le_bytes 4 p (omega arith))
decode_key_at v6 a p ha hp =
    ap₂ (network_of v6) (of_be-be_bytes 16 a ha) (of_le-le_bytes 4 p (omega arith))

-- The packed key of a well-formed network (a prefix that fits, host bits clear, an address in range)
-- is decoded to that network.
pub decode_key-key_bytes : (n : Network) → IsNetwork n → decode_key (key_bytes n) ≡ some n
decode_key-key_bytes n h =
    decode_key_at n.version n.address n.prefixlen h.in_range h.prefix_fits ∙ network_of_self n h

be_bytes-IsBytes : (v : Version) (a : ℕ) → IsBytes (be_bytes (address_width v) a)
be_bytes-IsBytes v4 a = omega arith
be_bytes-IsBytes v6 a = omega arith

pub key_bytes-IsBytes : (n : Network) → IsBytes (key_bytes n)
unfolding key_bytes
key_bytes-IsBytes n =
    (omega arith, (omega arith, (omega arith, (omega arith, be_bytes-IsBytes n.version n.address))))

-- Two networks have the same hex tokens for a key only if they are one network.
pub key_args-injective :
    (m n : Network)
    → IsNetwork m
    → IsNetwork n
    → bytes_to_args (key_bytes m) ≡ bytes_to_args (key_bytes n)
    → m ≡ n
key_args-injective m n hm hn e =
    let same =
      bytes_to_args-injective (key_bytes m) (key_bytes n) (key_bytes-IsBytes m)
        (key_bytes-IsBytes n) e in
    cc (decode_key-key_bytes m hm, decode_key-key_bytes n hn, ap decode_key same)
