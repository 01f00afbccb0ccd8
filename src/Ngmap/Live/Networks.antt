-- ===== src/Ngmap/Live/Networks.antt =====
-- What is decoded from a map is a well-formed network.
use mathlib.Core.Path.{subst}
use mathlib.Core.List.{reverse_aux}
use native.Mathlib.Nat.{pow-suc, add-zero}
use nodeguard.Prelude.{
  All-append, ℕ, zero, suc, ◌+◌, ◌<◌, ◌^◌, ◌≡◌, ◌∙◌, some, List, [], ◌∷◌, All, arith, Bool-cases,
  inl, inr, ltb, ◌==◌, length, take, drop, String,
}
use nodeguard.Net.{v4, v6, Network, IsNetwork}
use nodeguard.Net.Ranges.{network_of-IsNetwork}
use nodeguard.Ngmap.Pack.{Bytes, IsBytes, of_le, of_be}
use nodeguard.Ngmap.Exec.{raise, or_raise, struct_error, value_error}
use nodeguard.Ngmap.Exec.Ensures.{
  Ensures, Ensures-pure, Ensures-raise, Ensures-or_raise, Ensures-if, Ensures-bind, Ensures-then,
}
use nodeguard.Ngmap.Host.{Host, Row, single, percpu, neither}
use nodeguard.Ngmap.Maps.{Value, row_entry, entries_of, dump_map, decode}
use nodeguard.Ngmap.Live.{networks_of, allow_entries_live}
use nodeguard.Ngmap.Keys.{decode_key}
use nodeguard.Ngmap.Hex.{args_to_bytes-IsBytes}

of_le-lt : (b : Bytes) → IsBytes b → of_le b < 256 ^ length b
of_le-lt [] h = omega arith
of_le-lt (x ∷ xs) h = omega (arith, h.0, of_le-lt xs h.1, pow-suc 256 (length xs))

reverse_aux-IsBytes : (b acc : Bytes) → IsBytes b → IsBytes acc → IsBytes (reverse_aux b acc)
reverse_aux-IsBytes [] acc hb ha = ha
reverse_aux-IsBytes (x ∷ b) acc hb ha = reverse_aux-IsBytes b (x ∷ acc) hb.1 (hb.0, ha)

length-reverse_aux : (b acc : Bytes) → length (reverse_aux b acc) ≡ length b + length acc
length-reverse_aux [] acc = omega arith
length-reverse_aux (x ∷ b) acc = omega (arith, length-reverse_aux b (x ∷ acc))

of_be-lt : (b : Bytes) (n : ℕ) → IsBytes b → length b ≡ n → of_be b < 256 ^ n
of_be-lt b n h e = rw (← e) (
    subst (λ k. of_be b < 256 ^ k) (length-reverse_aux b [] ∙ add-zero (length b))
      (of_le-lt (reverse_aux b []) (reverse_aux-IsBytes b [] h tt)))

drop-IsBytes : (n : ℕ) (b : Bytes) → IsBytes b → IsBytes (drop n b)
drop-IsBytes zero b h = h
drop-IsBytes (suc n) [] h = tt
drop-IsBytes (suc n) (x ∷ b) h = drop-IsBytes n b h.1

pub decode_key-IsNetwork :
    (raw : Bytes) {n : Network} → IsBytes raw → decode_key raw ≡ some n → IsNetwork n
unfolding decode_key
decode_key-IsNetwork raw h e =
    let address = drop 4 raw in
    let narrow = λ (k : length address ≡ 4). of_be-lt address 4 (drop-IsBytes 4 raw h) k in
    let wide = λ (k : length address ≡ 16). of_be-lt address 16 (drop-IsBytes 4 raw h) k in
    elim (Bool-cases (length address == 4)) [
      | inl four ↦
          network_of-IsNetwork v4 (of_be address) (of_le (take 4 raw)) (narrow (ground arith))
            (rw four at e)
      | inr other ↦ elim (Bool-cases (length address == 16)) [
        | inl sixteen ↦
            network_of-IsNetwork v6 (of_be address) (of_le (take 4 raw)) (wide (ground arith))
              (rw (other, sixteen) at e)
        | inr odd ↦ cc (rw (other, odd) at e)
      ]
    ]

abbrev pub IsKeyed : Bytes × Value → Type 0
IsKeyed e = IsBytes e.0

module _ (h : Host) where
  row_entry-IsKeyed : (r : Row) → Ensures (All IsKeyed) (row_entry h r)
  unfolding row_entry
  row_entry-IsKeyed (single k v) =
      Ensures-bind {P = IsBytes} _ _ (Ensures-or_raise _ _ (args_to_bytes-IsBytes k))
        λ key b. Ensures-then _ _ λ value. Ensures-pure _ (b, tt)
  row_entry-IsKeyed (percpu k vs) =
      Ensures-bind {P = IsBytes} _ _ (Ensures-or_raise _ _ (args_to_bytes-IsBytes k))
        λ key b. Ensures-then _ _ λ value. Ensures-pure _ (b, tt)
  row_entry-IsKeyed neither = Ensures-pure _ tt

  entries_of-IsKeyed : (rs : List Row) → Ensures (All IsKeyed) (entries_of h rs)
  unfolding entries_of
  entries_of-IsKeyed [] = Ensures-pure _ tt
  entries_of-IsKeyed (r ∷ rs) = Ensures-bind _ _ (row_entry-IsKeyed r) λ e he.
      Ensures-bind _ _ (entries_of-IsKeyed rs)
        λ es hes. Ensures-pure _ (All-append IsKeyed e es he hes)

  pub dump_map-IsKeyed : (path : String) → Ensures (All IsKeyed) (dump_map h path)
  unfolding dump_map
  dump_map-IsKeyed path = Ensures-then _ _ λ rs. entries_of-IsKeyed rs

  pub decode-IsNetwork : (raw : Bytes) → IsBytes raw → Ensures IsNetwork (decode h raw)
  unfolding decode
  decode-IsNetwork raw b =
      Ensures-if (ltb (length raw) 4) (raise struct_error) (or_raise value_error (decode_key raw))
        (λ _. Ensures-raise _) (λ _. Ensures-or_raise _ _ λ n e. decode_key-IsNetwork raw b e)

  networks_of-IsNetwork :
      (es : List (Bytes × Value)) → All IsKeyed es → Ensures (All IsNetwork) (networks_of h es)
  unfolding networks_of
  networks_of-IsNetwork [] k = Ensures-pure _ tt
  networks_of-IsNetwork ((raw, v) ∷ es) k =
      Ensures-bind _ _ (decode-IsNetwork raw k.0)
        λ n hn. Ensures-bind _ _ (networks_of-IsNetwork es k.1) λ ns hns. Ensures-pure _ (hn, hns)

  -- The live allow list holds well-formed networks only.
  pub allow_entries_live-IsNetwork : Ensures (All IsNetwork) (allow_entries_live h)
  unfolding allow_entries_live
  allow_entries_live-IsNetwork = Ensures-bind _ _ (dump_map-IsKeyed _) λ four k4.
      Ensures-bind _ _ (networks_of-IsNetwork four k4) λ nets4 h4.
        Ensures-bind _ _ (dump_map-IsKeyed _) λ six k6.
          Ensures-bind _ _ (networks_of-IsNetwork six k6)
            λ nets6 h6. Ensures-pure _ (All-append IsNetwork nets4 nets6 h4 h6)
