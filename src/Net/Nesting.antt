-- ===== src/Net/Nesting.antt =====
-- Two networks are nested or disjoint.
use mathlib.Core.Path.{subst}
use native.Mathlib.Nat.{pow-suc, mul-le-mul_right, lt_of_mul-lt-mul_right}
use nodeguard.Prelude.{
  ℕ, zero, suc, ◌+◌, ◌-◌, ◌*◌, ◌/◌, ◌^◌, ◌≤◌, ◌<◌, ◌≡◌, sym, ap, ◌∙◌, true, arith,
}
use nodeguard.Net.{bits, Address, Network, IsNetwork, block_size, size, contains, subnet_of}
use nodeguard.Net.Ranges.{contains_iff}

lt_of_blocks : (q m s x : ℕ) → q * s ≤ x → x < m * s → q < m
lt_of_blocks q m s x h k = lt_of_mul-lt-mul_right s (omega arith)

-- A block of `s` numbers and one of `d * s` numbers that meet are nested.
blocks_nested :
    (x q r s d : ℕ)
    → q * s ≤ x
    → x < q * s + s
    → r * (d * s) ≤ x
    → x < r * (d * s) + d * s
    → (r * (d * s) ≤ q * s) × (q * s + s ≤ r * (d * s) + d * s)
blocks_nested x q r s d h₁ h₂ h₃ h₄ =
    let above = lt_of_blocks q (r * d + d) s x h₁ (omega arith) in
    let below = lt_of_blocks (r * d) (q + 1) s x (omega arith) (omega arith) in
    let lo : r * d * s ≤ q * s = mul-le-mul_right s (omega arith) in
    let hi : (q + 1) * s ≤ (r * d + d) * s = mul-le-mul_right s (omega arith) in
    (omega arith, omega arith)

ranges_nested :
    (x a b s t d : ℕ)
    → t ≡ d * s
    → a / s * s ≡ a
    → b / t * t ≡ b
    → a ≤ x
    → x < a + s
    → b ≤ x
    → x < b + t
    → (b ≤ a) × (a + s ≤ b + t)
ranges_nested x a b s t d e ea eb h₁ h₂ h₃ h₄ =
    let eb' : b / t * (d * s) ≡ b = subst (λ u. b / t * u ≡ b) e eb in
    let (lo, hi) =
      blocks_nested x (a / s) (b / t) s d (omega arith) (omega arith) (omega arith) (omega arith) in
    (omega arith, omega arith)

pow_split : (k i : ℕ) → 2 ^ (k + i) ≡ 2 ^ k * 2 ^ i
pow_split zero i = let e : zero + i ≡ i = omega arith in rw e (omega arith)
pow_split (suc k) i =
    let e : suc k + i ≡ suc (k + i) = omega arith in
    rw e (omega (arith, pow-suc 2 (k + i), ap (λ t. t * 2 ^ i) (pow-suc 2 k), pow_split k i))

sizes_divide :
    (m n : Network)
    → IsNetwork m
    → m.version ≡ n.version
    → n.prefixlen ≤ m.prefixlen
    → size n ≡ 2 ^ (m.prefixlen - n.prefixlen) * size m
unfolding block_size
sizes_divide m n hm e h =
    let exponents : bits n.version - n.prefixlen
        ≡ m.prefixlen - n.prefixlen + (bits m.version - m.prefixlen) =
      rw (← e) (omega arith) in
    ap (λ k. 2 ^ k) exponents ∙ pow_split (m.prefixlen - n.prefixlen) (bits m.version - m.prefixlen)

-- If two networks share an address, the one with the longer prefix lies within the other.
pub subnet_of_shared :
    (m n : Network) (a : Address)
    → IsNetwork m
    → IsNetwork n
    → contains m a ≡ true
    → contains n a ≡ true
    → n.prefixlen ≤ m.prefixlen
    → subnet_of m n ≡ true
unfolding subnet_of
subnet_of_shared m n a hm hn cm cn h =
    let (vm, lom, him) = (contains_iff m a hm).0 cm in
    let (vn, lon, hin) = (contains_iff n a hn).0 cn in
    let wide = sizes_divide m n hm (vm ∙ sym vn) h in
    let (lo, hi) =
      ranges_nested a.value m.address n.address (size m) (size n) (2 ^ (m.prefixlen - n.prefixlen))
        wide hm.aligned hn.aligned lom him lon hin in
    ground arith
