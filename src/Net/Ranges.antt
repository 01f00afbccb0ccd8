-- ===== src/Net/Ranges.antt =====
-- Networks as ranges: membership and containment read as orders between numbers.
use mathlib.Core.Path.{subst}
use native.Mathlib.Nat.{div-mul-le_self}
use nodeguard.Prelude.{
  ℕ, ◌+◌, ◌-◌, ◌*◌, ◌/◌, ◌^◌, ◌≤◌, ◌<◌, ◌≡◌, refl, ◌↔◌, true, some, arith, ==_iff, round_down_iff,
}
use nodeguard.Net.{
  Version, v4, v6, bits, Address, Network, IsNetwork, block_size, block_size_pos, size, network_of,
  contains, subnet_of, same_version_iff, host_route,
}

round_down-eq_iff : (x a s : ℕ) → 0 < s → a / s * s ≡ a → (x / s * s ≡ a) ↔ ((a ≤ x) × (x < a + s))
round_down-eq_iff x a s h e =
    subst (λ b. (x / s * s ≡ b) ↔ ((b ≤ x) × (x < b + s))) e (round_down_iff x (a / s) s h)

-- An address is in a network exactly when it lies in the network's range.
pub contains_iff :
    (n : Network) (a : Address)
    → IsNetwork n
    → (contains n a ≡ true)
      ↔ ((n.version ≡ a.version) × (n.address ≤ a.value) × (a.value < n.address + size n))
unfolding contains
contains_iff n a h =
    let (to, from) =
      round_down-eq_iff a.value n.address (size n) (block_size_pos n.version n.prefixlen)
        h.aligned in
    ground (
      arith,
      to,
      from,
      same_version_iff n.version a.version,
      ==_iff (a.value / size n * size n) n.address,
    )

abbrev first : Network → Address
first n = record { version = n.version; value = n.address }

abbrev last : Network → Address
last n = record { version = n.version; value = n.address + size n - 1 }

-- Containment of networks is containment of their addresses, in both directions.
pub subnet_of_iff :
    (m n : Network)
    → IsNetwork m
    → IsNetwork n
    → m.version ≡ n.version
    → (subnet_of m n ≡ true) ↔ ((a : Address) → contains m a ≡ true → contains n a ≡ true)
subnet_of_iff m n hm hn e = (inside, ends)
  where
    inside : subnet_of m n ≡ true → (a : Address) → contains m a ≡ true → contains n a ≡ true
    inside s a c = (contains_iff n a hn).1 (
        unfold subnet_of in
        ground (
          arith,
          (contains_iff m a hm).0 c,
          block_size_pos m.version m.prefixlen,
          block_size_pos n.version n.prefixlen,
        ))

    ends : ((a : Address) → contains m a ≡ true → contains n a ≡ true) → subnet_of m n ≡ true
    ends f =
        let (_, lo, _) = (contains_iff n (first m) hn).0 (
          f (first m) (
            (contains_iff m (first m) hm).1
              (refl, omega arith, omega (arith, block_size_pos m.version m.prefixlen)))) in
        let (_, _, hi) = (contains_iff n (last m) hn).0 (
          f (last m) (
            (contains_iff m (last m) hm).1 (
              refl,
              omega (arith, block_size_pos m.version m.prefixlen),
              omega (arith, block_size_pos m.version m.prefixlen),
            ))) in
        unfold subnet_of in ground (arith, block_size_pos n.version n.prefixlen)

div_mul_round : (a s : ℕ) → 0 < s → a / s * s / s * s ≡ a / s * s
div_mul_round a s h = grind arith

-- The constructor's result is a network.
pub network_of-IsNetwork :
    (v : Version) (a p : ℕ) {n : Network} → a < 2 ^ bits v → network_of v a p ≡ some n → IsNetwork n
unfolding network_of
network_of-IsNetwork v a p h e = ground (
  arith,
  div_mul_round a (block_size v p) (block_size_pos v p),
  div-mul-le_self a (block_size v p),
)

-- A network is rebuilt from its own address and prefix length.
pub network_of_self :
    (n : Network) → IsNetwork n → network_of n.version n.address n.prefixlen ≡ some n
unfolding network_of
network_of_self n h = ground arith

-- A host route holds its own address only.
pub contains-host_route_iff : (a b : Address) → (contains (host_route a) b ≡ true) ↔ (a ≡ b)
unfolding host_route contains block_size
contains-host_route_iff a b = split a.version b.version a.value b.value
  where
    split :
        (v w : Version) (x y : ℕ)
        → (contains
              (host_route (record { version = v; value = x }))
              (record { version = w; value = y })
            ≡ true)
          ↔ (◌≡◌ {A = Address}
              (record { version = v; value = x })
              (record { version = w; value = y }))
    split v4 v4 x y = ground arith
    split v4 v6 x y = ground arith
    split v6 v4 x y = ground arith
    split v6 v6 x y = ground arith
