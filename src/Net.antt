-- ===== src/Net.antt =====
-- Addresses and networks, as Python's `ipaddress` gives them to bin/ngmap.py, bin/nodeguard-feeds
-- and bin/nodeguard-responder: an address is a number of 32 or 128 bits, and a network is its lowest
-- address with a prefix length. Texts of addresses are parsed by a parameter of the model.
pub mod Ranges
pub mod Nesting
use nodeguard.Prelude.{
  ℕ, ◌+◌, ◌-◌, ◌*◌, ◌/◌, ◌^◌, ◌≤◌, ◌<◌, ◌≡◌, refl, ap, ◌≢◌, ◌↔◌, Bool, true, false, ◌&&◌, Option,
  none, some, arith, leb, ◌==◌, ==_iff, if◌then◌else◌, pow_pos,
}

pub data Version : Type 0 where
  v4 v6 : Version

abbrev pub same_version : Version → Version → Bool
same_version v4 v4 = true
same_version v6 v6 = true
same_version _ _ = false

pub same_version_iff : (v w : Version) → (same_version v w ≡ true) ↔ (v ≡ w)
same_version_iff v4 v4 = ground arith
same_version_iff v4 v6 = ground arith
same_version_iff v6 v4 = ground arith
same_version_iff v6 v6 = ground arith

-- `max_prefixlen`
abbrev pub bits : Version → ℕ
bits v4 = 32
bits v6 = 128

-- `IPv4Address`, `IPv6Address`
pub record Address : Type 0 where
  pub version : Version
  pub value : ℕ

-- `IPv4Network`, `IPv6Network`; `address` is `network_address` as a number.
pub record Network : Type 0 where
  pub version : Version
  pub address : ℕ
  pub prefixlen : ℕ

-- How many addresses share a prefix of that length.
unfoldable pub block_size : Version → ℕ → ℕ
block_size v p = 2 ^ (bits v - p)

pub block_size_pos : (v : Version) (p : ℕ) → 0 < block_size v p
unfolding block_size
block_size_pos v p = pow_pos (bits v - p)

abbrev pub size : Network → ℕ
size n = block_size n.version n.prefixlen

-- `ip_network(f"{addr}/{prefixlen}", strict=False)`: the host bits are cleared, and a prefix longer
-- than the address is a ValueError.
unfoldable pub network_of : Version → ℕ → ℕ → Option Network
network_of v a p =
    if leb p (bits v)
    then some (record { version = v; address = a / block_size v p * block_size v p; prefixlen = p })
    else none

-- `ip_network(addr)` of a bare address: a host route.
unfoldable pub host_route : Address → Network
host_route a = record { version = a.version; address = a.value; prefixlen = bits a.version }

-- `addr in net`: the address under the network's mask is the network's address.
unfoldable pub contains : Network → Address → Bool
contains n a = same_version n.version a.version && (a.value / size n * size n == n.address)

-- `a.subnet_of(b)`, which the code calls only at networks of one version.
unfoldable pub subnet_of : Network → Network → Bool
subnet_of a b = leb b.address a.address && leb (a.address + size a - 1) (b.address + size b - 1)

abbrev pub network_eq : Network → Network → Bool
network_eq m n =
    same_version m.version n.version && m.address == n.address && m.prefixlen == n.prefixlen

pub network_eq_iff : (m n : Network) → (network_eq m n ≡ true) ↔ (m ≡ n)
network_eq_iff m n = ground (arith, same_version_iff m.version n.version)

-- What the constructor of a network establishes.
pub record IsNetwork (n : Network) : Type 0 where
  pub prefix_fits : n.prefixlen ≤ bits n.version
  pub aligned : n.address / size n * size n ≡ n.address
  pub in_range : n.address < 2 ^ bits n.version

pub record IsAddress (a : Address) : Type 0 where
  pub in_range : a.value < 2 ^ bits a.version
