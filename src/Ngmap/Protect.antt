-- ===== src/Ngmap/Protect.antt =====
-- The protection checks of bin/ngmap.py: `NEVER_BLOCK`, `contains_protected`, `is_protected`.
pub mod Sound
use nodeguard.Prelude.{
  ℕ, ◌+◌, ◌-◌, ◌*◌, ◌^◌, ◌≤◌, ◌<◌, ◌≡◌, refl, ap, ◌≢◌, ◌↔◌, ◌⊎◌, inl, inr, Bool, true, false, ◌&&◌,
  ◌||◌, Option, none, some, List, [], ◌∷◌, ◌++◌, arith, ◌==◌, if◌then◌else◌, All, Bool-cases, any,
}
use nodeguard.Net.{
  Version, v4, v6, bits, Address, Network, IsNetwork, contains, subnet_of, same_version,
  same_version_iff, block_size,
}
use nodeguard.Net.Ranges.{subnet_of_iff}

-- `ip_network("a.b.c.d/p")` of a constant.
abbrev net4 : ℕ → ℕ → ℕ → ℕ → ℕ → Network
net4 a b c d p = record {
  version = v4;
  address = a * 2 ^ 24 + b * 2 ^ 16 + c * 2 ^ 8 + d;
  prefixlen = p;
}

-- `ip_network("hhhh::/p")` of a constant.
abbrev net6 : ℕ → ℕ → Network
net6 h p = record { version = v6; address = h * 2 ^ 112; prefixlen = p }

abbrev pub never_block : List Network
never_block =
    net4 0 0 0 0 8
    ∷ net4 127 0 0 0 8
    ∷ net4 10 0 0 0 8
    ∷ net4 172 16 0 0 12
    ∷ net4 192 168 0 0 16
    ∷ net4 100 64 0 0 10
    ∷ net4 169 254 0 0 16
    ∷ net4 224 0 0 0 4
    ∷ net4 255 255 255 255 32
    ∷ record { version = v6; address = 1; prefixlen = 128 }
    ∷ net6 0xfe80 10
    ∷ net6 0xfd00 8
    ∷ net6 0xff00 8
    ∷ []

-- The loop of `contains_protected` over a list of protected ranges.
first_within : Network → List Network → Option Network
first_within n [] = none
first_within n (p ∷ ps) =
    if same_version p.version n.version && subnet_of p n then some p else first_within n ps

unfoldable pub contains_protected : Network → List Network → Option Network
unfolding first_within
contains_protected n extra_nets = first_within n (never_block ++ extra_nets)

-- The text that `is_protected` returns, by what it names.
pub data Reason : Type 0 where
  never_block_range : Network → Reason
  allow_entry : Network → Reason

-- The loops of `is_protected`, with the reason that each gives.
first_holding : (Network → Reason) → Address → List Network → Option Reason
first_holding why ip [] = none
first_holding why ip (n ∷ ns) =
    if same_version n.version ip.version && contains n ip
    then some (why n)
    else first_holding why ip ns

or_else : Option Reason → Option Reason → Option Reason
or_else none next = next
or_else (some r) next = some r

unfoldable pub is_protected : Address → List Network → Option Reason
unfolding first_holding or_else
is_protected ip extra_nets =
    or_else (first_holding never_block_range ip never_block)
      (first_holding allow_entry ip extra_nets)

pub never_block-IsNetwork : All IsNetwork never_block
unfolding block_size
never_block-IsNetwork = omega arith
