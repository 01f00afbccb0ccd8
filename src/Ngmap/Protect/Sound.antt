-- ===== src/Ngmap/Protect/Sound.antt =====
-- What the protection checks of bin/ngmap.py guarantee.
use mathlib.Core.Path.{subst}
use nodeguard.Prelude.{
  ◌-◌, ◌^◌, ◌≡◌, refl, sym, ◌∙◌, ap, ◌↔◌, ◌⊎◌, inl, inr, true, false, ◌&&◌, Option, none, some,
  List, [], ◌∷◌, ◌++◌, arith, All, Bool-cases, leb, ltb, All-append,
}
use nodeguard.Net.{
  bits, Address, Network, IsNetwork, contains, subnet_of, same_version, same_version_iff,
  block_size, block_size_pos,
}
use nodeguard.Net.Ranges.{subnet_of_iff, contains_iff}
use nodeguard.Net.Nesting.{subnet_of_shared}
use nodeguard.Ngmap.Protect.{
  Reason, never_block_range, allow_entry, never_block, never_block-IsNetwork, first_within,
  first_holding, or_else, contains_protected, is_protected,
}

abbrev pub Avoids : Address → Network → Type 0
Avoids ip n = contains n ip ≡ false

first_holding-none :
    (why : Network → Reason) (ip : Address) (ns : List Network)
    → first_holding why ip ns ≡ none
    → All (Avoids ip) ns
unfolding first_holding contains
first_holding-none why ip [] h = tt
first_holding-none why ip (n ∷ ns) h = (ground arith, first_holding-none why ip ns (ground arith))

none-first_holding :
    (why : Network → Reason) (ip : Address) (ns : List Network)
    → All (Avoids ip) ns
    → first_holding why ip ns ≡ none
unfolding first_holding
none-first_holding why ip [] h = refl
none-first_holding why ip (n ∷ ns) h = ground (arith, h.0, none-first_holding why ip ns h.1)

-- For any address and allow list, `is_protected` returns None exactly for an address that is in no never-block range and in no
-- allow entry.
pub is_protected-none_iff :
    (ip : Address) (extra_nets : List Network)
    → (is_protected ip extra_nets ≡ none)
      ↔ (All (Avoids ip) never_block × All (Avoids ip) extra_nets)
unfolding is_protected
is_protected-none_iff ip extra_nets =
    split (first_holding-none never_block_range ip never_block)
      (none-first_holding never_block_range ip never_block)
  where
    split :
        {P : Type 0} {r : Option Reason}
        → (r ≡ none → P)
        → (P → r ≡ none)
        → (or_else r (first_holding allow_entry ip extra_nets) ≡ none)
          ↔ (P × All (Avoids ip) extra_nets)
    split {r = none} to from = (
      λ h. (to refl, first_holding-none allow_entry ip extra_nets h),
      λ h. none-first_holding allow_entry ip extra_nets h.1,
    )
    split {r = some r} to from = (λ h. cc, λ h. cc (from h.0))

abbrev pub first : Network → Address
first n = record { version = n.version; value = n.address }

-- A range that meets a network lies within it, or holds the network's first address.
within_or_holds :
    (n p : Network) (a : Address)
    → IsNetwork n
    → IsNetwork p
    → contains n a ≡ true
    → contains p a ≡ true
    → ((same_version p.version n.version && subnet_of p n) ≡ true) ⊎ (contains p (first n) ≡ true)
within_or_holds n p a hn hp cn cp =
    let (vn, _, _) = (contains_iff n a hn).0 cn in
    let (vp, _, _) = (contains_iff p a hp).0 cp in
    let inside = contains_iff n (first n) hn in
    elim (Bool-cases (leb n.prefixlen p.prefixlen)) [
      | inl longer ↦ inl (
          ground (
            arith,
            subnet_of_shared p n a hp hn cp cn (ground arith),
            same_version_iff p.version n.version,
          ))
      | inr shorter ↦ inr (
          (subnet_of_iff n p hn hp (vn ∙ sym vp)).0
            (subnet_of_shared n p a hn hp cn cp (ground arith)) (first n)
            (inside.1 (refl, omega arith, omega (arith, block_size_pos n.version n.prefixlen))))
    ]

first_within-none :
    (n : Network) (a : Address) (ps : List Network)
    → IsNetwork n
    → All IsNetwork ps
    → contains n a ≡ true
    → All (Avoids (first n)) ps
    → first_within n ps ≡ none
    → All (Avoids a) ps
unfolding first_within
first_within-none n a [] hn hp c av h = tt
first_within-none n a (p ∷ ps) hn hp c av h = (
  elim (Bool-cases (contains p a)) [
    | inl meets ↦ ground (arith, within_or_holds n p a hn hp.0 c meets)
    | inr apart ↦ apart
  ],
  first_within-none n a ps hn hp.1 c av.1 (ground arith),
)

-- No address of the network is in one of the ranges.
abbrev pub IsClear : Network → List Network → Type 0
IsClear n ranges = (a : Address) → contains n a ≡ true → All (Avoids a) ranges

only_address :
    (n : Network) (a : Address)
    → IsNetwork n
    → ltb n.prefixlen (bits n.version) ≡ false
    → contains n a ≡ true
    → a ≡ first n
unfolding block_size
only_address n a hn narrow c =
    let (v, lo, hi) = (contains_iff n a hn).0 c in
    let e : bits n.version - n.prefixlen ≡ 0 = ground arith in
    let one : block_size n.version n.prefixlen ≡ 1 = ap (λ k. 2 ^ k) e in ground (arith, one)

-- A network whose first address is unprotected, and which holds no protected range if it is wider
-- than one address, shares no address with any protected range.
pub checks-IsClear :
    (n : Network) (live : List Network)
    → IsNetwork n
    → All IsNetwork live
    → is_protected (first n) live ≡ none
    → (ltb n.prefixlen (bits n.version) ≡ true → contains_protected n live ≡ none)
    → IsClear n (never_block ++ live)
unfolding contains_protected
checks-IsClear n live hn hl unprotected holds_none a c =
    let (av, al) = (is_protected-none_iff (first n) live).0 unprotected in
    let avoided = All-append (Avoids (first n)) never_block live av al in
    elim (Bool-cases (ltb n.prefixlen (bits n.version))) [
      | inl wide ↦
          first_within-none n a (never_block ++ live) hn
            (All-append IsNetwork never_block live never_block-IsNetwork hl) c avoided
            (holds_none wide)
      | inr narrow ↦
          subst (λ b. All (Avoids b) (never_block ++ live)) (sym (only_address n a hn narrow c))
            avoided
    ]
