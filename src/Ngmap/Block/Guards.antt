-- ===== src/Ngmap/Block/Guards.antt =====
-- A block that was written covers no protected address.
use nodeguard.Prelude.{◌≡◌, true, none, List, ◌++◌, arith}
use nodeguard.Net.{Network, IsNetwork}
use nodeguard.Ngmap.Protect.{never_block, contains_protected, is_protected}
use nodeguard.Ngmap.Protect.Sound.{IsClear, checks-IsClear, first}
use nodeguard.Ngmap.Exec.{ok, ◌>>=◌}
use nodeguard.Ngmap.Host.{Host}
use nodeguard.Ngmap.Live.{allow_entries_live}
use nodeguard.Ngmap.Live.Networks.{allow_entries_live-IsNetwork}
use nodeguard.Ngmap.Block.{check_protected, check_contained, is_wide}

module _ (h : Host) where
  open h use {World, ip_network}

  check_contained-none :
      (net : Network) (live : List Network) (w : World) {u : Unit {0}}
      → (allow_entries_live h w).0 ≡ ok live
      → (check_contained h net w).0 ≡ ok u
      → contains_protected net live ≡ none
  unfolding check_contained ◌>>=◌
  check_contained-none net live w reads done = ground arith

  check_protected-none :
      (net : Network) (live : List Network) (w : World) {u : Unit {0}}
      → (allow_entries_live h w).0 ≡ ok live
      → (check_protected h net w).0 ≡ ok u
      → is_protected (first net) live ≡ none
  unfolding check_protected ◌>>=◌
  check_protected-none net live w reads done = ground arith

  check_protected-wide :
      (net : Network) (live : List Network) (w : World) {u : Unit {0}}
      → is_wide net ≡ true
      → (allow_entries_live h w).0 ≡ ok live
      → (check_protected h net w).0 ≡ ok u
      → (check_contained h net (allow_entries_live h w).1).0 ≡ ok u
  unfolding check_protected ◌>>=◌
  check_protected-wide net live w wide reads done =
      ground (arith, check_protected-none net live w reads done)

  -- When the protection checks let a network through, it is clear of every protected range, if both
  -- reads of the live allow maps saw the same list.
  pub check_protected-IsClear :
      (net : Network) (live : List Network) (w : World) {u : Unit {0}}
      → IsNetwork net
      → (allow_entries_live h w).0 ≡ ok live
      → (allow_entries_live h (allow_entries_live h w).1).0 ≡ ok live
      → (check_protected h net w).0 ≡ ok u
      → IsClear net (never_block ++ live)
  check_protected-IsClear net live w hn reads again done =
      checks-IsClear net live hn ((allow_entries_live-IsNetwork h).at w live reads)
        (check_protected-none net live w reads done)
        (λ wide.
          check_contained-none net live (allow_entries_live h w).1 again
            (check_protected-wide net live w wide reads done))
