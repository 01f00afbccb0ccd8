-- ===== src/Ngmap/Block.antt =====
-- `cmd_block`, `cmd_unblock` and `cmd_flush` of bin/ngmap.py.
pub mod Guards
pub mod Run
pub mod Effect
pub mod Others
use nodeguard.Prelude.{
  ℕ, ◌+◌, ◌-◌, ◌*◌, ◌^◌, ◌≤◌, String, ◌≡◌, refl, Bool, true, false, not, ◌&&◌, ◌||◌, Option, none,
  some, List, [], ◌∷◌, ◌++◌, if◌then◌else◌, ltb, leb, ◌==◌, str_eq,
}
use nodeguard.Prelude.Int.{ℤ, pos, negsuc}
use nodeguard.Net.{Version, v4, v6, bits, Network, Address}
use nodeguard.Ngmap.Pack.{Bytes, unpack_pair, pack_pair}
use nodeguard.Ngmap.Keys.{key_bytes}
use nodeguard.Ngmap.Protect.{Reason, contains_protected, is_protected}
use nodeguard.Ngmap.Exec.{
  Exec, Result, ok, raised, Error, struct_error, Refusal, prefix_too_short, permanent_unconfirmed,
  ttl_not_positive, protected_target, contains_range, expiry_past_u64, already_permanent, pure,
  raise, die, die_if, or_raise, attempt, ◌>>=◌, ◌>>◌,
}
use nodeguard.Ngmap.Host.{Host}
use nodeguard.Ngmap.Maps.{
  map_path, is_expired, mono_ns, parse_net, lookup_value, update_map, delete_key, runtime_message,
}
use nodeguard.Ngmap.Live.{purge_contained_expired, allow_entries_live}

-- The parsed options of `ngmap.py block`.
pub record BlockArgs : Type 0 where
  pub target : String
  pub ttl : ℤ
  pub permanent : Bool
  pub i_mean_it : Bool

-- What the command prints, as data.
pub record Blocked : Type 0 where
  pub net : Network
  pub purged : ℕ
  pub purge_failed : Bool

abbrev pub u64_max : ℕ
u64_max = 2 ^ 64 - 1

abbrev pub ttl_positive : ℤ → Bool
ttl_positive (pos n) = ltb 0 n
ttl_positive (negsuc n) = false

abbrev pub seconds : ℤ → ℕ
seconds (pos n) = n
seconds (negsuc n) = 0

abbrev pub min_len : Network → ℕ
min_len n = elim n.version [ v4 ↦ 8 | v6 ↦ 32 ]

abbrev pub is_wide : Network → Bool
is_wide n = ltb n.prefixlen (bits n.version)

module _ (h : Host) where
  open h use {World, lock, unlock}

  -- The refusals that need no map.
  unfoldable pub check_args : BlockArgs → Network → Exec World (Unit {0})
  check_args a net = do
    die_if (ltb net.prefixlen (min_len net) && not a.i_mean_it) prefix_too_short
    die_if (a.permanent && not a.i_mean_it) permanent_unconfirmed
    die_if (not a.permanent && not (ttl_positive a.ttl)) ttl_not_positive

  unfoldable pub check_contained : Network → Exec World (Unit {0})
  check_contained net = do
    live ← allow_entries_live h
    elim (contains_protected net live) [ none ↦ pure tt | some p ↦ die (contains_range p) ]

  -- `is_protected(net.network_address, ...)`, then `contains_protected` of a net that is no host route.
  unfoldable pub check_protected : Network → Exec World (Unit {0})
  check_protected net = do
    live ← allow_entries_live h
    elim (is_protected (record { version = net.version; value = net.address }) live) [
      | some reason ↦ die (protected_target reason)
      | none ↦ if is_wide net then check_contained net else pure tt
    ]

  -- 0 for a permanent block.
  unfoldable pub expiry_of : BlockArgs → Exec World ℕ
  expiry_of a =
      if a.permanent then pure 0 else do now ← mono_ns h; pure (now + seconds a.ttl * 10 ^ 9)

  -- The hit count to carry over from the entry that is there, if it still enforces.
  unfoldable pub carried_hits : BlockArgs → Option Bytes → Exec World ℕ
  carried_hits a none = pure 0
  carried_hits a (some cur) = do
    (cur_expiry, cur_hits) ← or_raise struct_error (unpack_pair cur)
    live ← (if cur_expiry == 0 then pure true else do now ← mono_ns h; pure (ltb now cur_expiry))
    if live
        then (do die_if (cur_expiry == 0 && not a.i_mean_it) already_permanent; pure cur_hits)
        else pure 0

  -- `except RuntimeError` round the purge: the block stands, and the failure is printed.
  unfoldable pub purge_error : Network → Error → Exec World Blocked
  purge_error net e = elim (runtime_message e) [
    | some m ↦ pure (record { net = net; purged = 0; purge_failed = true })
    | none ↦ raise e
  ]

  unfoldable pub purged_count : Network → ℕ → Exec World Blocked
  purged_count net n = pure (record { net = net; purged = n; purge_failed = false })

  unfoldable pub purge_after : Network → Exec World Blocked
  purge_after net =
      if is_wide net
      then attempt (purge_contained_expired h (map_path net "block") net none) (purged_count net)
          (purge_error net)
      else purged_count net 0

  -- What runs while the lock is held.
  unfoldable pub write_block : BlockArgs → Network → ℕ → Exec World Blocked
  write_block a net expiry = do
    cur ← lookup_value h (map_path net "block") (key_bytes net)
    hits ← carried_hits a cur
    value ← or_raise struct_error (pack_pair expiry hits)
    update_map h (map_path net "block") (key_bytes net) value
    purge_after net

  -- `try: ... finally: lock.close()`
  abbrev pub locked : {A : Type 0} → Exec World A → Exec World A
  locked m w = let (r, w') = m (lock w) in (r, unlock w')

  unfoldable pub cmd_block : BlockArgs → Exec World Blocked
  cmd_block a = do
    net ← parse_net h a.target
    check_args a net
    check_protected net
    expiry ← expiry_of a
    die_if (ltb u64_max expiry) expiry_past_u64
    locked (write_block a net expiry)

  -- True for "unblocked", False for "was not blocked". No lock is taken.
  unfoldable pub cmd_unblock : String → Exec World Bool
  cmd_unblock target = do
    net ← parse_net h target
    delete_key h (map_path net "block") (key_bytes net)
