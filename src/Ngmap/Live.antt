-- ===== src/Ngmap/Live.antt =====
-- Readings of whole maps and files in bin/ngmap.py: `expired_entries`, `purge_contained_expired`,
-- `allow_entries_live` and `load_allow_files`.
pub mod Networks
pub mod Purge
pub mod Corpses
use Prim.Native.Char.{code}
use Prim.Native.String.{◌++◌ as ◌<>◌}
use nodeguard.Prelude.{
  ℕ, ◌+◌, ◌≤◌, String, ◌≡◌, refl, Bool, true, false, not, ◌&&◌, ◌||◌, Option, none, some, List, [],
  ◌∷◌, ◌++◌, if◌then◌else◌, ltb, leb, ◌==◌, str_eq,
}
use nodeguard.Prelude.Text.{strip, before_hash}
use nodeguard.Net.{Version, v4, v6, Network, same_version, subnet_of}
use nodeguard.Ngmap.Pack.{Bytes, unpack_pair}
use nodeguard.Ngmap.Keys.{key_bytes}
use nodeguard.Ngmap.Exec.{
  Exec, Error, struct_error, allow_file_missing, pure, raise, die, or_raise, ◌>>=◌, ◌>>◌,
}
use nodeguard.Ngmap.Host.{Host}
use nodeguard.Ngmap.Maps.{
  pin, Value, is_expired, mono_ns, parse_net, lookup_value, dump_map, delete_key, decode,
  unpack_entry,
}

-- line.split("#", 1)[0].strip()
unfoldable pub uncomment : String → String
unfolding strip before_hash
uncomment line = strip (before_hash line)

module _ (h : Host) where
  open h use {World, read_lines}

  unfoldable pub expired_of : ℕ → List (Bytes × Value) → Exec World (List Network)
  expired_of now [] = pure []
  expired_of now ((k, v) ∷ es) = do
    (expiry, _) ← unpack_entry h v
    here ← (if is_expired now expiry then (do n ← decode h k; pure (n ∷ [])) else pure [])
    rest ← expired_of now es
    pure (here ++ rest)

  unfoldable pub expired_entries : String → Exec World (List Network)
  expired_entries path = do now ← mono_ns h; es ← dump_map h path; expired_of now es

  -- The guards of the purge loop: a candidate strictly inside the network just written.
  unfoldable pub is_contained : Network → Network → Bool
  is_contained net cand =
      same_version cand.version net.version
      && ltb net.prefixlen cand.prefixlen
      && subnet_of cand net

  unfoldable pub purge_expired : String → Bytes → Exec World ℕ
  purge_expired path key = do gone ← delete_key h path key; pure (if gone then 1 else 0)

  unfoldable pub purge_found : String → ℕ → Bytes → Option Bytes → Exec World ℕ
  purge_found path now key none = pure 0
  purge_found path now key (some value) = do
    (expiry, _) ← or_raise struct_error (unpack_pair value)
    if is_expired now expiry then purge_expired path key else pure 0

  -- One round of the purge loop, and of the sweep: whether the entry under the key went, as 0 or 1.
  unfoldable pub purge_one : String → ℕ → Bytes → Exec World ℕ
  purge_one path now key = do cur ← lookup_value h path key; purge_found path now key cur

  unfoldable pub purge_each : String → Network → ℕ → List Network → Exec World ℕ
  purge_each path net now [] = pure 0
  purge_each path net now (cand ∷ rest) = do
    here ← (if is_contained net cand then purge_one path now (key_bytes cand) else pure 0)
    later ← purge_each path net now rest
    pure (here + later)

  unfoldable pub candidates_of : String → Option (List Network) → Exec World (List Network)
  candidates_of path none = expired_entries path
  candidates_of path (some cs) = pure cs

  -- `candidates` defaults to the map's own expired entries.
  unfoldable pub purge_contained_expired : String → Network → Option (List Network) → Exec World ℕ
  purge_contained_expired path net candidates = do
    cands ← candidates_of path candidates
    now ← mono_ns h
    purge_each path net now cands

  unfoldable pub networks_of : List (Bytes × Value) → Exec World (List Network)
  networks_of [] = pure []
  networks_of ((k, _) ∷ es) = do n ← decode h k; ns ← networks_of es; pure (n ∷ ns)

  unfoldable pub allow_entries_live : Exec World (List Network)
  allow_entries_live = do
    four ← dump_map h (pin <> "/allow4")
    nets4 ← networks_of four
    six ← dump_map h (pin <> "/allow6")
    nets6 ← networks_of six
    pure (nets4 ++ nets6)

  parse_lines : List String → Exec World (List Network)
  parse_lines [] = pure []
  parse_lines (line ∷ lines) = do
    here ←
        (if str_eq (uncomment line) ""
          then pure []
          else do n ← parse_net h (uncomment line); pure (n ∷ []))
    rest ← parse_lines lines
    pure (here ++ rest)

  -- `with open(path) as f: for line in f`
  read_allow_file : String → Exec World (List Network)
  unfolding parse_lines
  read_allow_file path w = elim (read_lines w path) [
    | none ↦ die (allow_file_missing path) w
    | some ls ↦ parse_lines ls w
  ]

  unfoldable pub load_allow_files : List String → Exec World (List Network)
  unfolding read_allow_file
  load_allow_files [] = pure []
  load_allow_files (path ∷ paths) = do
    here ← read_allow_file path
    rest ← load_allow_files paths
    pure (here ++ rest)
