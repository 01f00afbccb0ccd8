-- ===== src/Ngmap/Maps.antt =====
-- The map operations of bin/ngmap.py, from `bpftool` up to `allow_entries_live`.
pub mod Reads
pub mod Writes
use Prim.Native.String.{◌++◌ as ◌<>◌}
use text.Mathlib.Text.{find?}
use nodeguard.Prelude.{
  ℕ, ◌+◌, ◌≤◌, String, ◌≡◌, refl, ◌≢◌, Bool, true, false, not, ◌&&◌, ◌||◌, Option, none, some, List,
  [], ◌∷◌, ◌++◌, if◌then◌else◌, ltb, leb, ◌==◌, length,
}
use nodeguard.Net.{Version, v4, v6, Address, Network, same_version, subnet_of}
use nodeguard.Ngmap.Pack.{Bytes, unpack_pair, pack_pair, unpack_u32, unpack_u64}
use nodeguard.Ngmap.Hex.{bytes_to_args, args_to_bytes}
use nodeguard.Ngmap.Keys.{key_bytes, decode_key}
use nodeguard.Ngmap.Exec.{
  Exec, Result, ok, raised, Error, runtime, timeout, value_error, type_error, struct_error,
  os_error, not_an_ip, pure, raise, die, or_raise, ◌>>=◌, ◌>>◌, attempt, map_each,
}
use nodeguard.Ngmap.Host.{
  Host, Call, map_lookup, map_dump, map_update, map_delete, command_line, Row, single, percpu,
  neither, Reply, entry, rows, done, failed, timed_out, not_executable, garbled,
}

-- PIN
abbrev pub pin : String
pin = "/sys/fs/bpf/nodeguard"

-- `text in message`
unfoldable pub mentions : String → String → Bool
mentions text message = elim (find? message text) [ none ↦ false | some _ ↦ true ]

-- The text of an exception that `except RuntimeError` catches.
abbrev pub runtime_message : Error → Option String
runtime_message (runtime m) = some m
runtime_message (timeout m) = some m
runtime_message _ = none

-- f"{PIN}/{kind}{4 or 6}"
unfoldable pub map_path : Network → String → String
map_path n kind = pin <> "/" <> kind <> elim n.version [ v4 ↦ "4" | v6 ↦ "6" ]

-- A value of a dump: bytes, or one byte string for each CPU.
pub data Value : Type 0 where
  plain : Bytes → Value
  each_cpu : List Bytes → Value

abbrev pub no_such_file : String
no_such_file = "No such file"

-- INVARIANT: the exits of `delete_key` that say the key is gone.
abbrev pub key_gone : String → Bool
key_gone m = mentions "No such file or directory" m || mentions "ENOENT" m

abbrev pub not_pinned : String → Error
not_pinned path = runtime ("map " <> path <> " is not pinned; is nodeguard-maps.service running?")

-- `expiry and now >= expiry`
unfoldable pub is_expired : ℕ → ℕ → Bool
is_expired now expiry = not (expiry == 0) && leb expiry now

module _ (h : Host) where
  open h use {World, run, monotonic_ns, path_exists, ip_network}

  unfoldable pub bpftool : Call → Exec World Reply
  bpftool c w =
      let (o, w') = run c w in
      elim o [
        | done r ↦ (ok r, w')
        | failed stderr ↦ (raised (runtime (command_line c <> ": " <> stderr)), w')
        | timed_out limit ↦
            (raised (timeout (command_line c <> ": no answer in " <> limit <> "s")), w')
        | not_executable text ↦
            (raised (runtime ("cannot execute /usr/sbin/bpftool: " <> text)), w')
        | garbled ↦ (raised value_error, w')
      ]

  unfoldable pub mono_ns : Exec World ℕ
  mono_ns w = let (now, w') = monotonic_ns w in (ok now, w')

  unfoldable pub parse_net : String → Exec World Network
  parse_net text w = elim (ip_network text) [ none ↦ die (not_an_ip text) w | some n ↦ (ok n, w) ]

  -- The handlers of `lookup_value`: a timeout goes on, and any other RuntimeError is an absent key
  -- where the map is pinned.
  unfoldable pub missed : String → Error → Exec World (Option Bytes)
  missed path (runtime m) w = if path_exists w path then (ok none, w) else (raised (runtime m), w)
  missed path e w = (raised e, w)

  unfoldable pub found : Reply → Exec World (Option Bytes)
  found (entry v) = do b ← or_raise value_error (args_to_bytes v); pure (some b)
  found _ = pure none

  unfoldable pub lookup_value : String → Bytes → Exec World (Option Bytes)
  lookup_value path key =
      attempt (bpftool (map_lookup path (bytes_to_args key))) found (missed path)

  -- The handler of `dump_map`.
  pub dump_error : String → Error → Error
  dump_error path e = elim (runtime_message e) [
    | none ↦ e
    | some m ↦ if mentions no_such_file m then not_pinned path else e
  ]

  unfoldable pub listed : Reply → Exec World (List Row)
  listed (rows rs) = pure rs
  listed _ = raise type_error

  -- The objects that `dump_map` goes through.
  unfoldable pub dump_rows : String → Exec World (List Row)
  dump_rows path = attempt (bpftool (map_dump path)) listed (λ e. raise (dump_error path e))

  -- What `dump_map` yields for one object: nothing if it has neither "value" nor "values".
  unfoldable pub row_entry : Row → Exec World (List (Bytes × Value))
  row_entry (single k v) = do
    key ← or_raise value_error (args_to_bytes k)
    value ← or_raise value_error (args_to_bytes v)
    pure ((key, plain value) ∷ [])
  row_entry (percpu k vs) = do
    key ← or_raise value_error (args_to_bytes k)
    values ← map_each (λ v. or_raise value_error (args_to_bytes v)) vs
    pure ((key, each_cpu values) ∷ [])
  row_entry neither = pure []

  unfoldable pub entries_of : List Row → Exec World (List (Bytes × Value))
  entries_of [] = pure []
  entries_of (r ∷ rs) = do e ← row_entry r; es ← entries_of rs; pure (e ++ es)

  unfoldable pub dump_map : String → Exec World (List (Bytes × Value))
  dump_map path = do rs ← dump_rows path; entries_of rs

  unfoldable pub update_map : String → Bytes → Bytes → Exec World (Unit {0})
  update_map path key value = do
    bpftool (map_update path (bytes_to_args key) (bytes_to_args value))
    pure tt

  -- The handler of `delete_key`: False for a key that is already gone.
  unfoldable pub not_deleted : String → Error → Exec World Bool
  not_deleted path e w = elim (runtime_message e) [
    | none ↦ (raised e, w)
    | some m ↦
        if key_gone m
        then (if path_exists w path then (ok false, w) else (raised (not_pinned path), w))
        else (raised e, w)
  ]

  unfoldable pub delete_key : String → Bytes → Exec World Bool
  delete_key path key =
      attempt (bpftool (map_delete path (bytes_to_args key))) (λ _. pure true) (not_deleted path)

  -- `decode_key(raw)`, where `struct.unpack` raises on a key of fewer than four bytes.
  unfoldable pub decode : Bytes → Exec World Network
  decode raw =
      if ltb (length raw) 4 then raise struct_error else or_raise value_error (decode_key raw)

  -- `struct.unpack("<QQ", v)`
  unfoldable pub unpack_entry : Value → Exec World (ℕ × ℕ)
  unpack_entry (plain b) = or_raise struct_error (unpack_pair b)
  unpack_entry (each_cpu _) = raise type_error
