-- ===== src/Ngmap/Report.antt =====
-- The commands of bin/ngmap.py that print what the maps hold, `cmd_flush`, and the config map.
pub mod Config
use Prim.Native.String.{◌++◌ as ◌<>◌}
use nodeguard.Prelude.{
  ℕ, ◌+◌, ◌-◌, ◌*◌, ◌/◌, ◌^◌, String, Bool, true, false, not, ◌&&◌, ◌||◌, Option, none, some, List,
  [], ◌∷◌, ◌++◌, if◌then◌else◌, leb, ltb, ◌==◌, length,
}
use nodeguard.Prelude.Int.{ℤ, pos, negsuc}
use nodeguard.Prelude.Dict.{Dict, insert}
use nodeguard.Net.{Network}
use nodeguard.Ngmap.Pack.{Bytes, pack_u32, pack_u64, unpack_u32, unpack_u64}
use nodeguard.Ngmap.Exec.{
  Exec, Error, struct_error, type_error, slot_not_found, slot_out_of_range, value_out_of_range,
  port_out_of_range, pure, raise, die, die_if, or_raise, ◌>>=◌, ◌>>◌,
}
use nodeguard.Ngmap.Host.{Host}
use nodeguard.Ngmap.Maps.{
  pin, Value, plain, each_cpu, mono_ns, dump_map, update_map, delete_key, decode, unpack_entry,
}
use nodeguard.Ngmap.Live.{allow_entries_live}
use nodeguard.Ngmap.Block.{u64_max}

-- The remaining time of a block, as `cmd_list` prints it.
pub data Left : Type 0 where
  permanent expired : Left
  seconds : ℕ → Left

unfoldable pub ttl_left : ℕ → ℕ → Left
ttl_left now expiry =
    if expiry == 0
    then permanent
    else if leb expiry now
    then expired
    else seconds ((expiry - now) / 10 ^ 9)

-- A row of the listing.
pub record Listed : Type 0 where
  pub net : Network
  pub left : Left
  pub hits : ℕ

abbrev pub u32_max : ℕ
u32_max = 2 ^ 32 - 1

-- `0 <= n <= most`, with the number if so.
unfoldable pub in_range : ℕ → ℤ → Option ℕ
in_range most (pos n) = if leb n most then some n else none
in_range most (negsuc n) = none

-- STAT_NAMES
abbrev pub stat_names : List String
stat_names =
    "pass" ∷ "drop_v4" ∷ "drop_v6" ∷ "pass_expired" ∷ "pass_allowlist" ∷ "pass_wgport"
    ∷ "pass_nonip" ∷ "pass_parsefail" ∷ []

-- STATS2_NAMES
abbrev pub stats2_names : List String
stats2_names =
    "tcp_synfin" ∷ "tcp_synrst" ∷ "tcp_null" ∷ "tcp_xmas" ∷ "ttl_low" ∷ "frag_v4" ∷ "frag_v6" ∷ []

-- `names[idx]` where `idx < len(names)`
unfoldable pub name_at : List String → ℕ → Option String
name_at [] i = none
name_at (n ∷ ns) i = let rest = name_at ns (i - 1) in if i == 0 then some n else rest

abbrev pub bad_port : ℕ → ℕ → Bool
bad_port slot value = slot == 0 && not (leb 1 value && leb value 65535)

module _ (h : Host) where
  open h use {World}

  unfoldable pub list_rows : ℕ → List (Bytes × Value) → Exec World (List Listed)
  list_rows now [] = pure []
  list_rows now ((k, v) ∷ es) = do
    net ← decode h k
    (expiry, hits) ← unpack_entry h v
    rest ← list_rows now es
    pure (record { net = net; left = ttl_left now expiry; hits = hits } ∷ rest)

  unfoldable pub cmd_list : Exec World (List Listed)
  cmd_list = do
    now ← mono_ns h
    four ← dump_map h (pin <> "/block4")
    rows4 ← list_rows now four
    six ← dump_map h (pin <> "/block6")
    rows6 ← list_rows now six
    pure (rows4 ++ rows6)

  unfoldable pub flush_each : String → List (Bytes × Value) → Exec World ℕ
  flush_each path [] = pure 0
  flush_each path ((k, v) ∷ es) = do
    gone ← delete_key h path k
    later ← flush_each path es
    pure ((if gone then 1 else 0) + later)

  unfoldable pub cmd_flush : Exec World ℕ
  cmd_flush = do
    four ← dump_map h (pin <> "/block4")
    n4 ← flush_each (pin <> "/block4") four
    six ← dump_map h (pin <> "/block6")
    n6 ← flush_each (pin <> "/block6") six
    pure (n4 + n6)

  -- `sum(struct.unpack("<Q", v)[0] for v in vals)`
  unfoldable pub sum_cpus : List Bytes → Exec World ℕ
  sum_cpus [] = pure 0
  sum_cpus (v ∷ vs) = do
    n ← or_raise struct_error (unpack_u64 v)
    rest ← sum_cpus vs
    pure (n + rest)

  -- A plain value is iterated by bytes, which are no byte strings.
  unfoldable pub total_of : Value → Exec World ℕ
  total_of (plain []) = pure 0
  total_of (plain (b ∷ bs)) = raise type_error
  total_of (each_cpu vs) = sum_cpus vs

  abbrev pub named : List String → ℕ → ℕ → Dict ℕ → Dict ℕ
  named names idx total out = elim (name_at names idx) [ none ↦ out | some n ↦ insert n total out ]

  unfoldable pub total_each : List String → List (Bytes × Value) → Dict ℕ → Exec World (Dict ℕ)
  total_each names [] out = pure out
  total_each names ((k, v) ∷ es) out = do
    idx ← or_raise struct_error (unpack_u32 k)
    total ← total_of v
    total_each names es (named names idx total out)

  unfoldable pub percpu_totals : String → List String → Exec World (Dict ℕ)
  percpu_totals path names = do es ← dump_map h path; total_each names es []

  unfoldable pub cmd_stats : Exec World (Dict ℕ)
  cmd_stats = percpu_totals (pin <> "/stats") stat_names

  unfoldable pub cmd_stats2 : Exec World (Dict ℕ)
  cmd_stats2 = percpu_totals (pin <> "/stats2") stats2_names

  abbrev pub is_slot : ℤ → ℕ → Bool
  is_slot (pos n) i = n == i
  is_slot (negsuc n) i = false

  -- `struct.unpack("<Q", v)[0]` of a value of the config map.
  unfoldable pub config_value : Value → Exec World ℕ
  config_value (plain b) = or_raise struct_error (unpack_u64 b)
  config_value (each_cpu _) = raise type_error

  unfoldable pub find_slot : ℤ → List (Bytes × Value) → Exec World ℕ
  find_slot slot [] = die slot_not_found
  find_slot slot ((k, v) ∷ es) = do
    i ← or_raise struct_error (unpack_u32 k)
    if is_slot slot i then config_value v else find_slot slot es

  unfoldable pub cmd_get_config : ℤ → Exec World ℕ
  cmd_get_config slot = do es ← dump_map h (pin <> "/config"); find_slot slot es

  -- After the range checks.
  unfoldable pub write_config : ℕ → ℕ → Exec World (Unit {0})
  write_config slot value = do
    die_if (bad_port slot value) port_out_of_range
    k ← or_raise struct_error (pack_u32 slot)
    v ← or_raise struct_error (pack_u64 value)
    update_map h (pin <> "/config") k v

  unfoldable pub cmd_set_config : ℤ → ℤ → Exec World (Unit {0})
  cmd_set_config slot value = elim (in_range u32_max slot) [
    | none ↦ die slot_out_of_range
    | some s ↦ elim (in_range u64_max value) [
      | none ↦ die value_out_of_range
      | some v ↦ write_config s v
    ]
  ]

  -- The networks that `cmd_allow_dump` prints.
  abbrev pub cmd_allow_dump : Exec World (List Network)
  cmd_allow_dump = allow_entries_live h
