-- ===== src/Tests/Commanding.antt =====
-- Runs of the other commands of bin/ngmap.py on the concrete host, and instances of their theorems.
use nodeguard.Prelude.{ℕ, ◌≡◌, refl, String, str_eq, if◌then◌else◌, none, some, List, [], ◌∷◌, ◌++◌}
use nodeguard.Prelude.Int.{pos}
use nodeguard.Net.{v4, Address, contains, block_size, network_of}
use nodeguard.Ngmap.Pack.{le_bytes, pack_u32, pack_u64, unpack_pair}
use nodeguard.Ngmap.Hex.{args_to_bytes, hex_token, int_16}
use nodeguard.Ngmap.Keys.{key_bytes, decode_key}
use nodeguard.Ngmap.Exec.{ok, raised, system_exit, port_out_of_range, ◌>>=◌, die_if, attempt}
use nodeguard.Ngmap.Host.{Host}
use nodeguard.Ngmap.Maps.{
  plain, bpftool, lookup_value, dump_map, dump_rows, listed, entries_of, row_entry, missed, found,
  update_map, delete_key, not_deleted, decode, unpack_entry, is_expired, mono_ns,
}
use nodeguard.Ngmap.Live.{allow_entries_live, networks_of, purge_one, purge_found, purge_expired}
use nodeguard.Ngmap.Protect.{is_protected}
use nodeguard.Ngmap.Sweep.{place, rank_from, rank, sweep_each}
use nodeguard.Ngmap.Report.{in_range, write_config, cmd_set_config}
use nodeguard.Ngmap.Report.Config.{Configured, cmd_set_config-Configured}
use nodeguard.Ngmap.Allow.{blockable, reason_for, cmd_allow_check, allow_check_status}
use nodeguard.Ngmap.Allow.Check.{Means, allow_check_status-Means}
use nodeguard.Tests.Kernel.{Kernel, host, holds, host-Laws, attacker}

abbrev quiet : Kernel
quiet = record { store = []; clock = 1000 }

-- What a run of the commands computes with.
runs : Unit {0}
unfolding hex_token int_16 allow_entries_live networks_of dump_map dump_rows listed bpftool
    entries_of row_entry is_protected contains block_size network_of lookup_value missed found
    update_map delete_key not_deleted decode decode_key key_bytes args_to_bytes unpack_entry
    is_expired unpack_pair mono_ns purge_one purge_found purge_expired place rank_from rank
    sweep_each in_range write_config cmd_set_config pack_u32 pack_u64 reason_for cmd_allow_check
    ◌>>=◌ die_if attempt
runs = tt

abbrev scores : List (String × ℕ)
scores = ("a", 3) ∷ ("b", 9) ∷ ("c", 3) ∷ ("d", 1) ∷ []

-- Equal entries stay in their order.
ranked : rank scores ≡ ("b", 9) ∷ ("a", 3) ∷ ("c", 3) ∷ ("d", 1) ∷ []
unfolding runs
ranked = refl

abbrev block4 : String
block4 = "/sys/fs/bpf/nodeguard/block4"

-- An expired entry that is no longer there counts as live: its purge reports nothing deleted.
swept_elsewhere :
    (sweep_each host block4 1000
      ((key_bytes attacker, plain (le_bytes 8 900 ++ le_bytes 8 5)) ∷ [])
      quiet).0
    ≡ ok (record { swept = 0; live = 1; hits = (attacker, 5) ∷ [] })
unfolding runs
swept_elsewhere = refl

port_set : (cmd_set_config host (pos 0) (pos 51820) quiet).0 ≡ ok tt
unfolding runs
port_set = refl

port_refused :
    (cmd_set_config host (pos 0) (pos 65536) quiet).0 ≡ raised (system_exit port_out_of_range)
unfolding runs
port_refused = refl

cmd_set_config-Configured_example : Configured host holds host-Laws (pos 0) (pos 51820) quiet
cmd_set_config-Configured_example =
    cmd_set_config-Configured host holds host-Laws (pos 0) (pos 51820) quiet port_set

abbrev attacker_address : Address
attacker_address = record { version = v4; value = 3405803783 }

abbrev parsing : Host
parsing = record host {
  ip_address = λ t. if str_eq t "203.0.113.7" then some attacker_address else none;
}

checked_out : (cmd_allow_check parsing "203.0.113.7" quiet).0 ≡ ok blockable
unfolding runs
checked_out = refl

status_of_attacker : allow_check_status parsing "203.0.113.7" quiet ≡ 1
unfolding runs allow_check_status
status_of_attacker = refl

allow_check_status-Means_example :
    Means
      (allow_entries_live parsing quiet).0
      (parsing.ip_address "203.0.113.7")
      (allow_check_status parsing "203.0.113.7" quiet)
allow_check_status-Means_example = allow_check_status-Means parsing "203.0.113.7" quiet
