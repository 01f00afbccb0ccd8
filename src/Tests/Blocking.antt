-- ===== src/Tests/Blocking.antt =====
-- Runs of the block command on the concrete host, and instances of its theorems.
use mathlib.Core.Path.{subst}
use nodeguard.Prelude.{
  ℕ, ◌≡◌, ◌≢◌, ◌↔◌, refl, sym, ap, All, String, arith, false, Option, none, some, List, [], ◌∷◌,
  ◌++◌,
}
use nodeguard.Prelude.Int.{pos}
use nodeguard.Net.{v4, Address, Network, IsNetwork, contains, subnet_of, network_of, block_size}
use nodeguard.Ngmap.Pack.{le_bytes, pack_pair, unpack_pair}
use nodeguard.Ngmap.Hex.{
  bytes_to_args, args_to_bytes, args_to_bytes-bytes_to_args, hex_token, int_16,
}
use nodeguard.Ngmap.Host.{not_executable}
use nodeguard.Ngmap.Keys.{key_bytes, decode_key, decode_key-key_bytes, key_args-injective}
use nodeguard.Ngmap.Exec.{
  ok, raised, ◌>>=◌, die_if, attempt, system_exit, protected_target, already_permanent,
}
use nodeguard.Ngmap.Maps.{
  map_path, bpftool, lookup_value, dump_map, dump_rows, listed, entries_of, row_entry, parse_net,
  mono_ns, missed, found, update_map, delete_key, not_deleted, decode, unpack_entry, is_expired,
}
use nodeguard.Ngmap.Block.{
  BlockArgs, cmd_block, check_args, check_protected, check_contained, expiry_of, write_block,
  carried_hits, purge_after, purged_count, purge_error,
}
use nodeguard.Ngmap.Block.Run.{cmd_block-Avoids_protected}
use nodeguard.Ngmap.Block.Others.{
  purge_clock, write_entry, write_block-refuses_demotion, write_block-keeps_lasting,
  write_block-keeps_outside,
}
use nodeguard.Ngmap.Block.Effect.{Effect, cmd_block-Effect}
use nodeguard.Ngmap.Live.Purge.{Lasts, stored-Lasts}
use nodeguard.Ngmap.Live.Corpses.{purge-keeps_lasting}
use nodeguard.Ngmap.Live.{
  allow_entries_live, networks_of, purge_contained_expired, candidates_of, expired_entries,
  expired_of, purge_each, purge_one, purge_found, purge_expired, is_contained,
}
use nodeguard.Ngmap.Protect.Sound.{Avoids, is_protected-none_iff}
use nodeguard.Ngmap.Protect.{never_block_range, is_protected, contains_protected, never_block}
use nodeguard.Tests.Kernel.{
  answer, Kernel, host, holds, host-Laws, attacker, attackers, attacker-IsNetwork,
  attackers-IsNetwork, parse-IsNetwork,
}

abbrev quiet : Kernel
quiet = record { store = []; clock = 1000 }

abbrev hour : BlockArgs
hour = record { target = "203.0.113.7"; ttl = pos 3600; permanent = false; i_mean_it = false }

-- What a run of the command computes with.
runs : Unit {0}
unfolding hex_token int_16 cmd_block parse_net check_args check_protected check_contained
    allow_entries_live networks_of dump_map dump_rows listed bpftool entries_of row_entry
    is_protected contains_protected expiry_of mono_ns write_block lookup_value missed found
    carried_hits pack_pair unpack_pair update_map delete_key not_deleted purge_after purged_count
    purge_error purge_contained_expired candidates_of expired_entries expired_of purge_each
    purge_one purge_found purge_expired is_contained is_expired decode decode_key key_bytes
    args_to_bytes map_path unpack_entry contains subnet_of block_size network_of ◌>>=◌ die_if
    attempt
runs = tt

blocked :
    (cmd_block host hour quiet).0 ≡ ok (record { net = attacker; purged = 0; purge_failed = false })
unfolding runs
blocked = refl

-- The address of the attacker itself is in no protected range; the second read of the maps agrees.
abbrev attacker_address : Address
attacker_address = record { version = v4; value = 3405803783 }

cmd_block-Avoids_protected_example : All (Avoids attacker_address) (never_block ++ [])
unfolding runs
cmd_block-Avoids_protected_example =
    cmd_block-Avoids_protected host hour [] quiet
      (record { net = attacker; purged = 0; purge_failed = false }) attacker attacker_address
      parse-IsNetwork refl refl refl blocked refl

-- A private address is refused, by its range.
insider_refused :
    (cmd_block host (record hour { target = "10.1.2.3" }) quiet).0
    ≡ raised (
        system_exit (
          protected_target
            (never_block_range (record { version = v4; address = 167772160; prefixlen = 8 }))))
unfolding runs
insider_refused = refl

-- A permanent block of the attacker, an expired one, and a wider block over both.
abbrev value_of : ℕ → ℕ → List String
value_of expiry hits = bytes_to_args (le_bytes 8 expiry ++ le_bytes 8 hits)

abbrev block4 : String
block4 = "/sys/fs/bpf/nodeguard/block4"

abbrev neighbour : Network
neighbour = record { version = v4; address = 3405803784; prefixlen = 32 }

abbrev stranger : Network
stranger = record { version = v4; address = 3405804300; prefixlen = 32 }

abbrev busy : Kernel
busy = record {
  store =
      record { path = block4; key = bytes_to_args (key_bytes attacker); value = value_of 0 17 }
      ∷ record { path = block4; key = bytes_to_args (key_bytes neighbour); value = value_of 900 5 }
      ∷ record { path = block4; key = bytes_to_args (key_bytes stranger); value = value_of 900 6 }
      ∷ [];
  clock = 1000;
}

abbrev wide_hour : BlockArgs
wide_hour = record {
  target = "203.0.113.0/24";
  ttl = pos 3600;
  permanent = false;
  i_mean_it = false;
}

-- The expired neighbour goes, the permanent entry and the stranger stay.
wide_block_purges :
    (cmd_block host wide_hour busy).0
    ≡ ok (record { net = attackers; purged = 1; purge_failed = false })
unfolding runs
wide_block_purges = refl

wide_block_after :
    holds (cmd_block host wide_hour busy).1 block4 (bytes_to_args (key_bytes neighbour)) ≡ none
unfolding runs
wide_block_after = refl

permanent_is_found :
    (lookup_value host (map_path attacker "block") (key_bytes attacker) busy).0
    ≡ ok (some (le_bytes 8 0 ++ le_bytes 8 17))
unfolding runs
permanent_is_found = refl

write_block-refuses_demotion_example :
    ((write_block host hour attacker 5000 busy).0 ≡ raised (system_exit already_permanent))
    × (holds (write_block host hour attacker 5000 busy).1 block4 [] ≡ holds busy block4 [])
write_block-refuses_demotion_example =
    write_block-refuses_demotion host holds host-Laws hour attacker 5000 busy
      (le_bytes 8 0 ++ le_bytes 8 17) 17 block4 [] refl permanent_is_found
      (unfold unpack_pair in refl)

apart_keys : bytes_to_args (key_bytes attackers) ≢ bytes_to_args (key_bytes attacker)
apart_keys e = absurd (
    omega (
      arith,
      ap (λ (n : Network). n.prefixlen)
          (key_args-injective attackers attacker attackers-IsNetwork attacker-IsNetwork e),
    ))

-- The value of the permanent entry, before and after the wider block.
held : holds busy block4 (bytes_to_args (key_bytes attacker)) ≡ some (value_of 0 17)
unfolding runs
held = refl

-- An entry inside the wider block that expires at 5000, long after the purge's reading.
abbrev waiting : Kernel
waiting = record {
  store =
      record { path = block4; key = bytes_to_args (key_bytes attacker); value = value_of 5000 17 }
      ∷ record { path = block4; key = bytes_to_args (key_bytes neighbour); value = value_of 900 5 }
      ∷ [];
  clock = 1000;
}

waiting_held : holds waiting block4 (bytes_to_args (key_bytes attacker)) ≡ some (value_of 5000 17)
unfolding runs
waiting_held = refl

-- The refresh of that entry finds it.
refreshed :
    (cmd_block host hour waiting).0
    ≡ ok (record { net = attacker; purged = 0; purge_failed = false })
unfolding runs
refreshed = refl

answer-executed : (o : Option (List String)) (text : String) → answer o ≢ not_executable text
answer-executed none text e = cc
answer-executed (some v) text e = cc

cmd_block-Effect_example : Effect host holds host-Laws hour attacker waiting
cmd_block-Effect_example =
    cmd_block-Effect host holds host-Laws hour attacker waiting
      (record { net = attacker; purged = 0; purge_failed = false }) attacker-IsNetwork
      (λ u text. answer-executed (holds u _ _) text) refl refreshed

refreshed_after :
    holds (cmd_block host hour waiting).1 block4 (bytes_to_args (key_bytes attacker))
    ≡ some (value_of 3600000001000 17)
unfolding runs
refreshed_after = refl

purge_clock_run : purge_clock host holds host-Laws wide_hour attackers 6000 waiting ≡ 1000
unfolding runs purge_clock write_entry
purge_clock_run = refl

write_block-keeps_lasting_example :
    holds
      (write_block host wide_hour attackers 6000 waiting).1
      block4
      (bytes_to_args (key_bytes attacker))
    ≡ holds waiting block4 (bytes_to_args (key_bytes attacker))
write_block-keeps_lasting_example =
    write_block-keeps_lasting host holds host-Laws wide_hour attackers 6000 block4
      (bytes_to_args (key_bytes attacker)) waiting apart_keys
      (subst (λ now. Lasts now (holds waiting block4 (bytes_to_args (key_bytes attacker))))
        (sym purge_clock_run)
        (subst (Lasts 1000) (sym waiting_held)
          (stored-Lasts 1000 5000 17 (omega arith) (omega arith) (unfold is_expired in refl))))

stranger-IsNetwork : IsNetwork stranger
unfolding block_size
stranger-IsNetwork = omega arith

write_block-keeps_outside_example :
    holds
      (write_block host wide_hour attackers 5000 busy).1
      block4
      (bytes_to_args (key_bytes stranger))
    ≡ holds busy block4 (bytes_to_args (key_bytes stranger))
write_block-keeps_outside_example =
    write_block-keeps_outside host holds host-Laws wide_hour attackers stranger 5000 block4 busy
      attackers-IsNetwork stranger-IsNetwork
      (λ e. absurd (omega (arith, ap (λ (n : Network). n.prefixlen) e)))
      (unfold is_contained subnet_of block_size in refl)

purge-keeps_lasting_example :
    holds
      (purge_contained_expired host block4 attackers none busy).1
      block4
      (bytes_to_args (key_bytes attacker))
    ≡ holds busy block4 (bytes_to_args (key_bytes attacker))
purge-keeps_lasting_example =
    purge-keeps_lasting host holds host-Laws block4 attackers none block4
      (bytes_to_args (key_bytes attacker)) busy
      (λ now read.
        subst (Lasts now) (sym held)
          (stored-Lasts now 0 17 (omega arith) (omega arith) (unfold is_expired in refl)))

decode_key-key_bytes_example : decode_key (key_bytes attackers) ≡ some attackers
decode_key-key_bytes_example = decode_key-key_bytes attackers attackers-IsNetwork

abbrev value_of_bytes : List ℕ
value_of_bytes = 0 ∷ 7 ∷ 160 ∷ 255 ∷ []

args_to_bytes-bytes_to_args_example :
    args_to_bytes (bytes_to_args (value_of_bytes)) ≡ some value_of_bytes
args_to_bytes-bytes_to_args_example = args_to_bytes-bytes_to_args value_of_bytes (omega arith)

is_protected-none_iff_example :
    (is_protected attacker_address [] ≡ none)
    ↔ (All (Avoids attacker_address) never_block × All (Avoids attacker_address) [])
is_protected-none_iff_example = is_protected-none_iff attacker_address []
