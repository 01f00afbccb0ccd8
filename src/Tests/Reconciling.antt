-- ===== src/Tests/Reconciling.antt =====
-- A reconciliation of an allow map on the concrete host, and the instance of its theorem.
use mathlib.Core.Path.{subst}
use nodeguard.Prelude.{
  ◌≡◌, ◌≢◌, refl, sym, ap, ◌∙◌, String, none, some, List, [], ◌∷◌, All, Bool-cases, inl, inr,
  strs_eq, strs_eq_iff, any, if◌then◌else◌, arith, Option,
}
use nodeguard.Ngmap.Pack.{Bytes, IsBytes}
use nodeguard.Ngmap.Hex.{
  bytes_to_args, args_to_bytes, hex_token, int_16, bytes_to_args-injective,
  args_to_bytes-bytes_to_args,
}
use nodeguard.Ngmap.Keys.{key_bytes, key_bytes-IsBytes}
use nodeguard.Ngmap.Exec.{ok, ◌>>=◌, attempt}
use nodeguard.Ngmap.Host.{Row, single, rows, done, timed_out, not_executable}
use nodeguard.Ngmap.Maps.{
  bpftool, dump_map, dump_rows, listed, entries_of, row_entry, update_map, delete_key, not_deleted,
}
use nodeguard.Ngmap.Allow.{
  for_version, desired_of, tag_at, has_tag, first_byte, current_of, update_each, remove_each,
  reconcile_map,
}
use nodeguard.Ngmap.Allow.Removal.{GoneLaw}
use nodeguard.Ngmap.Allow.Reading.{row_key, IsShown, DumpRight}
use nodeguard.Net.{v4}
use nodeguard.Ngmap.Allow.Wanted.{names}
use nodeguard.Ngmap.Allow.Whole.{Wanted, reconcile_map-Wanted}
use nodeguard.Tests.Kernel.{insider, Kernel, host, holds, host-Laws, removal, get, get-without_self}

-- What a run of the reconciliation computes with.
runs : Unit {0}
unfolding hex_token int_16 args_to_bytes key_bytes dump_map dump_rows listed bpftool entries_of
    row_entry update_map delete_key not_deleted tag_at has_tag first_byte current_of update_each
    remove_each reconcile_map ◌>>=◌ attempt
runs = tt

abbrev allow4 : String
allow4 = "/sys/fs/bpf/nodeguard/allow4"

abbrev old_key : Bytes
old_key = 32 ∷ 203 ∷ 0 ∷ 113 ∷ 7 ∷ []

-- A map that allows another host than the one wanted.
abbrev stale : Kernel
stale = record {
  store = record { path = allow4; key = bytes_to_args old_key; value = "0x02" ∷ [] } ∷ [];
  clock = 1000;
}

removal-not_timed_out : (o : Option (List String)) (limit : String) → removal o ≢ timed_out limit
removal-not_timed_out none limit e = cc
removal-not_timed_out (some v) limit e = cc

removal-executed : (o : Option (List String)) (text : String) → removal o ≢ not_executable text
removal-executed none text e = cc
removal-executed (some v) text e = cc

host-GoneLaw : GoneLaw host holds
host-GoneLaw = record {
  already_gone = λ w p k e text pinned. get-without_self p k w.store;
  deletion_runs = λ w p k text. removal-executed (get p k w.store) text;
  timeout_text = λ w p k limit e. absurd (removal-not_timed_out _ limit e);
}

rows_inj : (a b : List Row) → done (rows a) ≡ done (rows b) → a ≡ b
rows_inj a b e = cc

key_inj : (a b : Bytes) → some a ≡ some b → a ≡ b
key_inj a b e = cc

old_key-IsBytes : IsBytes old_key
old_key-IsBytes = (omega arith, (omega arith, (omega arith, (omega arith, (omega arith, tt)))))

abbrev shown : List Row
shown = single (bytes_to_args old_key) ("0x02" ∷ []) ∷ []

old_read : args_to_bytes (bytes_to_args old_key) ≡ some old_key
old_read = args_to_bytes-bytes_to_args old_key old_key-IsBytes

held : holds stale allow4 (bytes_to_args old_key) ≡ some ("0x02" ∷ [])
unfolding runs
held = refl

here : (kb : Bytes) → old_key ≡ kb → holds stale allow4 (bytes_to_args kb) ≡ some ("0x02" ∷ [])
here kb same = subst (λ b. holds stale allow4 (bytes_to_args b) ≡ some ("0x02" ∷ [])) same held

elsewhere :
    (k : Bytes)
    → IsBytes k
    → args_to_bytes (bytes_to_args old_key) ≢ some k
    → holds stale allow4 (bytes_to_args k) ≡ none
elsewhere k hk ne = elim (Bool-cases (strs_eq (bytes_to_args old_key) (bytes_to_args k))) [
  | inl y ↦ absurd (
      ne (
        old_read
        ∙ ap some (bytes_to_args-injective old_key k old_key-IsBytes hk ((strs_eq_iff _ _).0 y))))
  | inr n ↦ ap (λ b. if b then some ("0x02" ∷ []) else none) n
]

stale-DumpRight : DumpRight host holds stale allow4
stale-DumpRight = record {
  is_shown = λ rs e.
      subst (All (IsShown (holds stale) allow4)) (rows_inj shown rs e)
        ((λ kb q. here kb (key_inj old_key kb (sym old_read ∙ q))), tt);
  is_all = λ rs e k hk others.
      elsewhere k hk (subst (All (λ r. row_key r ≢ some k)) (sym (rows_inj shown rs e)) others).0;
}

reconciled :
    (reconcile_map host allow4 (for_version v4 (desired_of (insider ∷ []) (insider ∷ []))) stale).0
    ≡ ok (1, 1)
unfolding runs desired_of
reconciled = refl

reconcile_map-Wanted_example :
    Wanted
      (holds
        (reconcile_map host allow4
          (for_version v4 (desired_of (insider ∷ []) (insider ∷ [])))
          stale).1
        allow4
        (bytes_to_args (key_bytes insider)))
      (if any (names v4 (key_bytes insider)) (insider ∷ [])
        then some 1
        else if any (names v4 (key_bytes insider)) (insider ∷ [])
        then some 2
        else none)
reconcile_map-Wanted_example =
    reconcile_map-Wanted host holds host-Laws host-GoneLaw allow4 v4 (insider ∷ []) (insider ∷ [])
      stale (1, 1) (key_bytes insider) stale-DumpRight reconciled (key_bytes-IsBytes insider)
