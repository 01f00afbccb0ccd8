-- ===== src/Ngmap/Maps/Reads.antt =====
-- The operations of bin/ngmap.py that only read: they respect every relation that the calls of
-- `map lookup`, `map dump` and the clock respect.
use nodeguard.Prelude.{◌≡◌, List, [], ◌∷◌, String, arith, inl, inr, Bool-cases}
use nodeguard.Ngmap.Pack.{Bytes}
use nodeguard.Ngmap.Exec.{Error, runtime}
use nodeguard.Ngmap.Exec.Respects.{
  Order, Respects, respects_rules, Respects-pure, Respects-raise, Respects-if, Respects-bind,
  Respects-attempt,
}
use nodeguard.Ngmap.Host.{
  Host, Call, map_lookup, map_dump, Row, single, percpu, neither, Reply, entry, rows,
}
use nodeguard.Ngmap.Maps.{
  bpftool, mono_ns, lookup_value, missed, found, dump_rows, listed, row_entry, entries_of, dump_map,
  Value, plain, each_cpu, decode, unpack_entry,
}

pub record Reading (h : Host) : Type 1 where
  pub order : Order h.World
  pub lookup : (w : h.World) (p : String) (k : List String) → order.R w (h.run (map_lookup p k) w).1
  pub dump : (w : h.World) (p : String) → order.R w (h.run (map_dump p) w).1
  pub clock : (w : h.World) → order.R w (h.monotonic_ns w).1

module _ (h : Host) (r : Reading h) where
  bpftool-state : (c : Call) (w : h.World) → (bpftool h c w).1 ≡ (h.run c w).1
  unfolding bpftool
  bpftool-state c w = ground arith

  pub mono_ns-Respects : Respects r.order (mono_ns h)
  unfolding mono_ns
  mono_ns-Respects = record { at = r.clock }

  bpftool_lookup-Respects :
      (p : String) (k : List String) → Respects r.order (bpftool h (map_lookup p k))
  bpftool_lookup-Respects p k = record {
    at = λ w. rw (bpftool-state (map_lookup p k) w) (r.lookup w p k);
  }

  bpftool_dump-Respects : (p : String) → Respects r.order (bpftool h (map_dump p))
  bpftool_dump-Respects p = record { at = λ w. rw (bpftool-state (map_dump p) w) (r.dump w p) }

  missed-Respects : (path : String) (e : Error) → Respects r.order (missed h path e)
  unfolding missed
  missed-Respects path (runtime m) = record {
    at = λ w. elim (Bool-cases (h.path_exists w path)) [
      | inl yes' ↦ rw yes' (r.order.same w)
      | inr no' ↦ rw no' (r.order.same w)
    ];
  }
  missed-Respects path e = record { at = λ w. r.order.same w }

  found-Respects : (y : Reply) → Respects r.order (found h y)
  unfolding found
  found-Respects (entry v) = search respects_rules
  found-Respects y = search respects_rules

  pub lookup_value-Respects :
      (path : String) (key : Bytes) → Respects r.order (lookup_value h path key)
  unfolding lookup_value
  lookup_value-Respects path key =
      Respects-attempt _ _ _ (bpftool_lookup-Respects path _) found-Respects (missed-Respects path)

  listed-Respects : (y : Reply) → Respects r.order (listed h y)
  unfolding listed
  listed-Respects (rows rs) = search respects_rules
  listed-Respects y = search respects_rules

  dump_rows-Respects : (path : String) → Respects r.order (dump_rows h path)
  unfolding dump_rows
  dump_rows-Respects path =
      Respects-attempt _ _ _ (bpftool_dump-Respects path) listed-Respects (λ e. Respects-raise _)

  row_entry-Respects : (row : Row) → Respects r.order (row_entry h row)
  unfolding row_entry
  row_entry-Respects (single k v) = search respects_rules
  row_entry-Respects (percpu k vs) = search respects_rules
  row_entry-Respects neither = search respects_rules

  entries_of-Respects : (rs : List Row) → Respects r.order (entries_of h rs)
  unfolding entries_of
  entries_of-Respects [] = Respects-pure []
  entries_of-Respects (row ∷ rs) =
      Respects-bind _ _ (row_entry-Respects row)
        λ e. Respects-bind _ _ (entries_of-Respects rs) λ es. Respects-pure _

  pub dump_map-Respects : (path : String) → Respects r.order (dump_map h path)
  unfolding dump_map
  dump_map-Respects path = Respects-bind _ _ (dump_rows-Respects path) entries_of-Respects

  pub decode-Respects : (raw : Bytes) → Respects r.order (decode h raw)
  unfolding decode
  decode-Respects raw = search respects_rules

  pub unpack_entry-Respects : (v : Value) → Respects r.order (unpack_entry h v)
  unfolding unpack_entry
  unpack_entry-Respects (plain b) = search respects_rules
  unpack_entry-Respects (each_cpu bs) = search respects_rules

pub ruleset reading_rules = (
  respects_rules, mono_ns-Respects, lookup_value-Respects, dump_map-Respects, decode-Respects,
  unpack_entry-Respects,
)
