-- ===== src/Ngmap/Maps/Writes.antt =====
-- `lookup_value`, `update_map` and `delete_key` of bin/ngmap.py against what the pinned maps hold.
use nodeguard.Prelude.{◌≡◌, ◌≢◌, refl, ◌∙◌, true, Option, none, some, List, String, ◌⊎◌, arith}
use nodeguard.Ngmap.Pack.{Bytes}
use nodeguard.Ngmap.Hex.{bytes_to_args, args_to_bytes}
use nodeguard.Ngmap.Exec.{ok, Error, pure, ◌>>=◌, attempt}
use nodeguard.Ngmap.Exec.Respects.{Order, Respects, Respects-attempt, Respects-bind, Respects-pure}
use nodeguard.Ngmap.Host.{
  Host, Laws, Call, map_lookup, map_update, map_delete, null, entry, rows, info, other, Outcome,
  done, failed, not_executable,
}
use nodeguard.Ngmap.Maps.{bpftool, lookup_value, missed, found, update_map, delete_key, not_deleted}
use nodeguard.Ngmap.Maps.Reads.{Reading}

module _ (h : Host) (holds : h.World → String → List String → Option (List String)) where
  -- The value of one key of one map stays.
  abbrev pub kept_at : String → List String → Order h.World
  kept_at p k = record {
    R = λ w w'. holds w' p k ≡ holds w p k;
    same = λ w. refl;
    chain = λ e e'. e' ∙ e;
  }

  module _ (p : String) (k : List String) where
    bpftool-kept :
        (c : Call)
        → ((w : h.World) → holds (h.run c w).1 p k ≡ holds w p k)
        → Respects (kept_at p k) (bpftool h c)
    unfolding bpftool
    bpftool-kept c kept = record { at = λ w. ground (arith, kept w) }

    not_deleted-kept : (path : String) (e : Error) → Respects (kept_at p k) (not_deleted h path e)
    unfolding not_deleted
    not_deleted-kept path e = record { at = λ w. ground arith }

  module _ (laws : Laws h holds) where
    abbrev pub reading_kept : (p : String) (k : List String) → Reading h
    reading_kept p k = record {
      order = kept_at p k;
      lookup = λ w p' k'. laws.lookup_reads w p' p k' k;
      dump = λ w p'. laws.dump_reads w p' p k;
      clock = λ w. laws.clock_reads w p k;
    }

    -- A value that a lookup found is the value of the key.
    pub lookup_value-some :
        (p : String) (k : Bytes) (w : h.World) (b : Bytes)
        → (lookup_value h p k w).0 ≡ ok (some b)
        → (v : List String) × (holds w p (bytes_to_args k) ≡ some v) × (args_to_bytes v ≡ some b)
    unfolding lookup_value attempt bpftool found missed ◌>>=◌
    lookup_value-some p k w b e = go (h.run (map_lookup p (bytes_to_args k)) w).0 refl
      where
        go :
            (o : Outcome)
            → (h.run (map_lookup p (bytes_to_args k)) w).0 ≡ o
            → (v : List String) × (holds w p (bytes_to_args k) ≡ some v)
              × (args_to_bytes v ≡ some b)
        go (done (entry v)) eo = (v, laws.lookup_entry w p (bytes_to_args k) v eo, ground arith)
        go (done null) eo = absurd (ground arith)
        go (done (rows rs)) eo = absurd (ground arith)
        go (done (info i)) eo = absurd (ground arith)
        go (done other) eo = absurd (ground arith)
        go (failed m) eo = absurd (ground arith)
        go _ eo = absurd (ground arith)

    -- A lookup that found nothing, with a tool that could be executed: the key has no value.
    pub lookup_value-none :
        (p : String) (k : Bytes) (w : h.World)
        → ((text : String) → (h.run (map_lookup p (bytes_to_args k)) w).0 ≢ not_executable text)
        → (lookup_value h p k w).0 ≡ ok none
        → holds w p (bytes_to_args k) ≡ none
    unfolding lookup_value attempt bpftool found missed ◌>>=◌
    lookup_value-none p k w runs e = go (h.run (map_lookup p (bytes_to_args k)) w).0 refl
      where
        go :
            (o : Outcome)
            → (h.run (map_lookup p (bytes_to_args k)) w).0 ≡ o
            → holds w p (bytes_to_args k) ≡ none
        go (done (entry v)) eo = absurd (ground arith)
        go (done null) eo = laws.lookup_no_entry w p (bytes_to_args k) eo (λ v q. cc)
        go (done (rows rs)) eo = laws.lookup_no_entry w p (bytes_to_args k) eo (λ v q. cc)
        go (done (info i)) eo = laws.lookup_no_entry w p (bytes_to_args k) eo (λ v q. cc)
        go (done other) eo = laws.lookup_no_entry w p (bytes_to_args k) eo (λ v q. cc)
        go (failed m) eo = laws.lookup_failed w p (bytes_to_args k) eo (ground arith)
        go (not_executable text) eo = absurd (runs text eo)
        go _ eo = absurd (ground arith)

    -- After a write the key has the written value.
    pub update_map-holds :
        (p : String) (k v : Bytes) (w : h.World) {u : Unit {0}}
        → (update_map h p k v w).0 ≡ ok u
        → holds (update_map h p k v w).1 p (bytes_to_args k) ≡ some (bytes_to_args v)
    unfolding update_map ◌>>=◌ bpftool
    update_map-holds p k v w e =
        go (h.run (map_update p (bytes_to_args k) (bytes_to_args v)) w).0 refl
      where
        go :
            (o : Outcome)
            → (h.run (map_update p (bytes_to_args k) (bytes_to_args v)) w).0 ≡ o
            → holds (update_map h p k v w).1 p (bytes_to_args k) ≡ some (bytes_to_args v)
        go (done y) eo =
            ground (arith, laws.update_done w p (bytes_to_args k) (bytes_to_args v) {r = y} eo)
        go _ eo = absurd (ground arith)

    -- A write, whether it succeeds or not, touches its own key only.
    pub update_map-keeps :
        (p : String) (k v : Bytes) (p' : String) (k' : List String)
        → (p ≢ p') ⊎ (bytes_to_args k ≢ k')
        → Respects (kept_at p' k') (update_map h p k v)
    unfolding update_map
    update_map-keeps p k v p' k' ne =
        Respects-bind _ _ (bpftool-kept p' k' _ λ w. laws.update_other w p p' _ _ k' ne)
          λ y. Respects-pure _

    pub delete_key-keeps :
        (p : String) (k : Bytes) (p' : String) (k' : List String)
        → (p ≢ p') ⊎ (bytes_to_args k ≢ k')
        → Respects (kept_at p' k') (delete_key h p k)
    unfolding delete_key
    delete_key-keeps p k p' k' ne =
        Respects-attempt _ _ _ (bpftool-kept p' k' _ λ w. laws.delete_other w p p' _ k' ne)
          (λ y. Respects-pure _) (not_deleted-kept p' k' p)

    -- A deletion that reports True has removed the key.
    pub delete_key-gone :
        (p : String) (k : Bytes) (w : h.World)
        → (delete_key h p k w).0 ≡ ok true
        → holds (delete_key h p k w).1 p (bytes_to_args k) ≡ none
    unfolding delete_key attempt bpftool not_deleted pure
    delete_key-gone p k w e = go (h.run (map_delete p (bytes_to_args k)) w).0 refl
      where
        go :
            (o : Outcome)
            → (h.run (map_delete p (bytes_to_args k)) w).0 ≡ o
            → holds (delete_key h p k w).1 p (bytes_to_args k) ≡ none
        go (done y) eo = ground (arith, laws.delete_done w p (bytes_to_args k) {r = y} eo)
        go (failed m) eo = absurd (ground arith)
        go _ eo = absurd (ground arith)
