-- ===== src/Ngmap/Allow/Reading.antt =====
-- What `cmd_reconcile_allow` of bin/ngmap.py reads of an allow map.
use mathlib.Core.Path.{subst}
use nodeguard.Prelude.{
  ℕ, ◌≡◌, ◌≢◌, refl, sym, ap, ◌∙◌, String, Option, none, some, List, [], ◌∷◌, ◌++◌, All, All-append,
  arith,
}
use nodeguard.Ngmap.Pack.{Bytes, IsBytes}
use nodeguard.Ngmap.Hex.{bytes_to_args, args_to_bytes, args_to_bytes-IsBytes}
use nodeguard.Ngmap.Exec.{ok, value_error, pure, raise, attempt}
use nodeguard.Ngmap.Exec.Inversion.{>>=-eq-ok, or_raise-some}
use nodeguard.Ngmap.Host.{
  Host, map_dump, Row, single, percpu, neither, null, entry, rows, info, other, Outcome, done,
}
use nodeguard.Ngmap.Maps.{
  Value, plain, each_cpu, bpftool, listed, dump_map, dump_rows, row_entry, entries_of,
}
use nodeguard.Ngmap.Allow.{first_byte, current_of}
use nodeguard.Ngmap.Allow.Install.{Begins}

-- The key of an object of a dump.
abbrev pub row_key : Row → Option Bytes
row_key (single k v) = args_to_bytes k
row_key (percpu k vs) = args_to_bytes k
row_key neither = none

-- An object of a dump shows the value of its key.
abbrev pub IsShown : (String → List String → Option (List String)) → String → Row → Type 0
IsShown holding p (single k v) =
    (kb : Bytes) → args_to_bytes k ≡ some kb → holding p (bytes_to_args kb) ≡ some v
IsShown holding p (percpu k vs) = Unit
IsShown holding p neither = Unit

-- A dump shows what a map holds, and all of it.
pub record DumpRight (h : Host) (holds : h.World → String → List String → Option (List String))
    (w : h.World) (p : String) : Type 0 where
  pub is_shown :
      (rs : List Row) → (h.run (map_dump p) w).0 ≡ done (rows rs) → All (IsShown (holds w) p) rs
  pub is_all :
      (rs : List Row)
      → (h.run (map_dump p) w).0 ≡ done (rows rs)
      → (k : Bytes) → IsBytes k
      → All (λ r. row_key r ≢ some k) rs
      → holds w p (bytes_to_args k) ≡ none

ok_inj : {A : Type 0} (a b : A) → ok a ≡ ok b → a ≡ b
ok_inj a b e = cc

some_inj : {A : Type 0} (a b : A) → some a ≡ some b → a ≡ b
some_inj a b e = cc

plain_inj : (a b : Bytes) → plain a ≡ plain b → a ≡ b
plain_inj a b e = cc

All-left : {A : Type 0} (P : A → Type 0) (xs ys : List A) → All P (xs ++ ys) → All P xs
All-left P [] ys a = tt
All-left P (x ∷ xs) ys a = (a.0, All-left P xs ys a.1)

All-right : {A : Type 0} (P : A → Type 0) (xs ys : List A) → All P (xs ++ ys) → All P ys
All-right P [] ys a = a
All-right P (x ∷ xs) ys a = All-right P xs ys a.1

module _ (h : Host) (holds : h.World → String → List String → Option (List String)) (w : h.World)
    (p : String) where
  -- What an entry of a dump says is what the map holds.
  abbrev pub EntryRight : Bytes × Value → Type 0
  EntryRight e =
      IsBytes e.0
      × ((b : Bytes)
          → e.1 ≡ plain b
          → (ts : List String) × (holds w p (bytes_to_args e.0) ≡ some ts)
            × (args_to_bytes ts ≡ some b))

  -- Nothing is left out, and every entry is right.
  abbrev pub Covers : List Row → List (Bytes × Value) → Type 0
  Covers rs es =
      All EntryRight es
      × ((k : Bytes) → All (λ (e : Bytes × Value). e.0 ≢ k) es → All (λ r. row_key r ≢ some k) rs)

  row_entry-Covers :
      (r : Row) (u : h.World) (es : List (Bytes × Value))
      → IsShown (holds w) p r
      → (row_entry h r u).0 ≡ ok es
      → Covers (r ∷ []) es
  unfolding row_entry pure
  row_entry-Covers (single kt v) u es shown e =
      let a = >>=-eq-ok _ _ es u e in
      let b = >>=-eq-ok _ _ es _ a.second in
      let is_key = or_raise-some value_error (args_to_bytes kt) _ a.value a.first in
      let is_value = or_raise-some value_error (args_to_bytes v) _ b.value b.first in
      subst (Covers (single kt v ∷ [])) (ok_inj _ es b.second) (
        (
          (
            args_to_bytes-IsBytes kt a.value is_key,
            λ c q. (v, shown a.value is_key, is_value ∙ ap some (plain_inj _ c q)),
          ),
          tt,
        ),
        λ k others. ((λ q. others.0 (some_inj _ k (sym is_key ∙ q))), tt),
      )
  row_entry-Covers (percpu kt vs) u es shown e =
      let a = >>=-eq-ok _ _ es u e in
      let b = >>=-eq-ok _ _ es _ a.second in
      let is_key = or_raise-some value_error (args_to_bytes kt) _ a.value a.first in
      subst (Covers (percpu kt vs ∷ [])) (ok_inj _ es b.second) (
        ((args_to_bytes-IsBytes kt a.value is_key, λ c q. absurd (cc)), tt),
        λ k others. ((λ q. others.0 (some_inj _ k (sym is_key ∙ q))), tt),
      )
  row_entry-Covers neither u es shown e =
      subst (Covers (neither ∷ [])) (ok_inj [] es e) (tt, λ k others. ((λ q. cc), tt))

  entries_of-Covers :
      (rs : List Row) (u : h.World) (es : List (Bytes × Value))
      → All (IsShown (holds w) p) rs
      → (entries_of h rs u).0 ≡ ok es
      → Covers rs es
  unfolding entries_of pure
  entries_of-Covers [] u es shown e = subst (Covers []) (ok_inj [] es e) (tt, λ k others. tt)
  entries_of-Covers (r ∷ rs) u es shown e =
      let a = >>=-eq-ok _ _ es u e in
      let b = >>=-eq-ok _ _ es _ a.second in
      let first = row_entry-Covers r u a.value shown.0 a.first in
      let rest = entries_of-Covers rs _ b.value shown.1 b.first in
      subst (Covers (r ∷ rs)) (ok_inj _ es b.second) (
        All-append EntryRight a.value b.value first.0 rest.0,
        λ k others. (
          (first.1 k (All-left (λ (x : Bytes × Value). x.0 ≢ k) a.value b.value others)).0,
          rest.1 k (All-right (λ (x : Bytes × Value). x.0 ≢ k) a.value b.value others),
        ),
      )

  dump_rows-done :
      (rs : List Row) → (dump_rows h p w).0 ≡ ok rs → (h.run (map_dump p) w).0 ≡ done (rows rs)
  unfolding dump_rows attempt bpftool listed raise pure
  dump_rows-done rs e = go (h.run (map_dump p) w).0 refl
    where
      go : (o : Outcome) → (h.run (map_dump p) w).0 ≡ o → (h.run (map_dump p) w).0 ≡ done (rows rs)
      go (done (rows qs)) eo = ground (arith, eo, e)
      go (done null) eo = absurd (ground (arith, eo, e))
      go (done (entry v)) eo = absurd (ground (arith, eo, e))
      go (done (info i)) eo = absurd (ground (arith, eo, e))
      go (done other) eo = absurd (ground (arith, eo, e))
      go _ eo = absurd (ground (arith, eo, e))

  -- A dump that is right covers the map.
  pub dump_map-Covers :
      (es : List (Bytes × Value))
      → DumpRight h holds w p
      → (dump_map h p w).0 ≡ ok es
      → All EntryRight es
        × ((k : Bytes)
            → IsBytes k
            → All (λ (e : Bytes × Value). e.0 ≢ k) es
            → holds w p (bytes_to_args k) ≡ none)
  unfolding dump_map
  dump_map-Covers es right e =
      let a = >>=-eq-ok _ _ es w e in
      let is_dump = dump_rows-done a.value a.first in
      let c = entries_of-Covers a.value _ es (right.is_shown a.value is_dump) a.second in
      (c.0, λ k hk others. right.is_all a.value is_dump k hk (c.1 k others))

  -- An entry with the first byte of its value.
  abbrev pub HasByte : Bytes × Option ℕ → Type 0
  HasByte c = IsBytes c.0 × ((t : ℕ) → c.1 ≡ some t → Begins (holds w p (bytes_to_args c.0)) t)

  first_byte-HasByte :
      (k : Bytes) (v : Value) (u : h.World) (b : Option ℕ)
      → EntryRight (k, v)
      → (first_byte h v u).0 ≡ ok b
      → HasByte (k, b)
  unfolding first_byte pure raise
  first_byte-HasByte k (plain []) u b right e = absurd (cc)
  first_byte-HasByte k (plain (x ∷ xs)) u b (is_bytes, right) e = (
    is_bytes,
    λ t q.
        let (ts, held, read) = right (x ∷ xs) refl in
        (ts, xs, held, read ∙ ap (λ y. some (y ∷ xs)) (some_inj x t (ok_inj (some x) b e ∙ q))),
  )
  first_byte-HasByte k (each_cpu []) u b right e = absurd (cc)
  first_byte-HasByte k (each_cpu (v ∷ vs)) u b right e = (right.0, λ t q. absurd (cc))

  -- What `current` says, and that it has every key.
  pub current_of-HasByte :
      (es : List (Bytes × Value)) (u : h.World) (cur : List (Bytes × Option ℕ))
      → All EntryRight es
      → (current_of h es u).0 ≡ ok cur
      → All HasByte cur
        × ((k : Bytes)
            → All (λ (c : Bytes × Option ℕ). c.0 ≢ k) cur
            → All (λ (e : Bytes × Value). e.0 ≢ k) es)
  unfolding current_of pure
  current_of-HasByte [] u cur right e =
      subst
        (λ cs. All HasByte cs × ((k : Bytes) → All (λ (c : Bytes × Option ℕ). c.0 ≢ k) cs → Unit))
        (ok_inj [] cur e) (tt, λ k others. tt)
  current_of-HasByte ((k, v) ∷ es) u cur right e =
      let a = >>=-eq-ok _ _ cur u e in
      let b = >>=-eq-ok _ _ cur _ a.second in
      let rest = current_of-HasByte es _ b.value right.1 b.first in
      subst
        (λ cs.
          All HasByte cs
          × ((j : Bytes)
              → All (λ (c : Bytes × Option ℕ). c.0 ≢ j) cs
              → All (λ (x : Bytes × Value). x.0 ≢ j) ((k, v) ∷ es)))
        (ok_inj _ cur b.second)
        (
          (first_byte-HasByte k v u a.value right.0 a.first, rest.0),
          λ j others. (others.0, rest.1 j others.1),
        )
