-- ===== src/Ngmap/Allow/Whole.antt =====
-- `cmd_reconcile_allow` of bin/ngmap.py on one allow map, from the two lists of networks on.
use mathlib.Core.Path.{subst}
use nodeguard.Prelude.{
  ℕ, ◌≡◌, ◌≢◌, refl, sym, ap, ◌∙◌, String, Bool, true, false, Option, none, some, List, [], ◌∷◌,
  ◌++◌, if◌then◌else◌, any, All, arith, ◌<◌,
}
use nodeguard.Net.{Version, v4, v6, Network}
use nodeguard.Ngmap.Pack.{Bytes, IsBytes}
use nodeguard.Ngmap.Hex.{bytes_to_args}
use nodeguard.Ngmap.Keys.{key_bytes, key_bytes-IsBytes}
use nodeguard.Ngmap.Exec.{ok}
use nodeguard.Ngmap.Host.{Host, Laws}
use nodeguard.Ngmap.Allow.{
  bytes_eq, Tags, tag_at, has_key, Desired, for_version, add_tag, add_tags, desired_of,
  reconcile_map,
}
use nodeguard.Ngmap.Allow.Install.{Begins, Writable, bytes_eq-true}
use nodeguard.Ngmap.Allow.Removal.{GoneLaw}
use nodeguard.Ngmap.Allow.Reading.{DumpRight}
use nodeguard.Ngmap.Allow.Reconcile.{Installed, reconcile_map-Installed, apart_of}
use nodeguard.Ngmap.Allow.Wanted.{names, desired_of-tag}

-- An entry at the end whose key is new.
Writable-append :
    (ts : Tags) (k : Bytes) (t : ℕ)
    → Writable ts
    → IsBytes k
    → t < 256
    → has_key k ts ≡ false
    → Writable (ts ++ ((k, t) ∷ []))
unfolding tag_at
Writable-append [] k t wr hk ht n = (hk, (ht, tt), tt, tt)
Writable-append ((j, u) ∷ ts) k t (hj, hu, apart, wr) hk ht n =
    (hj, hu, later ts apart, Writable-append ts k t wr hk ht (ground (arith, n)))
  where
    ne : bytes_to_args k ≢ bytes_to_args j
    ne q = (apart_of k ((j, u) ∷ ts) hk n (hj, hu, apart, wr)).0 (sym q)

    later :
        (us : Tags)
        → All (λ (x : Bytes × ℕ). bytes_to_args x.0 ≢ bytes_to_args j) us
        → All (λ (x : Bytes × ℕ). bytes_to_args x.0 ≢ bytes_to_args j) (us ++ ((k, t) ∷ []))
    later [] a = (ne, tt)
    later (x ∷ us) a = (a.0, later us a.1)

-- Both maps can be written.
abbrev Fits : Desired → Type 0
Fits d = Writable d.four × Writable d.six

add_tag-Fits : (t : ℕ) (n : Network) (d : Desired) → t < 256 → Fits d → Fits (add_tag t n d)
add_tag-Fits t n d ht fits =
    for_net n.version (has_key (key_bytes n) (for_version n.version d)) refl
  where
    for_net :
        (v : Version) (b : Bool)
        → has_key (key_bytes n) (for_version v d) ≡ b
        → Fits (
            if b then d else elim v [
              | v4 ↦ record d { four = d.four ++ ((key_bytes n, t) ∷ []) }
              | v6 ↦ record d { six = d.six ++ ((key_bytes n, t) ∷ []) }
            ])
    for_net v true e = fits
    for_net v4 false e =
        (Writable-append d.four (key_bytes n) t fits.0 (key_bytes-IsBytes n) ht e, fits.1)
    for_net v6 false e =
        (fits.0, Writable-append d.six (key_bytes n) t fits.1 (key_bytes-IsBytes n) ht e)

add_tags-Fits :
    (t : ℕ) (ns : List Network) (d : Desired) → t < 256 → Fits d → Fits (add_tags t ns d)
unfolding add_tags
add_tags-Fits t [] d ht fits = fits
add_tags-Fits t (n ∷ ns) d ht fits =
    add_tags-Fits t ns (add_tag t n d) ht (add_tag-Fits t n d ht fits)

desired_of-Writable :
    (v : Version) (static generated : List Network)
    → Writable (for_version v (desired_of static generated))
unfolding desired_of
desired_of-Writable v static generated =
    pick v _
      (add_tags-Fits 2 generated _ (omega arith) (add_tags-Fits 1 static _ (omega arith) (tt, tt)))
  where
    pick : (u : Version) (d : Desired) → Fits d → Writable (for_version u d)
    pick v4 d f = f.0
    pick v6 d f = f.1

tag_inj : (u t : ℕ) → some u ≡ some t → u ≡ t
tag_inj u t q = cc

tag_at-All :
    (P : Bytes × ℕ → Type 0) (k : Bytes) (t : ℕ) (ts : Tags)
    → All P ts
    → tag_at k ts ≡ some t
    → P (k, t)
unfolding tag_at
tag_at-All P k t [] a e = absurd (cc)
tag_at-All P k t ((j, u) ∷ ts) a e = by_test (bytes_eq j k) refl e (tag_at-All P k t ts a.1)
  where
    by_test :
        (b : Bool)
        → bytes_eq j k ≡ b
        → (if b then some u else tag_at k ts) ≡ some t
        → (tag_at k ts ≡ some t → P (k, t))
        → P (k, t)
    by_test true y q later =
        subst P (ap (λ i. (i, u)) (bytes_eq-true j k y) ∙ ap (λ x. (k, x)) (tag_inj u t q)) a.0
    by_test false n q later = later q

-- What an allow map is to hold under a key.
abbrev pub Wanted : Option (List String) → Option ℕ → Type 0
Wanted held (some t) = Begins held t
Wanted held none = held ≡ none

module _ (h : Host) (holds : h.World → String → List String → Option (List String))
    (laws : Laws h holds) (gone : GoneLaw h holds) (p : String) where
  Installed-Wanted :
      (want : Tags) (u : h.World) (k : Bytes)
      → Installed h holds laws gone p want u
      → IsBytes k
      → Wanted (holds u p (bytes_to_args k)) (tag_at k want)
  Installed-Wanted want u k inst hk = by_tag (tag_at k want) refl
    where
      by_tag : (o : Option ℕ) → tag_at k want ≡ o → Wanted (holds u p (bytes_to_args k)) o
      by_tag none e = inst.1 k hk (ap (λ o. elim o [ none ↦ false | some _ ↦ true ]) e)
      by_tag (some t) e =
          tag_at-All (λ (x : Bytes × ℕ). Begins (holds u p (bytes_to_args x.0)) x.1) k t want inst.0
            e

  -- On a host that meets the laws, where bpftool can always be executed for a deletion: if the
  -- reconciliation of the allow map of a version finishes, and the dump that it read showed what
  -- the map held, then a key with a static network holds a value that begins with tag 1, another key
  -- with a generated network one that begins with tag 2, and any other key holds nothing.
  pub reconcile_map-Wanted :
      (v : Version) (static generated : List Network) (w : h.World) (r : ℕ × ℕ) (k : Bytes)
      → DumpRight h holds w p
      → (reconcile_map h p (for_version v (desired_of static generated)) w).0 ≡ ok r
      → IsBytes k
      → Wanted
          (holds
            (reconcile_map h p (for_version v (desired_of static generated)) w).1
            p
            (bytes_to_args k))
          (if any (names v k) static
            then some 1
            else if any (names v k) generated
            then some 2
            else none)
  reconcile_map-Wanted v static generated w r k right e hk =
      subst
        (Wanted (
          holds (reconcile_map h p (for_version v (desired_of static generated)) w).1 p
            (bytes_to_args k)))
        (desired_of-tag v k static generated)
        (Installed-Wanted (for_version v (desired_of static generated)) _ k
          (reconcile_map-Installed h holds laws gone p (for_version v (desired_of static generated))
            w r (desired_of-Writable v static generated) right e)
          hk)
