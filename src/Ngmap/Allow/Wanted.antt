-- ===== src/Ngmap/Allow/Wanted.antt =====
-- The entries that `cmd_reconcile_allow` of bin/ngmap.py wants: `desired`.
use nodeguard.Prelude.{
  ℕ, ◌≡◌, refl, sym, ap, ◌∙◌, Bool, true, false, ◌&&◌, ◌||◌, Option, none, some, List, [], ◌∷◌,
  ◌++◌, if◌then◌else◌, any, arith,
}
use nodeguard.Net.{Version, v4, v6, Network, same_version}
use nodeguard.Ngmap.Pack.{Bytes}
use nodeguard.Ngmap.Keys.{key_bytes}
use nodeguard.Ngmap.Allow.Install.{bytes_eq-true}
use nodeguard.Ngmap.Allow.{
  bytes_eq, Tags, tag_at, has_key, Desired, for_version, add_tag, add_tags, desired_of,
}

-- A network has a key in the map of a version.
abbrev pub names : Version → Bytes → Network → Bool
names v k n = same_version n.version v && bytes_eq (key_bytes n) k

-- The tag that was there, or a new one.
abbrev pub or_tag : Option ℕ → Bool → ℕ → Option ℕ
or_tag (some t) b tag = some t
or_tag none b tag = if b then some tag else none

tag_at-append :
    (k j : Bytes) (t : ℕ) (ts : Tags)
    → tag_at k (ts ++ ((j, t) ∷ [])) ≡ or_tag (tag_at k ts) (bytes_eq j k) t
unfolding tag_at
tag_at-append k j t [] = refl
tag_at-append k j t ((i, u) ∷ ts) = ground (arith, tag_at-append k j t ts)

or_tag-nothing : (o : Option ℕ) (t : ℕ) → or_tag o false t ≡ o
or_tag-nothing none t = refl
or_tag-nothing (some u) t = refl

or_tag-held :
    (o : Option ℕ) (b : Bool) (t : ℕ)
    → (elim o [ none ↦ false | some _ ↦ true ]) ≡ true
    → or_tag o b t ≡ o
or_tag-held none b t e = absurd (cc)
or_tag-held (some u) b t e = refl

-- A key that is new, or that has a tag already.
tag_at-added :
    (k j : Bytes) (t : ℕ) (ts : Tags)
    → tag_at k (if has_key j ts then ts else ts ++ ((j, t) ∷ []))
      ≡ or_tag (tag_at k ts) (bytes_eq j k) t
tag_at-added k j t ts = by_test (has_key j ts) refl
  where
    kept :
        has_key j ts ≡ true → (b : Bool) → bytes_eq j k ≡ b → tag_at k ts ≡ or_tag (tag_at k ts) b t
    kept e true y =
        sym (
          or_tag-held (tag_at k ts) true t (ap (λ i. has_key i ts) (sym (bytes_eq-true j k y)) ∙ e))
    kept e false y = sym (or_tag-nothing (tag_at k ts) t)

    by_test :
        (c : Bool)
        → has_key j ts ≡ c
        → tag_at k (if c then ts else ts ++ ((j, t) ∷ [])) ≡ or_tag (tag_at k ts) (bytes_eq j k) t
    by_test true e = kept e (bytes_eq j k) refl
    by_test false e = tag_at-append k j t ts

-- A map with one more entry at the end.
abbrev grown : Version → Bytes → ℕ → Desired → Desired
grown v4 j t d = record d { four = d.four ++ ((j, t) ∷ []) }
grown v6 j t d = record d { six = d.six ++ ((j, t) ∷ []) }

for_version-same :
    (v : Version) (c : Bool) (j : Bytes) (t : ℕ) (d : Desired)
    → for_version v (if c then d else grown v j t d)
      ≡ (if c then for_version v d else for_version v d ++ ((j, t) ∷ []))
for_version-same v4 true j t d = refl
for_version-same v4 false j t d = refl
for_version-same v6 true j t d = refl
for_version-same v6 false j t d = refl

for_version-other :
    (v u : Version) (c : Bool) (j : Bytes) (t : ℕ) (d : Desired)
    → same_version u v ≡ false
    → for_version v (if c then d else grown u j t d) ≡ for_version v d
for_version-other v4 v6 true j t d e = refl
for_version-other v4 v6 false j t d e = refl
for_version-other v6 v4 true j t d e = refl
for_version-other v6 v4 false j t d e = refl
for_version-other v4 v4 c j t d e = absurd (cc)
for_version-other v6 v6 c j t d e = absurd (cc)

grown-tag :
    (v u : Version) (k j : Bytes) (t : ℕ) (d : Desired)
    → tag_at k (for_version v (if has_key j (for_version u d) then d else grown u j t d))
      ≡ or_tag (tag_at k (for_version v d)) (same_version u v && bytes_eq j k) t
grown-tag v4 v4 k j t d =
    ap (tag_at k) (for_version-same v4 (has_key j d.four) j t d) ∙ tag_at-added k j t d.four
grown-tag v6 v6 k j t d =
    ap (tag_at k) (for_version-same v6 (has_key j d.six) j t d) ∙ tag_at-added k j t d.six
grown-tag v4 v6 k j t d =
    ap (tag_at k) (for_version-other v4 v6 (has_key j d.six) j t d refl)
    ∙ sym (or_tag-nothing (tag_at k d.four) t)
grown-tag v6 v4 k j t d =
    ap (tag_at k) (for_version-other v6 v4 (has_key j d.four) j t d refl)
    ∙ sym (or_tag-nothing (tag_at k d.six) t)

tag_at-add_tag :
    (v : Version) (k : Bytes) (tag : ℕ) (n : Network) (d : Desired)
    → tag_at k (for_version v (add_tag tag n d))
      ≡ or_tag (tag_at k (for_version v d)) (names v k n) tag
tag_at-add_tag v k tag n d =
    ap
      (λ x.
        tag_at k (for_version v (if has_key (key_bytes n) (for_version n.version d) then d else x)))
      (same_growth n.version)
    ∙ grown-tag v n.version k (key_bytes n) tag d
  where
    same_growth :
        (u : Version)
        → (elim u [
          | v4 ↦ record d { four = d.four ++ ((key_bytes n, tag) ∷ []) }
          | v6 ↦ record d { six = d.six ++ ((key_bytes n, tag) ∷ []) }
        ])
          ≡ grown u (key_bytes n) tag d
    same_growth v4 = refl
    same_growth v6 = refl

or_tag-or : (o : Option ℕ) (a b : Bool) (t : ℕ) → or_tag (or_tag o a t) b t ≡ or_tag o (a || b) t
or_tag-or none true b t = refl
or_tag-or none false b t = refl
or_tag-or (some u) a b t = refl

tag_at-add_tags :
    (v : Version) (k : Bytes) (tag : ℕ) (ns : List Network) (d : Desired)
    → tag_at k (for_version v (add_tags tag ns d))
      ≡ or_tag (tag_at k (for_version v d)) (any (names v k) ns) tag
unfolding add_tags
tag_at-add_tags v k tag [] d = sym (or_tag-nothing (tag_at k (for_version v d)) tag)
tag_at-add_tags v k tag (n ∷ ns) d =
    tag_at-add_tags v k tag ns (add_tag tag n d)
    ∙ (ap (λ o. or_tag o (any (names v k) ns) tag) (tag_at-add_tag v k tag n d)
        ∙ or_tag-or (tag_at k (for_version v d)) (names v k n) (any (names v k) ns) tag)

empty_at :
    (v : Version) (k : Bytes) → tag_at k (for_version v (record { four = []; six = [] })) ≡ none
unfolding tag_at
empty_at v4 k = refl
empty_at v6 k = refl

-- The reconciliation wants a key with tag 1 if a static network has it, else with tag 2 if a generated
-- one has it, and no other key.
pub desired_of-tag :
    (v : Version) (k : Bytes) (static generated : List Network)
    → tag_at k (for_version v (desired_of static generated)) ≡ (
        if any (names v k) static
        then some 1
        else if any (names v k) generated
        then some 2
        else none)
unfolding desired_of
desired_of-tag v k static generated =
    tag_at-add_tags v k 2 generated _
    ∙ (ap (λ o. or_tag o (any (names v k) generated) 2)
          (tag_at-add_tags v k 1 static _
            ∙ ap (λ o. or_tag o (any (names v k) static) 1) (empty_at v k))
        ∙ decided (any (names v k) static) (any (names v k) generated))
  where
    decided :
        (a b : Bool)
        → or_tag (or_tag none a 1) b 2 ≡ (if a then some 1 else if b then some 2 else none)
    decided true b = refl
    decided false b = refl
