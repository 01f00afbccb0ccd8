-- ===== src/Ngmap/Allow/Reconcile.antt =====
-- `cmd_reconcile_allow` of bin/ngmap.py on one allow map: the map becomes the desired one.
use mathlib.Core.Path.{subst}
use nodeguard.Prelude.{
  ℕ, ◌≡◌, ◌≢◌, sym, ap, ◌∙◌, ◌⊎◌, inl, inr, String, true, false, Option, none, List, [], ◌∷◌, All,
  All-map, Bool-cases, arith,
}
use nodeguard.Ngmap.Pack.{Bytes, IsBytes}
use nodeguard.Ngmap.Hex.{bytes_to_args, bytes_to_args-injective}
use nodeguard.Ngmap.Exec.{ok, pure}
use nodeguard.Ngmap.Exec.Inversion.{>>=-eq-ok}
use nodeguard.Ngmap.Exec.Respects.{Respects, Respects-bind, Respects-pure, Respects-raise}
use nodeguard.Ngmap.Host.{Host, Laws}
use nodeguard.Ngmap.Maps.{Value, plain, each_cpu, dump_map}
use nodeguard.Ngmap.Maps.Reads.{dump_map-Respects}
use nodeguard.Ngmap.Maps.Writes.{kept_at, reading_kept}
use nodeguard.Ngmap.Allow.{
  bytes_eq, Tags, tag_at, has_key, has_tag, first_byte, current_of, update_each, remove_each,
  reconcile_map,
}
use nodeguard.Ngmap.Allow.Install.{
  Begins, Writable, has_tag-Tagged, update_each-Tagged, update_each-keeps, bytes_eq-true,
  bytes_eq_refl,
}
use nodeguard.Ngmap.Allow.Removal.{
  true-false, GoneLaw, HasEntry, remove_each-keeps, remove_each-none,
}
use nodeguard.Ngmap.Allow.Reading.{DumpRight, HasByte, dump_map-Covers, current_of-HasByte}

unequal : (i l : Bytes) → bytes_eq i l ≡ false → i ≢ l
unequal i l n q = true-false (sym (bytes_eq_refl i) ∙ (ap (bytes_eq i) q ∙ n))

-- A key is among the entries read, or none of them has it.
entry_cases :
    (k : Bytes) (current : List (Bytes × Option ℕ))
    → HasEntry k current ⊎ All (λ (c : Bytes × Option ℕ). c.0 ≢ k) current
entry_cases k [] = inr tt
entry_cases k ((j, b) ∷ current) = elim (Bool-cases (bytes_eq j k)) [
  | inl y ↦ inl (inl (bytes_eq-true j k y))
  | inr n ↦ elim (entry_cases k current) [
    | inl later ↦ inl (inr later)
    | inr others ↦ inr ((λ q. unequal j k n q), others)
  ]
]

has_key-cons :
    (k j : Bytes) (t : ℕ) (want : Tags) → has_key k want ≡ true → has_key k ((j, t) ∷ want) ≡ true
unfolding tag_at
has_key-cons k j t want e = ground (arith, e)

has_key-here : (k : Bytes) (t : ℕ) (want : Tags) → has_key k ((k, t) ∷ want) ≡ true
unfolding tag_at
has_key-here k t want = ground (arith, bytes_eq_refl k)

-- The keys of the end of a list of tags are keys of it.
listed :
    (want rest : Tags)
    → Writable rest
    → ((k : Bytes) → has_key k rest ≡ true → has_key k want ≡ true)
    → All (λ (x : Bytes × ℕ). IsBytes x.0 × (has_key x.0 want ≡ true)) rest
listed want [] wr f = tt
listed want ((k, t) ∷ rest) wr f = (
  (wr.0, f k (has_key-here k t rest)),
  listed want rest wr.3 (λ j q. f j (has_key-cons j k t rest q)),
)

pub apart_of :
    (k : Bytes) (want : Tags)
    → IsBytes k
    → has_key k want ≡ false
    → Writable want
    → All (λ (x : Bytes × ℕ). bytes_to_args x.0 ≢ bytes_to_args k) want
unfolding tag_at
apart_of k [] hk n wr = tt
apart_of k ((j, t) ∷ want) hk n wr = (
  (λ q. true-false (
      sym (has_key-here k t want)
      ∙ (ap (λ i. has_key k ((i, t) ∷ want)) (sym (bytes_to_args-injective j k wr.0 hk q)) ∙ n))),
  apart_of k want hk (ground (arith, n)) wr.3,
)

module _ (h : Host) (holds : h.World → String → List String → Option (List String))
    (laws : Laws h holds) (gone : GoneLaw h holds) (p : String) where
  first_byte-Respects :
      (k : List String) (v : Value) → Respects (kept_at h holds p k) (first_byte h v)
  unfolding first_byte
  first_byte-Respects k (plain []) = Respects-raise _
  first_byte-Respects k (plain (b ∷ bs)) = Respects-pure _
  first_byte-Respects k (each_cpu []) = Respects-raise _
  first_byte-Respects k (each_cpu (v ∷ vs)) = Respects-pure _

  current_of-Respects :
      (k : List String) (es : List (Bytes × Value))
      → Respects (kept_at h holds p k) (current_of h es)
  unfolding current_of
  current_of-Respects k [] = Respects-pure _
  current_of-Respects k ((j, v) ∷ es) =
      Respects-bind _ _ (first_byte-Respects k v)
        λ b. Respects-bind _ _ (current_of-Respects k es) (λ rest. Respects-pure _)

  -- A wanted key that was read with its tag has it still.
  ready :
      (w u : h.World) (current : List (Bytes × Option ℕ)) (want : Tags)
      → ((k : List String) → holds u p k ≡ holds w p k)
      → All (HasByte h holds w p) current
      → All
          (λ (x : Bytes × ℕ).
            (has_tag x.0 x.1 current ≡ false) ⊎ Begins (holds u p (bytes_to_args x.0)) x.1)
          want
  ready w u current [] kept a = tt
  ready w u current ((k, t) ∷ want) kept a = (
    elim (Bool-cases (has_tag k t current)) [
      | inl y ↦ inr (
          subst (λ o. Begins o t) (sym (kept (bytes_to_args k)))
            (has_tag-Tagged h holds laws p w k t current a y))
      | inr n ↦ inl n
    ],
    ready w u current want kept a,
  )

  -- Tags that are kept key by key.
  carried :
      (w u : h.World) (want all : Tags) (current : List (Bytes × Option ℕ))
      → All (λ (x : Bytes × ℕ). IsBytes x.0 × (has_key x.0 all ≡ true)) want
      → ((k : Bytes)
          → IsBytes k
          → has_key k all ≡ true
          → holds u p (bytes_to_args k) ≡ holds w p (bytes_to_args k))
      → All (λ (x : Bytes × ℕ). Begins (holds w p (bytes_to_args x.0)) x.1) want
      → All (λ (x : Bytes × ℕ). Begins (holds u p (bytes_to_args x.0)) x.1) want
  carried w u [] all current l kept a = tt
  carried w u ((k, t) ∷ want) all current l kept a = (
    subst (λ o. Begins o t) (sym (kept k l.0.0 l.0.1)) a.0,
    carried w u want all current l.1 kept a.1,
  )

  -- The map holds the wanted entries, and no other.
  abbrev pub Installed : Tags → h.World → Type 0
  Installed want u =
      All (λ (x : Bytes × ℕ). Begins (holds u p (bytes_to_args x.0)) x.1) want
      × ((k : Bytes) → IsBytes k → has_key k want ≡ false → holds u p (bytes_to_args k) ≡ none)

  -- If the reconciliation of an allow map finishes, and the dump that it read showed what the map held,
  -- then under every wanted key the map holds a value that begins with its tag, and under every other
  -- key it holds nothing.
  pub reconcile_map-Installed :
      (want : Tags) (w : h.World) (r : ℕ × ℕ)
      → Writable want
      → DumpRight h holds w p
      → (reconcile_map h p want w).0 ≡ ok r
      → Installed want (reconcile_map h p want w).1
  unfolding reconcile_map pure
  reconcile_map-Installed want w r wr right e =
      let a = >>=-eq-ok _ _ r w e in
      let b = >>=-eq-ok _ _ r _ a.second in
      let c = >>=-eq-ok _ _ r _ b.second in
      let d = >>=-eq-ok _ _ r _ c.second in
      let w1 = (dump_map h p w).1 in
      let w2 = (current_of h a.value w1).1 in
      let w3 = (update_each h p b.value want w2).1 in
      let w4 = (remove_each h p want b.value w3).1 in
      let (entries, covered) = dump_map-Covers h holds w p a.value right a.first in
      let (bytes, keys) = current_of-HasByte h holds w p a.value w1 b.value entries b.first in
      let kept = λ (k : List String).
        (current_of-Respects k a.value).at w1
        ∙ (dump_map-Respects h (reading_kept h holds laws p k) p).at w in
      let tagged =
        update_each-Tagged h holds laws p b.value want w2 c.value wr
          (ready w w2 b.value want kept bytes) c.first in
      let here = λ (k : Bytes) (hk : IsBytes k) (y : has_key k want ≡ true).
        (remove_each-keeps h holds laws gone p want k b.value hk y
            (All-map (λ x (q : HasByte h holds w p x). q.0) b.value bytes)).at
          w3 in
      let end = a.state ∙ (b.state ∙ (c.state ∙ d.state)) in
      subst (Installed want) (sym end) (
        carried w3 w4 want want b.value (listed want want wr (λ k y. y)) here tagged,
        λ k hk n.
            remove_each-none h holds laws gone p want k b.value w3 d.value n
              (elim (entry_cases k b.value) [
                | inl has ↦ inr has
                | inr others ↦ inl (
                    (update_each-keeps h holds laws p k b.value want (apart_of k want hk n wr)).at
                      w2
                    ∙ (kept (bytes_to_args k) ∙ covered k hk (keys k others)))
              ])
              d.first,
      )
