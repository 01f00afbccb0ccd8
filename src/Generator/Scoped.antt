-- ===== src/Generator/Scoped.antt =====
-- Look-ups of uuids that zbx/gen-template.py carries over, against those that zbx/check_template.py
-- compares: of one kind of object, and of prototypes, which the checker scopes by their rule.
use Prim.Native.String.{◌++◌ as ◌<>◌}
use text.Mathlib.TextLemmas.{append_cancel_left}
use nodeguard.Prelude.{
  ◌≡◌, refl, sym, ap, ◌∙◌, ◌↔◌, inl, inr, String, true, false, ◌||◌, some, List, [], ◌∷◌, map,
  str_eq, arith, All, All-map, Option-cases,
}
use nodeguard.Prelude.Dict.{Dict, lookup, has}
use nodeguard.Template.Export.{Export, DiscoveryRule, Pairs, discovery_rules, proto_pairs}
use nodeguard.Template.Checker.{is_in, dict_of}
use nodeguard.Template.Names.{Carried}
use nodeguard.Generator.Table.{lld_key}
use nodeguard.Generator.Uuid.{Uuid5, make_uuid}
use nodeguard.Generator.Lookup.{All-zip, All-of_map, All-of_each, dict_of-lookup, dict_of-keys}

-- A baseline object is rendered again, or its removal is sanctioned.
abbrev pub Kept : List String → Dict String → String × String → Type 0
Kept sanctioned new p = (has p.0 new || is_in p.0 sanctioned) ≡ true

-- If whatever a look-up in the new pairs gives agrees with the baseline, carrying over is keeping.
Carried-iff_Kept :
    (sanctioned : List String) (new : Dict String) (p : String × String)
    → ((w : String) → lookup p.0 new ≡ some w → w ≡ p.1)
    → Carried sanctioned new p ↔ Kept sanctioned new p
Carried-iff_Kept sanctioned new p agree = elim (Option-cases (lookup p.0 new)) [
  | inl n ↦ ground (arith, n)
  | inr (w, y) ↦ ground (arith, y, agree w y)
]

All-iff_with {ℓ m n k} :
    {A : Type ℓ} {H : A → Type k} {P : A → Type m} {Q : A → Type n} (f : (x : A) → H x → P x ↔ Q x)
    (xs : List A)
    → All H xs
    → All P xs ↔ All Q xs
All-iff_with f [] h = (λ _. tt, λ _. tt)
All-iff_with f (x ∷ xs) h =
    let rest = All-iff_with f xs h.1 in
    (λ e. ((f x h.0).0 e.0, rest.0 e.1), λ e. ((f x h.0).1 e.0, rest.1 e.1))

-- A relation that the new pairs are in, and that fixes the baseline's values.
pub carry_iff :
    (R : String → String → Type 0) (sanctioned : List String) (new base : Pairs)
    → All (λ p. R p.0 p.1) new
    → All (λ p. (w : String) → R p.0 w → w ≡ p.1) base
    → All (Carried sanctioned (dict_of new)) base ↔ All (Kept sanctioned (dict_of new)) base
carry_iff R sanctioned new base h agree =
    All-iff_with
      (λ p g.
        Carried-iff_Kept sanctioned (dict_of new) p (λ w e. g w (dict_of-lookup R new h p.0 w e)))
      base agree

-- The index holds the object's uuid, and it is a text that is not empty.
abbrev pub Settled : Dict String → String × String → Type 0
Settled known p = (lookup p.0 known ≡ some p.1) × (str_eq p.1 "" ≡ false)

-- Two pairs do not give one identifier two uuids.
abbrev pub Agree : String × String → String × String → Type 0
Agree p q = p.0 ≡ q.0 → q.1 ≡ p.1

-- No identifier has two uuids, and no uuid is empty.
abbrev pub OneEach : Pairs → Type 0
OneEach ps = All (λ p. All (Agree p) ps × (str_eq p.1 "" ≡ false)) ps

lookup-Agree :
    (d : Dict String) (p : String × String)
    → ((k w : String) → lookup k d ≡ some w → p.0 ≡ k → w ≡ p.1)
    → has p.0 d ≡ true
    → lookup p.0 d ≡ some p.1
lookup-Agree d p agree there = elim (Option-cases (lookup p.0 d)) [
  | inl n ↦ absurd (ground (arith, n, there))
  | inr (w, y) ↦ y ∙ ap some (agree p.0 w y refl)
]

-- The index of such pairs holds each uuid.
pub OneEach-Settled : (ps : Pairs) → OneEach ps → All (Settled (dict_of ps)) ps
OneEach-Settled ps one =
    All-map
      (λ p (there, (agree, full)). (
        lookup-Agree (dict_of ps) p (dict_of-lookup (λ k w. p.0 ≡ k → w ≡ p.1) ps agree) there,
        full,
      ))
      ps (All-zip _ _ ps (dict_of-keys ps) one)

pub make_uuid-Settled :
    (uuid5 : Uuid5) (known : Dict String) (kind : String) (p : String × String)
    → Settled known p
    → make_uuid uuid5 known kind p.0 ≡ p.1
unfolding make_uuid
make_uuid-Settled uuid5 known kind p h = ground (arith, h.0, h.1)

-- Values that the generator makes, against settled ones.
pub Settled-iff :
    (uuid5 : Uuid5) (known : Dict String) (kind : String) (sanctioned : List String)
    (new base : Pairs)
    → All (λ p. p.1 ≡ make_uuid uuid5 known kind p.0) new
    → All (Settled known) base
    → All (Carried sanctioned (dict_of new)) base ↔ All (Kept sanctioned (dict_of new)) base
Settled-iff uuid5 known kind sanctioned new base h settled =
    carry_iff (λ k w. w ≡ make_uuid uuid5 known kind k) sanctioned new base h
      (All-map (λ p s w e. e ∙ make_uuid-Settled uuid5 known kind p s) base settled)

-- The same for prototypes, whose identifiers carry their rule's key.
module _ {ℓ} {P : Type ℓ} (field : DiscoveryRule → List P) (ident value : P → String)
    (made : String → String) where
  abbrev Scoped : String → String → Type 0
  Scoped k w = (q : String) → k ≡ lld_key <> "/" <> q → w ≡ made q

  scope_cancel : (k p q : String) → k ≡ lld_key → k <> "/" <> p ≡ lld_key <> "/" <> q → p ≡ q
  scope_cancel k p q e h =
      append_cancel_left "/" p q
        (append_cancel_left lld_key ("/" <> p) ("/" <> q) (ap (λ x. x <> ("/" <> p)) (sym e) ∙ h))

  -- Of a rule with that key, prototypes with such values.
  proto-Scoped :
      (dr : DiscoveryRule)
      → dr.key ≡ lld_key
      → All (λ p. value p ≡ made (ident p)) (field dr)
      → All
          (λ (p : String × String). Scoped p.0 p.1)
          (map (λ p. (dr.key <> "/" <> ident p, value p)) (field dr))
  proto-Scoped dr e h =
      All-of_map (λ (p : String × String). Scoped p.0 p.1)
        (λ p. (dr.key <> "/" <> ident p, value p)) (field dr)
        (All-map (λ p v q s. v ∙ ap made (scope_cancel dr.key (ident p) q e s)) (field dr) h)

  -- What is so related to a settled prototype is its value.
  proto-Settled :
      (dr : DiscoveryRule)
      → dr.key ≡ lld_key
      → All (λ p. made (ident p) ≡ value p) (field dr)
      → All
          (λ (p : String × String). (w : String) → Scoped p.0 w → w ≡ p.1)
          (map (λ p. (dr.key <> "/" <> ident p, value p)) (field dr))
  proto-Settled dr e h =
      All-of_map (λ (p : String × String). (w : String) → Scoped p.0 w → w ≡ p.1)
        (λ p. (dr.key <> "/" <> ident p, value p)) (field dr)
        (All-map (λ p v w r. r (ident p) (ap (λ x. x <> "/" <> ident p) e) ∙ v) (field dr) h)

  pub proto_iff :
      (sanctioned : List String) (exp base : Export)
      → All
          (λ (dr : DiscoveryRule).
            (dr.key ≡ lld_key) × All (λ p. value p ≡ made (ident p)) (field dr))
          (discovery_rules exp)
      → All
          (λ (dr : DiscoveryRule).
            (dr.key ≡ lld_key) × All (λ p. made (ident p) ≡ value p) (field dr))
          (discovery_rules base)
      → All
          (Carried sanctioned (dict_of (proto_pairs field ident value exp)))
          (proto_pairs field ident value base)
        ↔ All
            (Kept sanctioned (dict_of (proto_pairs field ident value exp)))
            (proto_pairs field ident value base)
  unfolding proto_pairs
  proto_iff sanctioned exp base new old =
      let scope : DiscoveryRule → Pairs =
        λ dr. map (λ p. (dr.key <> "/" <> ident p, value p)) (field dr) in
      carry_iff Scoped sanctioned (proto_pairs field ident value exp)
        (proto_pairs field ident value base)
        (All-of_each (λ (p : String × String). Scoped p.0 p.1) scope (discovery_rules exp)
          (All-map (λ dr h. proto-Scoped dr h.0 h.1) (discovery_rules exp) new))
        (All-of_each (λ (p : String × String). (w : String) → Scoped p.0 w → w ≡ p.1) scope
          (discovery_rules base)
          (All-map (λ dr h. proto-Settled dr h.0 h.1) (discovery_rules base) old))

-- Prototypes of the baseline whose look-ups are settled have the uuids that the generator makes.
pub protos-Settled {ℓ} :
    {P : Type ℓ} (field : DiscoveryRule → List P) (ident value : P → String) (uuid5 : Uuid5)
    (known : Dict String) (kind : String) (drs : List DiscoveryRule)
    → All (λ (dr : DiscoveryRule). dr.key ≡ lld_key) drs
    → All (λ (dr : DiscoveryRule). All (λ p. Settled known (ident p, value p)) (field dr)) drs
    → All
        (λ (dr : DiscoveryRule).
          (dr.key ≡ lld_key) × All (λ p. make_uuid uuid5 known kind (ident p) ≡ value p) (field dr))
        drs
protos-Settled field ident value uuid5 known kind drs keys settled =
    All-zip (λ (dr : DiscoveryRule). dr.key ≡ lld_key)
      (λ (dr : DiscoveryRule). All (λ p. make_uuid uuid5 known kind (ident p) ≡ value p) (field dr))
      drs keys
      (All-map
        (λ (dr : DiscoveryRule) h.
          All-map (λ p s. make_uuid-Settled uuid5 known kind (ident p, value p) s) (field dr) h)
        drs settled)
