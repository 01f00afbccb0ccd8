-- ===== src/Generator/Same.antt =====
-- When two uuid maps render the same of zbx/gen-template.py's definitions.
use nodeguard.Prelude.{
  ◌≡◌, refl, String, true, Option, none, some, List, [], ◌∷◌, map, str_eq, str_eq_iff,
  if◌then◌else◌, arith, All, All-map, Option-cases, inl, inr,
}
use nodeguard.Prelude.Dict.{Dict, lookup, has}
use nodeguard.Template.Export.{DiscoveryRule, Pairs, each}
use nodeguard.Template.Checker.{dict_of}
use nodeguard.Generator.Table.{Row, Trig, template_name, group_name, master_key}
use nodeguard.Generator.Discovery.{RuleDef, ProtoDef}
use nodeguard.Generator.Uuid.{UuidMaps, Uuid5, make_uuid, mint}
use nodeguard.Generator.Render.{
  trigger_with, render_trigger, render_item, render_master, render_proto, render_trigger_proto,
  render_rule, export_of,
}
use nodeguard.Generator.Lookup.{
  All-of_map, All-of_each, All-in_map, All-in_each, dict_of-lookup, dict_of-keys,
}

-- An identifier that was rendered gets the same uuid again.
pub make_uuid-again :
    (uuid5 : Uuid5) (known : Dict String) (kind : String) (new : Pairs)
    → All (λ p. p.1 ≡ make_uuid uuid5 known kind p.0) new
    → (k : String) → has k (dict_of new) ≡ true
    → make_uuid uuid5 (dict_of new) kind k ≡ make_uuid uuid5 known kind k
unfolding make_uuid
make_uuid-again uuid5 known kind new h k present = elim (Option-cases (lookup k (dict_of new))) [
  | inl n ↦ ground (arith, n, present)
  | inr (w, y) ↦
      same (lookup k known) w y
        (dict_of-lookup (λ k w. w ≡ make_uuid uuid5 known kind k) new h k w y)
]
  where
    same :
        (o : Option String) (w : String)
        → lookup k (dict_of new) ≡ some w
        → w ≡ (elim o [
          | none ↦ mint uuid5 kind k
          | some existing ↦ if str_eq existing "" then mint uuid5 kind k else existing
        ])
        → (elim (lookup k (dict_of new)) [
          | none ↦ mint uuid5 kind k
          | some existing ↦ if str_eq existing "" then mint uuid5 kind k else existing
        ])
          ≡ (elim o [
            | none ↦ mint uuid5 kind k
            | some existing ↦ if str_eq existing "" then mint uuid5 kind k else existing
          ])
    same none w y e = ground (arith, y, e)
    same (some v) w y e = ground (arith, y, e, str_eq_iff w "", str_eq_iff v "")

pub map-same {ℓ m} :
    {A : Type ℓ} {B : Type m} (f g : A → B) (xs : List A)
    → All (λ x. f x ≡ g x) xs
    → map f xs ≡ map g xs
map-same f g [] h = refl
map-same f g (x ∷ xs) h = rw (h.0, map-same f g xs h.1) refl

pub trigger_with-same :
    (make remake : String → String) (ts : List Trig)
    → All (λ (t : Trig). remake t.name ≡ make t.name) ts
    → map (trigger_with remake) ts ≡ map (trigger_with make) ts
unfolding trigger_with
trigger_with-same make remake [] h = refl
trigger_with-same make remake (t ∷ ts) h = rw (h.0, trigger_with-same make remake ts h.1) refl

-- The prototypes of rules, with the uuids that the generator made, get them again.
pub protos_again {ℓ} :
    {P : Type ℓ} (field : DiscoveryRule → List P) (ident value : P → String) (uuid5 : Uuid5)
    (known : Dict String) (kind : String) (drs : List DiscoveryRule)
    → All
        (λ (dr : DiscoveryRule).
          All (λ p. value p ≡ make_uuid uuid5 known kind (ident p)) (field dr))
        drs
    → All
        (λ (dr : DiscoveryRule).
          All
            (λ p.
              make_uuid uuid5
                (dict_of (each (λ dr. map (λ p. (ident p, value p)) (field dr)) drs))
                kind
                (ident p)
              ≡ make_uuid uuid5 known kind (ident p))
            (field dr))
        drs
protos_again field ident value uuid5 known kind drs h =
    let scope : DiscoveryRule → Pairs = λ dr. map (λ p. (ident p, value p)) (field dr) in
    let pairs = each scope drs in
    let new =
      All-of_each (λ (p : String × String). p.1 ≡ make_uuid uuid5 known kind p.0) scope drs
        (All-map
          (λ (dr : DiscoveryRule) g.
            All-of_map (λ (p : String × String). p.1 ≡ make_uuid uuid5 known kind p.0)
              (λ p. (ident p, value p)) (field dr) g)
          drs h) in
    All-map
      (λ (dr : DiscoveryRule) g.
        All-map (λ p q. make_uuid-again uuid5 known kind pairs new (ident p) q) (field dr)
          (All-in_map (λ (p : String × String). has p.0 (dict_of pairs) ≡ true)
            (λ p. (ident p, value p)) (field dr) g))
      drs
      (All-in_each (λ (p : String × String). has p.0 (dict_of pairs) ≡ true) scope drs
        (dict_of-keys pairs))

pub render_rule-same :
    (uuid5 : Uuid5) (maps again : UuidMaps) (rule : RuleDef)
    → make_uuid uuid5 again.discovery "discovery" rule.key
      ≡ make_uuid uuid5 maps.discovery "discovery" rule.key
    → All
        (λ (p : ProtoDef).
          make_uuid uuid5 again.item_prototypes "item_prototype" p.key
          ≡ make_uuid uuid5 maps.item_prototypes "item_prototype" p.key)
        rule.item_prototypes
    → All
        (λ (t : Trig).
          make_uuid uuid5 again.trigger_prototypes "trigger_prototype" t.name
          ≡ make_uuid uuid5 maps.trigger_prototypes "trigger_prototype" t.name)
        rule.trigger_prototypes
    → render_rule uuid5 again rule ≡ render_rule uuid5 maps rule
unfolding render_rule render_proto render_trigger_proto
render_rule-same uuid5 maps again rule e protos trigger_protos =
    let items =
      map-same (render_proto uuid5 again) (render_proto uuid5 maps) rule.item_prototypes
        (All-map (λ p h. rw h refl) rule.item_prototypes protos) in
    let triggers =
      trigger_with-same (make_uuid uuid5 maps.trigger_prototypes "trigger_prototype")
        (make_uuid uuid5 again.trigger_prototypes "trigger_prototype") rule.trigger_prototypes
        trigger_protos in
    rw (e, items, triggers) refl

pub export_of-same :
    (uuid5 : Uuid5) (maps again : UuidMaps) (rows : List Row) (multi : List Trig) (rule : RuleDef)
    → make_uuid uuid5 again.template_groups "template_group" group_name
      ≡ make_uuid uuid5 maps.template_groups "template_group" group_name
    → make_uuid uuid5 again.templates "template" template_name
      ≡ make_uuid uuid5 maps.templates "template" template_name
    → make_uuid uuid5 again.items "item" master_key ≡ make_uuid uuid5 maps.items "item" master_key
    → map (render_item uuid5 again) rows ≡ map (render_item uuid5 maps) rows
    → render_rule uuid5 again rule ≡ render_rule uuid5 maps rule
    → map (render_trigger uuid5 again) multi ≡ map (render_trigger uuid5 maps) multi
    → export_of uuid5 again rows multi rule ≡ export_of uuid5 maps rows multi rule
unfolding export_of render_master
export_of-same uuid5 maps again rows multi rule group template master items rules triggers =
    rw (group, template, master, items, rules, triggers) refl
