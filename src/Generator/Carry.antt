-- ===== src/Generator/Carry.antt =====
-- The uuid carry-over of zbx/gen-template.py against the uuid check of zbx/check_template.py.
use nodeguard.Prelude.{◌≡◌, refl, ◌∙◌, ◌↔◌, String, List, [], All, All-map, map, str_eq, false}
use nodeguard.Template.Export.{
  Export, Item, Trigger, Prototype, DiscoveryRule, Pairs, each, walk_items, walk_triggers,
  discovery_rules, item_prototypes, trigger_prototypes,
}
use nodeguard.Template.Checker.{
  Checker, Removed, item, trigger, discovery_rule, item_prototype, trigger_prototype, dict_of,
}
use nodeguard.Template.Uuids.{
  group_uuids, template_uuids, item_uuids, trigger_uuids, rule_uuids, check_uuids, KeepsUuids,
  check_uuids_iff,
}
use nodeguard.Generator.Table.{lld_key, Row, Trig}
use nodeguard.Generator.Discovery.{RuleDef, build_multi_item_triggers, build_discovery_rule}
use nodeguard.Generator.Rows.{build_rows}
use nodeguard.Generator.Uuid.{UuidMaps, load_uuid_maps, Uuid5, make_uuid}
use nodeguard.Generator.Render.{export_of, render}
use nodeguard.Generator.Reread.{reread}
use nodeguard.Generator.Lookup.{All-zip, All-of_map, All-in_map, All-of_each, All-in_each}
use nodeguard.Generator.Made.{
  group_uuids-Made, template_uuids-Made, walk_items-Made, walk_triggers-Made, discovery_rules-Made,
  discovery_rules-key,
}
use nodeguard.Generator.Scoped.{
  Kept, Settled, Agree, OneEach, OneEach-Settled, Settled-iff, proto_iff, protos-Settled,
}

-- The prototypes of one kind, of all rules: none has an empty uuid, and none shares its identifier
-- with a prototype, of any rule, that has another uuid.
abbrev pub OneProtoEach :
    {P : Type 0} → (DiscoveryRule → List P) → (P → String) → (P → String) → Export → Type 0
OneProtoEach field ident value base =
    All
      (λ dr.
        All
          (λ p.
            All (λ dr'. All (λ q. ident p ≡ ident q → value q ≡ value p) (field dr'))
              (discovery_rules base)
            × (str_eq (value p) "" ≡ false))
          (field dr))
      (discovery_rules base)

-- A baseline in which, of each kind of object, no identifier has two uuids and no uuid is empty, and
-- all of whose discovery rules are the feeds'.
pub record SettledBase (base : Export) : Type 0 where
  pub groups : OneEach (group_uuids base)
  pub templates : OneEach (template_uuids base)
  pub items : OneEach (item_uuids base)
  pub triggers : OneEach (trigger_uuids base)
  pub rules : OneEach (rule_uuids base)
  pub feeds : All (λ (dr : DiscoveryRule). dr.key ≡ lld_key) (discovery_rules base)
  pub item_protos : OneProtoEach (λ dr. dr.item_prototypes) (λ p. p.key) (λ p. p.uuid) base
  pub trigger_protos : OneProtoEach (λ dr. dr.trigger_prototypes) (λ t. t.name) (λ t. t.uuid) base

-- The indexes of such a baseline hold the uuids.
record SettledMaps (base : Export) : Type 0 where
  groups : All (Settled (load_uuid_maps base).template_groups) (group_uuids base)
  templates : All (Settled (load_uuid_maps base).templates) (template_uuids base)
  items : All (Settled (load_uuid_maps base).items) (item_uuids base)
  triggers : All (Settled (load_uuid_maps base).triggers) (trigger_uuids base)
  rules : All (Settled (load_uuid_maps base).discovery) (rule_uuids base)
  item_protos :
      All
        (λ (dr : DiscoveryRule).
          All
            (λ (p : Prototype). Settled (load_uuid_maps base).item_prototypes (p.key, p.uuid))
            dr.item_prototypes)
        (discovery_rules base)
  trigger_protos :
      All
        (λ (dr : DiscoveryRule).
          All
            (λ (t : Trigger). Settled (load_uuid_maps base).trigger_prototypes (t.name, t.uuid))
            dr.trigger_prototypes)
        (discovery_rules base)

OneProtoEach-Settled :
    {P : Type 0} (field : DiscoveryRule → List P) (ident value : P → String) (base : Export)
    → OneProtoEach field ident value base
    → All
        (λ dr.
          All
            (λ p.
              Settled
                (dict_of
                  (each (λ d. map (λ q. (ident q, value q)) (field d)) (discovery_rules base)))
                (ident p, value p))
            (field dr))
        (discovery_rules base)
OneProtoEach-Settled field ident value base one =
    let pairs : DiscoveryRule → Pairs = λ d. map (λ q. (ident q, value q)) (field d) in
    let all = each pairs (discovery_rules base) in
    let flat : OneEach all = All-of_each _ pairs (discovery_rules base) (
      All-map
        (λ dr h.
          All-of_map _ (λ q. (ident q, value q)) (field dr)
            (All-map
              (λ p e. (
                All-of_each (Agree (ident p, value p)) pairs (discovery_rules base) (
                    All-map
                      (λ d g.
                        All-of_map (Agree (ident p, value p)) (λ q. (ident q, value q)) (field d) g)
                      (discovery_rules base) e.0),
                e.1,
              ))
              (field dr) h))
        (discovery_rules base) one) in
    All-map (λ dr h. All-in_map _ (λ q. (ident q, value q)) (field dr) h) (discovery_rules base)
      (All-in_each (Settled (dict_of all)) pairs (discovery_rules base) (OneEach-Settled all flat))

SettledBase-maps : (base : Export) → SettledBase base → SettledMaps base
unfolding load_uuid_maps
SettledBase-maps base s = record {
  groups = OneEach-Settled (group_uuids base) s.groups;
  templates = OneEach-Settled (template_uuids base) s.templates;
  items = OneEach-Settled (item_uuids base) s.items;
  triggers = OneEach-Settled (trigger_uuids base) s.triggers;
  rules = OneEach-Settled (rule_uuids base) s.rules;
  item_protos =
      OneProtoEach-Settled (λ dr. dr.item_prototypes) (λ p. p.key) (λ p. p.uuid) base s.item_protos;
  trigger_protos =
      OneProtoEach-Settled (λ dr. dr.trigger_prototypes) (λ t. t.name) (λ t. t.uuid) base
        s.trigger_protos;
}

-- Every object of the baseline is in the export, or is sanctioned as removed.
pub record KeepsObjects (exp base : Export) (removed : Removed) : Type 0 where
  pub groups : All (Kept [] (dict_of (group_uuids exp))) (group_uuids base)
  pub templates : All (Kept [] (dict_of (template_uuids exp))) (template_uuids base)
  pub items : All (Kept (removed item) (dict_of (item_uuids exp))) (item_uuids base)
  pub triggers : All (Kept (removed trigger) (dict_of (trigger_uuids exp))) (trigger_uuids base)
  pub rules : All (Kept (removed discovery_rule) (dict_of (rule_uuids exp))) (rule_uuids base)
  pub item_protos :
      All
        (Kept (removed item_prototype) (dict_of (item_prototypes (λ p. p.uuid) exp)))
        (item_prototypes (λ p. p.uuid) base)
  pub trigger_protos :
      All
        (Kept (removed trigger_prototype) (dict_of (trigger_prototypes (λ t. t.uuid) exp)))
        (trigger_prototypes (λ t. t.uuid) base)

-- The seven comparisons on what the table gives.
module _ (uuid5 : Uuid5) (base : Export) (rows : List Row) (multi : List Trig)
    (rule : RuleDef) where
  abbrev maps : UuidMaps
  maps = load_uuid_maps base

  abbrev exp : Export
  exp = reread (export_of uuid5 maps rows multi rule)

  KeepsUuids-iff_made :
      (removed : Removed)
      → rule.key ≡ lld_key
      → SettledBase base
      → KeepsUuids exp base removed ↔ KeepsObjects exp base removed
  KeepsUuids-iff_made removed key base_settled =
      let s = SettledBase-maps base base_settled in
      let groups =
        Settled-iff uuid5 maps.template_groups "template_group" [] (group_uuids exp)
          (group_uuids base) (group_uuids-Made uuid5 maps rows multi rule) s.groups in
      let templates =
        Settled-iff uuid5 maps.templates "template" [] (template_uuids exp) (template_uuids base)
          (template_uuids-Made uuid5 maps rows multi rule) s.templates in
      let items =
        Settled-iff uuid5 maps.items "item" (removed item) (item_uuids exp) (item_uuids base)
          (All-of_map (λ (p : String × String). p.1 ≡ make_uuid uuid5 maps.items "item" p.0)
            (λ (i : Item). (i.key, i.uuid)) (walk_items exp)
            (All-map (λ i h. h.0) (walk_items exp) (walk_items-Made uuid5 maps rows multi rule)))
          s.items in
      let triggers =
        Settled-iff uuid5 maps.triggers "trigger" (removed trigger) (trigger_uuids exp)
          (trigger_uuids base)
          (All-of_map (λ (p : String × String). p.1 ≡ make_uuid uuid5 maps.triggers "trigger" p.0)
            (λ (t : Trigger). (t.name, t.uuid)) (walk_triggers exp)
            (walk_triggers-Made uuid5 maps rows multi rule))
          s.triggers in
      let made = discovery_rules-Made uuid5 maps rows multi rule in
      let keys =
        All-map (λ dr h. h ∙ key) (discovery_rules exp)
          (discovery_rules-key uuid5 maps rows multi rule) in
      let rules =
        Settled-iff uuid5 maps.discovery "discovery" (removed discovery_rule) (rule_uuids exp)
          (rule_uuids base)
          (All-of_map
            (λ (p : String × String). p.1 ≡ make_uuid uuid5 maps.discovery "discovery" p.0)
            (λ (dr : DiscoveryRule). (dr.key, dr.uuid)) (discovery_rules exp)
            (All-map (λ dr h. h.0) (discovery_rules exp) made))
          s.rules in
      let protos =
        proto_iff (λ dr. dr.item_prototypes) (λ (p : Prototype). p.key) (λ p. p.uuid)
          (make_uuid uuid5 maps.item_prototypes "item_prototype") (removed item_prototype) exp base
          (All-zip (λ (dr : DiscoveryRule). dr.key ≡ lld_key) _ (discovery_rules exp) keys
            (All-map (λ dr h. h.1) (discovery_rules exp) made))
          (protos-Settled (λ dr. dr.item_prototypes) (λ (p : Prototype). p.key) (λ p. p.uuid) uuid5
            maps.item_prototypes "item_prototype" (discovery_rules base) base_settled.feeds
            s.item_protos) in
      let trigger_protos =
        proto_iff (λ dr. dr.trigger_prototypes) (λ (t : Trigger). t.name) (λ t. t.uuid)
          (make_uuid uuid5 maps.trigger_prototypes "trigger_prototype") (removed trigger_prototype)
          exp base
          (All-zip (λ (dr : DiscoveryRule). dr.key ≡ lld_key) _ (discovery_rules exp) keys
            (All-map (λ dr h. h.2) (discovery_rules exp) made))
          (protos-Settled (λ dr. dr.trigger_prototypes) (λ (t : Trigger). t.name) (λ t. t.uuid)
            uuid5 maps.trigger_prototypes "trigger_prototype" (discovery_rules base)
            base_settled.feeds s.trigger_protos) in
      (
        λ k. record {
          groups = groups.0 k.groups;
          templates = templates.0 k.templates;
          items = items.0 k.items;
          triggers = triggers.0 k.triggers;
          rules = rules.0 k.rules;
          item_protos = protos.0 k.item_protos;
          trigger_protos = trigger_protos.0 k.trigger_protos;
        },
        λ k. record {
          groups = groups.1 k.groups;
          templates = templates.1 k.templates;
          items = items.1 k.items;
          triggers = triggers.1 k.triggers;
          rules = rules.1 k.rules;
          item_protos = protos.1 k.item_protos;
          trigger_protos = trigger_protos.1 k.trigger_protos;
        },
      )

-- For a baseline in which, of each kind of object, no identifier has two uuids and no uuid is empty,
-- and whose discovery rules are the feeds': the uuid check of the rendered template counts no failure
-- exactly when none was counted before and each object of the baseline is rendered again or sanctioned
-- as removed, so what is rendered again has its uuid.
pub check_uuids-render :
    (uuid5 : Uuid5) (c : Checker) (base : Export) (removed : Removed)
    → SettledBase base
    → ((check_uuids c (reread (render uuid5 base)) base removed).failures ≡ 0)
      ↔ ((c.failures ≡ 0) × KeepsObjects (reread (render uuid5 base)) base removed)
unfolding render build_discovery_rule
check_uuids-render uuid5 c base removed s =
    let check = check_uuids_iff c (reread (render uuid5 base)) base removed in
    let keeps =
      KeepsUuids-iff_made uuid5 base build_rows build_multi_item_triggers build_discovery_rule
        removed refl s in
    (λ e. let (z, k) = check.0 e in (z, keeps.0 k), λ e. check.1 (e.0, keeps.1 e.1))
