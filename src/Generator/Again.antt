-- ===== src/Generator/Again.antt =====
-- Rendering again on what was rendered: zbx/gen-template.py, run on the file that it wrote.
use mathlib.Core.Path.{subst}
use nodeguard.Prelude.{All-split, ◌≡◌, refl, String, true, List, [], ◌∷◌, map, All, All-map}
use nodeguard.Prelude.Dict.{has}
use nodeguard.Template.Export.{
  Export, Item, Trigger, Prototype, DiscoveryRule, each, walk_items, walk_triggers, discovery_rules,
}
use nodeguard.Template.Checker.{dict_of}
use nodeguard.Template.Uuids.{group_uuids, template_uuids, item_uuids, trigger_uuids, rule_uuids}
use nodeguard.Generator.Table.{Row, Trig, kv_key, template_name, group_name}
use nodeguard.Generator.Rows.{build_rows}
use nodeguard.Generator.Discovery.{RuleDef, build_multi_item_triggers, build_discovery_rule}
use nodeguard.Generator.Uuid.{UuidMaps, load_uuid_maps, Uuid5, make_uuid}
use nodeguard.Generator.Render.{
  TriggerOut, trigger_with, render_trigger, render_item, render_master, render_proto,
  render_trigger_proto, render_rule, export_of, render,
}
use nodeguard.Generator.Reread.{
  read_trigger, read_item, read_proto, read_rule, read_template, reread,
}
use nodeguard.Generator.Lookup.{All-zip, All-of_map, All-in_map, All-in_each, dict_of-keys}
use nodeguard.Generator.Made.{
  walk_items-Made, walk_triggers-Made, discovery_rules-Made, group_uuids-Made, template_uuids-Made,
  if_any-same,
}
use nodeguard.Generator.Same.{
  make_uuid-again, map-same, trigger_with-same, protos_again, render_rule-same, export_of-same,
}

module _ (uuid5 : Uuid5) (maps : UuidMaps) (rows : List Row) (multi : List Trig)
    (rule : RuleDef) where
  abbrev made : Export
  made = reread (export_of uuid5 maps rows multi rule)

  abbrev again : UuidMaps
  again = load_uuid_maps made

  -- The same uuids for the item keys, and for the trigger names.
  SameItem : String → Type 0
  SameItem k = make_uuid uuid5 again.items "item" k ≡ make_uuid uuid5 maps.items "item" k

  SameTrigger : String → Type 0
  SameTrigger k =
      make_uuid uuid5 again.triggers "trigger" k ≡ make_uuid uuid5 maps.triggers "trigger" k

  items-same : All (λ (i : Item). SameItem i.key) (walk_items made)
  unfolding SameItem load_uuid_maps
  items-same =
      let new =
        All-of_map (λ (p : String × String). p.1 ≡ make_uuid uuid5 maps.items "item" p.0)
          (λ (i : Item). (i.key, i.uuid)) (walk_items made)
          (All-map (λ i h. h.0) (walk_items made) (walk_items-Made uuid5 maps rows multi rule)) in
      All-map
        (λ (i : Item) h. make_uuid-again uuid5 maps.items "item" (item_uuids made) new i.key h)
        (walk_items made)
        (All-in_map (λ (p : String × String). has p.0 (dict_of (item_uuids made)) ≡ true)
          (λ (i : Item). (i.key, i.uuid)) (walk_items made) (dict_of-keys (item_uuids made)))

  triggers-same : All (λ (t : Trigger). SameTrigger t.name) (walk_triggers made)
  unfolding SameTrigger load_uuid_maps
  triggers-same =
      let new =
        All-of_map (λ (p : String × String). p.1 ≡ make_uuid uuid5 maps.triggers "trigger" p.0)
          (λ (t : Trigger). (t.name, t.uuid)) (walk_triggers made)
          (walk_triggers-Made uuid5 maps rows multi rule) in
      All-map
        (λ (t : Trigger) h.
          make_uuid-again uuid5 maps.triggers "trigger" (trigger_uuids made) new t.name h)
        (walk_triggers made)
        (All-in_map (λ (p : String × String). has p.0 (dict_of (trigger_uuids made)) ≡ true)
          (λ (t : Trigger). (t.name, t.uuid)) (walk_triggers made)
          (dict_of-keys (trigger_uuids made)))

  -- The triggers of the items, and those of the top level.
  trigger_parts :
      All (λ (i : Item). All (λ (t : Trigger). SameTrigger t.name) i.triggers) (walk_items made)
      × All (λ (t : Trig). SameTrigger t.name) multi
  unfolding walk_triggers reread export_of render_trigger trigger_with read_trigger
  trigger_parts =
      let (inner, top) =
        All-split (λ (t : Trigger). SameTrigger t.name)
          (each (λ (i : Item). i.triggers) (walk_items made))
          (map read_trigger (map (render_trigger uuid5 maps) multi)) triggers-same in
      (
        All-in_each (λ (t : Trigger). SameTrigger t.name) (λ (i : Item). i.triggers)
            (walk_items made) inner,
        All-in_map (λ (t : TriggerOut). SameTrigger t.name) (render_trigger uuid5 maps) multi
            (All-in_map (λ (t : Trigger). SameTrigger t.name) read_trigger
              (map (render_trigger uuid5 maps) multi) top),
      )

  -- What the walk over the items finds of the rows.
  from_rows {ℓ} :
      (P : Item → Type ℓ)
      → All P (walk_items made)
      → P (read_item (render_master uuid5 maps))
        × All (λ r. P (read_item (render_item uuid5 maps r))) rows
  unfolding walk_items each reread export_of read_template
  from_rows P h =
      let (all, _) =
        All-split P (map read_item (render_master uuid5 maps ∷ map (render_item uuid5 maps) rows))
          [] h in
      (
        all.0,
        All-in_map (λ i. P (read_item i)) (render_item uuid5 maps) rows
            (All-in_map P read_item (map (render_item uuid5 maps) rows) all.1),
      )

  render_item-again :
      (r : Row)
      → SameItem (kv_key r.field)
      → All (λ (t : Trigger). SameTrigger t.name) (read_item (render_item uuid5 maps r)).triggers
      → render_item uuid5 again r ≡ render_item uuid5 maps r
  unfolding render_item render_trigger read_item SameItem SameTrigger read_trigger trigger_with
  render_item-again r e h =
      let names =
        All-in_map (λ (t : TriggerOut). SameTrigger t.name) (render_trigger uuid5 maps) r.triggers
          (All-in_map (λ (t : Trigger). SameTrigger t.name) read_trigger
            (map (render_trigger uuid5 maps) r.triggers)
            (subst (λ ts. All (λ (t : Trigger). SameTrigger t.name) (map read_trigger ts))
              (if_any-same (map (render_trigger uuid5 maps) r.triggers)) h)) in
      rw
        (
          e,
          trigger_with-same (make_uuid uuid5 maps.triggers "trigger")
              (make_uuid uuid5 again.triggers "trigger") r.triggers names,
        )
        refl

  rows-again : map (render_item uuid5 again) rows ≡ map (render_item uuid5 maps) rows
  unfolding render_item read_item
  rows-again =
      let names = (from_rows (λ i. SameItem i.key) items-same).1 in
      let inner =
        (from_rows (λ i. All (λ (t : Trigger). SameTrigger t.name) i.triggers) trigger_parts.0).1 in
      map-same (render_item uuid5 again) (render_item uuid5 maps) rows (
        All-map (λ r h. render_item-again r h.0 h.1) rows
          (All-zip (λ r. SameItem (kv_key r.field))
            (λ r.
              All (λ (t : Trigger). SameTrigger t.name)
                (read_item (render_item uuid5 maps r)).triggers)
            rows names inner))

  from_rule {ℓ} :
      (P : DiscoveryRule → Type ℓ)
      → All P (discovery_rules made)
      → P (read_rule (render_rule uuid5 maps rule))
  unfolding discovery_rules each reread export_of read_template
  from_rule P h = h.0

  rule_uuid-again :
      make_uuid uuid5 again.discovery "discovery" rule.key
      ≡ make_uuid uuid5 maps.discovery "discovery" rule.key
  unfolding load_uuid_maps read_rule render_rule
  rule_uuid-again =
      let pairs = rule_uuids made in
      let new =
        All-of_map (λ (p : String × String). p.1 ≡ make_uuid uuid5 maps.discovery "discovery" p.0)
          (λ (dr : DiscoveryRule). (dr.key, dr.uuid)) (discovery_rules made)
          (All-map (λ dr h. h.0) (discovery_rules made)
            (discovery_rules-Made uuid5 maps rows multi rule)) in
      make_uuid-again uuid5 maps.discovery "discovery" pairs new rule.key (
        from_rule (λ dr. has dr.key (dict_of pairs) ≡ true)
          (All-in_map (λ (p : String × String). has p.0 (dict_of pairs) ≡ true)
            (λ (dr : DiscoveryRule). (dr.key, dr.uuid)) (discovery_rules made)
            (dict_of-keys pairs)))

  rule-again : render_rule uuid5 again rule ≡ render_rule uuid5 maps rule
  unfolding load_uuid_maps render_rule render_proto render_trigger_proto read_rule read_proto
      read_trigger trigger_with
  rule-again =
      let made_rules = discovery_rules-Made uuid5 maps rows multi rule in
      let protos =
        protos_again (λ dr. dr.item_prototypes) (λ (p : Prototype). p.key) (λ p. p.uuid) uuid5
          maps.item_prototypes "item_prototype" (discovery_rules made)
          (All-map (λ dr h. h.1) (discovery_rules made) made_rules) in
      let trigger_protos =
        protos_again (λ dr. dr.trigger_prototypes) (λ (t : Trigger). t.name) (λ t. t.uuid) uuid5
          maps.trigger_prototypes "trigger_prototype" (discovery_rules made)
          (All-map (λ dr h. h.2) (discovery_rules made) made_rules) in
      render_rule-same uuid5 maps again rule rule_uuid-again
        (All-in_map _ (render_proto uuid5 maps) rule.item_prototypes (
          All-in_map _ read_proto (map (render_proto uuid5 maps) rule.item_prototypes)
            (from_rule _ protos)))
        (All-in_map _ (render_trigger_proto uuid5 maps) rule.trigger_prototypes (
          All-in_map _ read_trigger (map (render_trigger_proto uuid5 maps) rule.trigger_prototypes)
            (from_rule _ trigger_protos)))

  group-again :
      make_uuid uuid5 again.template_groups "template_group" group_name
      ≡ make_uuid uuid5 maps.template_groups "template_group" group_name
  unfolding load_uuid_maps reread export_of
  group-again =
      make_uuid-again uuid5 maps.template_groups "template_group" (group_uuids made)
        (group_uuids-Made uuid5 maps rows multi rule) group_name (dict_of-keys (group_uuids made)).0

  template-again :
      make_uuid uuid5 again.templates "template" template_name
      ≡ make_uuid uuid5 maps.templates "template" template_name
  unfolding load_uuid_maps reread export_of read_template
  template-again =
      make_uuid-again uuid5 maps.templates "template" (template_uuids made)
        (template_uuids-Made uuid5 maps rows multi rule) template_name
        (dict_of-keys (template_uuids made)).0

  pub export_of-again : export_of uuid5 again rows multi rule ≡ export_of uuid5 maps rows multi rule
  unfolding read_item render_master render_trigger SameItem SameTrigger
  export_of-again =
      export_of-same uuid5 maps again rows multi rule group-again template-again
        (from_rows (λ i. SameItem i.key) items-same).0 rows-again rule-again
        (trigger_with-same (make_uuid uuid5 maps.triggers "trigger")
          (make_uuid uuid5 again.triggers "trigger") multi trigger_parts.1)

-- Rendering on the template that was rendered gives it again, with any baseline and any new uuids.
pub render-render :
    (uuid5 : Uuid5) (base : Export) → render uuid5 (reread (render uuid5 base)) ≡ render uuid5 base
unfolding render
render-render uuid5 base =
    export_of-again uuid5 (load_uuid_maps base) build_rows build_multi_item_triggers
      build_discovery_rule
