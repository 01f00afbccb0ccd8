-- ===== src/Generator/Made.antt =====
-- The uuids of what zbx/gen-template.py renders, object by object.
use nodeguard.Prelude.{◌≡◌, refl, List, [], ◌∷◌, map, All, All-append, All-map}
use nodeguard.Template.Export.{
  Export, Item, Trigger, Prototype, DiscoveryRule, each, walk_items, walk_triggers, discovery_rules,
}
use nodeguard.Template.Uuids.{group_uuids, template_uuids}
use nodeguard.Generator.Table.{Row, Trig}
use nodeguard.Generator.Discovery.{RuleDef}
use nodeguard.Generator.Uuid.{UuidMaps, Uuid5, make_uuid}
use nodeguard.Generator.Render.{
  TriggerOut, if_any, trigger_with, render_trigger, render_item, render_master, render_proto,
  render_trigger_proto, render_rule, export_of,
}
use nodeguard.Generator.Reread.{
  or_empty, read_trigger, read_item, read_proto, read_rule, read_template, reread,
}
use nodeguard.Generator.Lookup.{All-of_map, All-of_each, All-always}

pub if_any-same : (ts : List TriggerOut) → or_empty (if_any ts) ≡ ts
if_any-same [] = refl
if_any-same (t ∷ ts) = refl

-- What a rendered object has: the uuid that `make_uuid` gives for its kind and identifier.
module _ (uuid5 : Uuid5) (maps : UuidMaps) where
  abbrev pub MadeTrigger : Trigger → Type 0
  MadeTrigger t = t.uuid ≡ make_uuid uuid5 maps.triggers "trigger" t.name

  abbrev pub MadeItem : Item → Type 0
  MadeItem i = (i.uuid ≡ make_uuid uuid5 maps.items "item" i.key) × All MadeTrigger i.triggers

  abbrev pub MadeRule : DiscoveryRule → Type 0
  MadeRule dr =
      (dr.uuid ≡ make_uuid uuid5 maps.discovery "discovery" dr.key)
      × All
          (λ (p : Prototype). p.uuid ≡ make_uuid uuid5 maps.item_prototypes "item_prototype" p.key)
          dr.item_prototypes
      × All
          (λ (t : Trigger).
            t.uuid ≡ make_uuid uuid5 maps.trigger_prototypes "trigger_prototype" t.name)
          dr.trigger_prototypes

  render_trigger-Made :
      (ts : List Trig) → All MadeTrigger (map read_trigger (map (render_trigger uuid5 maps) ts))
  unfolding render_trigger trigger_with read_trigger
  render_trigger-Made [] = tt
  render_trigger-Made (t ∷ ts) = (refl, render_trigger-Made ts)

  render_item-Made :
      (rows : List Row) → All MadeItem (map read_item (map (render_item uuid5 maps) rows))
  unfolding render_item read_item
  render_item-Made [] = tt
  render_item-Made (r ∷ rows) = (
    (
      refl,
      rw (if_any-same (map (render_trigger uuid5 maps) r.triggers))
          (render_trigger-Made r.triggers),
    ),
    render_item-Made rows,
  )

  render_rule-Made : (rule : RuleDef) → MadeRule (read_rule (render_rule uuid5 maps rule))
  unfolding render_rule read_rule render_proto read_proto render_trigger_proto trigger_with
      read_trigger
  render_rule-Made rule = (
    refl,
    All-of_map _ read_proto _
        (All-of_map _ (render_proto uuid5 maps) rule.item_prototypes (All-always _ (λ p. refl) _)),
    All-of_map _ read_trigger _ (
        All-of_map _ (render_trigger_proto uuid5 maps) rule.trigger_prototypes
          (All-always _ (λ t. refl) _)),
  )

  module _ (rows : List Row) (multi : List Trig) (rule : RuleDef) where
    abbrev made : Export
    made = reread (export_of uuid5 maps rows multi rule)

    pub walk_items-Made : All MadeItem (walk_items made)
    unfolding walk_items each reread export_of read_template read_item render_master
    walk_items-Made =
        let all : All MadeItem
            (map read_item (render_master uuid5 maps ∷ map (render_item uuid5 maps) rows)) =
          ((refl, tt), render_item-Made rows) in
        All-append MadeItem
          (map read_item (render_master uuid5 maps ∷ map (render_item uuid5 maps) rows)) [] all tt

    pub walk_triggers-Made : All MadeTrigger (walk_triggers made)
    unfolding walk_triggers reread export_of
    walk_triggers-Made =
        All-append MadeTrigger _ _
          (All-of_each MadeTrigger (λ (i : Item). i.triggers) (walk_items made)
            (All-map (λ i h. h.1) (walk_items made) walk_items-Made))
          (render_trigger-Made multi)

    pub discovery_rules-Made : All MadeRule (discovery_rules made)
    unfolding discovery_rules each reread export_of read_template
    discovery_rules-Made = (render_rule-Made rule, tt)

    pub discovery_rules-key : All (λ (dr : DiscoveryRule). dr.key ≡ rule.key) (discovery_rules made)
    unfolding discovery_rules each reread export_of read_template read_rule render_rule
    discovery_rules-key = (refl, tt)

    pub group_uuids-Made :
        All
          (λ p. p.1 ≡ make_uuid uuid5 maps.template_groups "template_group" p.0)
          (group_uuids made)
    unfolding reread export_of
    group_uuids-Made = (refl, tt)

    pub template_uuids-Made :
        All (λ p. p.1 ≡ make_uuid uuid5 maps.templates "template" p.0) (template_uuids made)
    unfolding reread export_of read_template
    template_uuids-Made = (refl, tt)
