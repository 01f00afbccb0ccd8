-- ===== src/Generator/Reread.antt =====
-- The rendered export of zbx/gen-template.py as zbx/check_template.py reads it: an absent list is an
-- empty one, and of a preprocessing step the first parameter counts.
use nodeguard.Prelude.{String, Option, none, some, List, [], ◌∷◌, map}
use nodeguard.Template.Export.{Export, Template, Item, Trigger, Prototype, DiscoveryRule, Step}
use nodeguard.Generator.Discovery.{Stage}
use nodeguard.Generator.Render.{TriggerOut, ItemOut, RuleOut, GroupOut, TemplateOut, ExportOut}

-- `d.get(key, [])`
abbrev pub or_empty {ℓ} : {A : Type ℓ} → Option (List A) → List A
or_empty none = []
or_empty (some xs) = xs

-- `step["parameters"][0]`
abbrev pub first_of : List String → String
first_of [] = ""
first_of (p ∷ ps) = p

unfoldable pub read_stage : Stage → Step
read_stage s = record { kind = s.type; parameter = first_of s.parameters }

unfoldable pub read_trigger : TriggerOut → Trigger
read_trigger t = record { name = t.name; uuid = t.uuid }

unfoldable pub read_item : ItemOut → Item
read_item i = record {
  key = i.key;
  name = i.name;
  uuid = i.uuid;
  preprocessing = map read_stage (or_empty i.preprocessing);
  triggers = map read_trigger (or_empty i.triggers);
}

unfoldable pub read_proto : ItemOut → Prototype
read_proto i = record {
  key = i.key;
  name = i.name;
  uuid = i.uuid;
  preprocessing = map read_stage (or_empty i.preprocessing);
}

unfoldable pub read_rule : RuleOut → DiscoveryRule
read_rule dr = record {
  key = dr.key;
  uuid = dr.uuid;
  item_prototypes = map read_proto dr.item_prototypes;
  trigger_prototypes = map read_trigger dr.trigger_prototypes;
}

unfoldable pub read_template : TemplateOut → Template
read_template t = record {
  template = t.template;
  uuid = t.uuid;
  items = map read_item t.items;
  discovery_rules = map read_rule t.discovery_rules;
}

unfoldable pub reread : ExportOut → Export
reread exp = record {
  template_groups =
      map (λ (g : GroupOut). record { name = g.name; uuid = g.uuid }) exp.template_groups;
  templates = map read_template exp.templates;
  triggers = map read_trigger exp.triggers;
}
