-- ===== src/Generator/Render.antt =====
-- The rendering of zbx/gen-template.py: the table as an export, with every uuid of the baseline carried
-- over. A key that an object lacks is `none`.
use Prim.Native.String.{◌++◌ as ◌<>◌}
use nodeguard.Prelude.{String, Option, none, some, List, [], ◌∷◌, map, str_eq, if◌then◌else◌}
use nodeguard.Template.Export.{Export}
use nodeguard.Generator.Table.{template_name, group_name, master_key, kv_key, rx, Master, Trig, Row}
use nodeguard.Generator.Rows.{build_rows}
use nodeguard.Generator.Discovery.{
  build_multi_item_triggers, Stage, ProtoDef, RuleDef, build_discovery_rule,
}
use nodeguard.Generator.Uuid.{UuidMaps, load_uuid_maps, Uuid5, make_uuid}

pub record TriggerOut : Type 0 where
  pub uuid : String
  pub name : String
  pub expression : String
  pub priority : String
  pub description : String
  pub dependencies : Option (List Master)

pub record ItemOut : Type 0 where
  pub uuid : String
  pub name : String
  pub type : Option String
  pub key : String
  pub delay : String
  pub value_type : String
  pub units : Option String
  pub description : String
  pub history : String
  pub trends : String
  pub master_item : Option String
  pub preprocessing : Option (List Stage)
  pub triggers : Option (List TriggerOut)

pub record RuleOut : Type 0 where
  pub uuid : String
  pub name : String
  pub type : String
  pub key : String
  pub delay : String
  pub lifetime : String
  pub description : String
  pub item_prototypes : List ItemOut
  pub trigger_prototypes : List TriggerOut
  pub master_item : String
  pub preprocessing : List Stage

pub record GroupOut : Type 0 where
  pub uuid : String
  pub name : String

pub record TemplateOut : Type 0 where
  pub uuid : String
  pub template : String
  pub name : String
  pub description : String
  pub groups : List String
  pub items : List ItemOut
  pub discovery_rules : List RuleOut

pub record ExportOut : Type 0 where
  pub version : String
  pub template_groups : List GroupOut
  pub templates : List TemplateOut
  pub triggers : List TriggerOut

-- `if xs: d[...] = xs`
abbrev pub if_any {ℓ} : {A : Type ℓ} → List A → Option (List A)
if_any [] = none
if_any (x ∷ xs) = some (x ∷ xs)

-- `if t: d[...] = t`
abbrev pub if_text : Option String → Option String
if_text none = none
if_text (some t) = if str_eq t "" then none else some t

-- `a or b`
abbrev pub text_or : Option String → String → String
text_or none b = b
text_or (some a) b = if str_eq a "" then b else a

unfoldable pub extraction : String → Stage
extraction regex = record { type = "REGEX"; parameters = regex ∷ "\\1" ∷ [] }

unfoldable pub change_per_second : Stage
change_per_second = record { type = "CHANGE_PER_SECOND"; parameters = "" ∷ [] }

-- `render_trigger` with the uuid that it makes for the trigger's name.
unfoldable pub trigger_with : (String → String) → Trig → TriggerOut
trigger_with make t = record {
  uuid = make t.name;
  name = t.name;
  expression = t.expression;
  priority = t.priority;
  description = t.description;
  dependencies = if_any t.depends_on;
}

module _ (uuid5 : Uuid5) (maps : UuidMaps) where
  unfoldable pub render_trigger : Trig → TriggerOut
  render_trigger = trigger_with (make_uuid uuid5 maps.triggers "trigger")

  unfoldable pub render_item : Row → ItemOut
  render_item r =
      let key = kv_key r.field in
      let pre = extraction (rx (text_or r.rate_of r.field)) in
      record {
        uuid = make_uuid uuid5 maps.items "item" key;
        name = r.name;
        type = some "DEPENDENT";
        key = key;
        delay = "0";
        value_type = r.value_type;
        units = if_text r.units;
        description = r.description;
        history = r.history;
        trends = r.trends;
        master_item = some master_key;
        preprocessing = some (if r.rate then pre ∷ change_per_second ∷ [] else pre ∷ []);
        triggers = if_any (map render_trigger r.triggers);
      }

  unfoldable pub render_master : ItemOut
  render_master = record {
    uuid = make_uuid uuid5 maps.items "item" master_key;
    name = "nodeguard kv raw";
    type = none;
    key = master_key;
    delay = "1m";
    value_type = "TEXT";
    units = none;
    description =
        "Master item: the whole nodeguard kv export in one agent poll. Every other item is "
        <> "dependent on it. Short history retention aids torn-parse debugging.";
    history = "1d";
    trends = "0";
    master_item = none;
    preprocessing = none;
    triggers = none;
  }

  unfoldable pub render_proto : ProtoDef → ItemOut
  render_proto ip = record {
    uuid = make_uuid uuid5 maps.item_prototypes "item_prototype" ip.key;
    name = ip.name;
    type = some "DEPENDENT";
    key = ip.key;
    delay = "0";
    value_type = ip.value_type;
    units = some ip.units;
    description = ip.description;
    history = ip.history;
    trends = ip.trends;
    master_item = some master_key;
    preprocessing = some (extraction ip.regex ∷ []);
    triggers = none;
  }

  unfoldable pub render_trigger_proto : Trig → TriggerOut
  render_trigger_proto = trigger_with (make_uuid uuid5 maps.trigger_prototypes "trigger_prototype")

  -- `render_discovery` of a rule.
  unfoldable pub render_rule : RuleDef → RuleOut
  render_rule src = record {
    uuid = make_uuid uuid5 maps.discovery "discovery" src.key;
    name = src.name;
    type = "DEPENDENT";
    key = src.key;
    delay = "0";
    lifetime = src.lifetime;
    description = src.description;
    item_prototypes = map render_proto src.item_prototypes;
    trigger_prototypes = map render_trigger_proto src.trigger_prototypes;
    master_item = master_key;
    preprocessing = src.preprocessing;
  }

  -- The export that the table gives.
  unfoldable pub export_of : List Row → List Trig → RuleDef → ExportOut
  export_of rows multi rule = record {
    version = "7.4";
    template_groups =
        record {
          uuid = make_uuid uuid5 maps.template_groups "template_group" group_name;
          name = group_name;
        }
        ∷ [];
    templates =
        record {
          uuid = make_uuid uuid5 maps.templates "template" template_name;
          template = template_name;
          name = template_name;
          description =
              "nodeguard XDP firewall + Suricata IPS monitoring. Requires the nodeguard.kv "
              <> "UserParameter and sudoers rule from the nodeguard repo (etc/).";
          groups = group_name ∷ [];
          items = render_master ∷ map render_item rows;
          discovery_rules = render_rule rule ∷ [];
        }
        ∷ [];
    triggers = map render_trigger multi;
  }

-- `render`, on the committed baseline.
unfoldable pub render : Uuid5 → Export → ExportOut
render uuid5 committed =
    export_of uuid5 (load_uuid_maps committed) build_rows build_multi_item_triggers
      build_discovery_rule
