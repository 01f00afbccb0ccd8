-- ===== src/Generator/Wiring.antt =====
-- What the table of zbx/gen-template.py promises to the import of the template: distinct identities,
-- masters and items that exist.
use Prim.Native.Char.{code}
use Prim.Native.String.{◌++◌ as ◌<>◌}
use nodeguard.Prelude.{
  ◌≡◌, refl, String, Bool, true, false, ◌&&◌, not, none, some, List, [], ◌∷◌, ◌++◌, map, any,
  str_eq, ◌==◌, if◌then◌else◌, arith, All,
}
use nodeguard.Prelude.Text.{skip_prefix}
use nodeguard.Template.Export.{Export, each}
use nodeguard.Template.Checker.{is_in}
use nodeguard.Prelude.Decimal.{decimal, decimal_from, nth}
use nodeguard.Template.Regexes.{has_duplicate, is_empty}
use nodeguard.Generator.Table.{
  Master, trig, row, rate_twin, kv_key, iref, template_name, frozen_kv_trigger,
  responder_down_trigger,
}
use nodeguard.Generator.Rows.{build_rows}
use nodeguard.Generator.Rows.Units.{unit_rows}
use nodeguard.Generator.Rows.Rates.{traffic_rows}
use nodeguard.Generator.Rows.Feeds.{feeds_rows, map_errors_rows}
use nodeguard.Generator.Rows.Clock.{clock_rows}
use nodeguard.Generator.Rows.Sanity.{stats2, counter_rows}
use nodeguard.Generator.Rows.Alerts.{alert_rows}
use nodeguard.Generator.Rows.Responding.{responder_rows}
use nodeguard.Generator.Rows.Geography.{geography_rows}
use nodeguard.Generator.Rows.Populations.{population_rows}
use nodeguard.Generator.Rows.Watchdog.{watchdog_rows}
use nodeguard.Generator.Discovery.{
  build_multi_item_triggers, build_discovery_rule, succ_key, age_key, feed_items, feed_triggers,
}
use nodeguard.Generator.Uuid.{Uuid5}
use nodeguard.Generator.Render.{
  TriggerOut, ItemOut, RuleOut, TemplateOut, ExportOut, trigger_with, render_trigger, render_item,
  render_master, render_proto, render_trigger_proto, render_rule, export_of, render,
}
use nodeguard.Generator.Reread.{or_empty}

abbrev pub out_items : ExportOut → List ItemOut
out_items exp = each (λ (t : TemplateOut). t.items) exp.templates

abbrev pub out_rules : ExportOut → List RuleOut
out_rules exp = each (λ (t : TemplateOut). t.discovery_rules) exp.templates

abbrev pub out_triggers : ExportOut → List TriggerOut
out_triggers exp = each (λ (i : ItemOut). or_empty i.triggers) (out_items exp) ++ exp.triggers

-- The text up to the bracket that closes an item key.
unfoldable pub key_at : String → String
key_at String.[] = String.[]
key_at (String.◌∷◌ c s) = let rest = key_at s in String.◌∷◌ c (if code c == 93 then "" else rest)

-- The item keys that a trigger expression names with this template.
unfoldable pub references : String → List String
unfolding key_at
references String.[] = []
references (String.◌∷◌ c s) =
    let rest = references s in
    elim (skip_prefix ("/" <> template_name <> "/") (String.◌∷◌ c s)) [
      | none ↦ rest
      | some key ↦ key_at key ∷ rest
    ]

unfoldable pub every {ℓ} : {A : Type ℓ} → (A → Bool) → List A → Bool
every p [] = true
every p (x ∷ xs) = p x && every p xs

pub every-All {ℓ} :
    {A : Type ℓ} (p : A → Bool) (xs : List A) → every p xs ≡ true → All (λ x. p x ≡ true) xs
unfolding every
every-All p [] e = tt
every-All p (x ∷ xs) e = (ground (arith, e), every-All p xs (ground (arith, e)))

-- The expression names a key, and only these.
unfoldable pub names_only : List String → String → Bool
names_only keys expression =
    let found = references expression in not (is_empty found) && every (λ k. is_in k keys) found

-- Each dependency is the name and the expression of one of these triggers.
unfoldable pub masters_among : List TriggerOut → TriggerOut → Bool
masters_among ts t =
    every
      (λ (m : Master).
        any (λ (u : TriggerOut). str_eq u.name m.name && str_eq u.expression m.expression) ts)
      (or_empty t.dependencies)

-- The master of an item is one of these keys, if it has one.
unfoldable pub master_among : List String → ItemOut → Bool
master_among keys i = elim i.master_item [ none ↦ true | some key ↦ is_in key keys ]

abbrev pub keys_of : List ItemOut → List String
keys_of = map (λ (i : ItemOut). i.key)

abbrev pub names_of : List TriggerOut → List String
names_of = map (λ (t : TriggerOut). t.name)

-- The template can be imported: what names another object finds it, and no two share an identity.
pub record Wired (exp : ExportOut) : Type 0 where
  pub keys : has_duplicate (keys_of (out_items exp)) ≡ false
  pub names : has_duplicate (names_of (out_triggers exp)) ≡ false
  pub masters : All (λ i. master_among (keys_of (out_items exp)) i ≡ true) (out_items exp)
  pub dependencies : All (λ t. masters_among (out_triggers exp) t ≡ true) (out_triggers exp)
  pub expressions :
      All
        (λ (t : TriggerOut). names_only (keys_of (out_items exp)) t.expression ≡ true)
        (out_triggers exp)
  pub prototypes :
      All
        (λ (dr : RuleOut).
          every
            (λ (t : TriggerOut). names_only (keys_of dr.item_prototypes) t.expression)
            dr.trigger_prototypes
          ≡ true)
        (out_rules exp)

-- Whatever the baseline, in the rendered template no two items share a key and no two triggers a
-- name; an item's master and a trigger's dependencies are rendered too, a dependency with the same
-- expression; each trigger expression names rendered items only, at least one, and that of a trigger
-- prototype item prototypes of its rule.
pub render-Wired : (uuid5 : Uuid5) (base : Export) → Wired (render uuid5 base)
unfolding has_duplicate key_at references names_only masters_among master_among every skip_prefix
    build_rows counter_rows stats2 row trig rate_twin kv_key iref frozen_kv_trigger
    responder_down_trigger unit_rows traffic_rows feeds_rows map_errors_rows clock_rows alert_rows
    responder_rows geography_rows population_rows watchdog_rows build_discovery_rule
    build_multi_item_triggers succ_key age_key feed_items feed_triggers render export_of render_item
    render_master render_rule render_proto render_trigger render_trigger_proto trigger_with each
    decimal decimal_from nth
render-Wired uuid5 base =
    let exp = render uuid5 base in
    record {
      keys = refl;
      names = refl;
      masters = every-All (λ i. master_among (keys_of (out_items exp)) i) (out_items exp) refl;
      dependencies = every-All (λ t. masters_among (out_triggers exp) t) (out_triggers exp) refl;
      expressions =
          every-All (λ (t : TriggerOut). names_only (keys_of (out_items exp)) t.expression)
            (out_triggers exp) refl;
      prototypes =
          every-All
            (λ (dr : RuleOut).
              every (λ (t : TriggerOut). names_only (keys_of dr.item_prototypes) t.expression)
                dr.trigger_prototypes)
            (out_rules exp) refl;
    }
