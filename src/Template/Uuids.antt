-- ===== src/Template/Uuids.antt =====
-- `check_uuids` of zbx/check_template.py: the identities of objects that a monitoring server knows.
use Prim.Native.String.{◌++◌ as ◌<>◌}
use nodeguard.Prelude.{
  ◌≡◌, ◌↔◌, ◌⊎◌, String, Bool, true, Option, none, some, List, [], ◌∷◌, ◌++◌, map, str_eq,
  str_eq_iff, if◌then◌else◌, arith, All,
}
use nodeguard.Prelude.Dict.{Dict, lookup}
use nodeguard.Template.Export.{
  Export, Group, Template, Item, Trigger, DiscoveryRule, Pairs, walk_items, walk_triggers,
  discovery_rules, item_prototypes, trigger_prototypes,
}
use nodeguard.Template.Checker.{
  Checker, Removed, item, trigger, discovery_rule, item_prototype, trigger_prototype, is_in,
  dict_of, append_iff, report, report-failures,
}
use nodeguard.Template.Names.{Carried}

-- The problems of one kind of object: missing without a sanction, or with another uuid.
unfoldable pub problems_of : String → List String → Dict String → Pairs → List String
problems_of label sanctioned new [] = []
problems_of label sanctioned new ((k, v) ∷ base) =
    let rest = problems_of label sanctioned new base in
    elim (lookup k new) [
      | none ↦ if is_in k sanctioned then rest else (label <> " " <> k) ∷ rest
      | some w ↦ if str_eq w v then rest else (label <> " " <> k) ∷ rest
    ]

unfoldable pub cmp_map : String → Pairs → Pairs → List String → List String
unfolding problems_of
cmp_map label base new sanctioned = problems_of label sanctioned (dict_of new) base

abbrev pub group_uuids : Export → Pairs
group_uuids exp = map (λ (g : Group). (g.name, g.uuid)) exp.template_groups

abbrev pub template_uuids : Export → Pairs
template_uuids exp = map (λ (t : Template). (t.template, t.uuid)) exp.templates

abbrev pub item_uuids : Export → Pairs
item_uuids exp = map (λ (i : Item). (i.key, i.uuid)) (walk_items exp)

abbrev pub trigger_uuids : Export → Pairs
trigger_uuids exp = map (λ (t : Trigger). (t.name, t.uuid)) (walk_triggers exp)

abbrev pub rule_uuids : Export → Pairs
rule_uuids exp = map (λ (d : DiscoveryRule). (d.key, d.uuid)) (discovery_rules exp)

unfoldable pub uuid_problems : Export → Export → Removed → List String
uuid_problems exp base removed =
    cmp_map "template group" (group_uuids base) (group_uuids exp) []
    ++ cmp_map "template" (template_uuids base) (template_uuids exp) []
    ++ cmp_map "item" (item_uuids base) (item_uuids exp) (removed item)
    ++ cmp_map "trigger" (trigger_uuids base) (trigger_uuids exp) (removed trigger)
    ++ cmp_map "discovery rule" (rule_uuids base) (rule_uuids exp) (removed discovery_rule)
    ++ cmp_map "item prototype" (item_prototypes (λ p. p.uuid) base)
        (item_prototypes (λ p. p.uuid) exp) (removed item_prototype)
    ++ cmp_map "trigger prototype" (trigger_prototypes (λ t. t.uuid) base)
        (trigger_prototypes (λ t. t.uuid) exp) (removed trigger_prototype)

unfoldable pub check_uuids : Checker → Export → Export → Removed → Checker
check_uuids c exp base removed = report "uuid-carry" (uuid_problems exp base removed) c

problem_step :
    (o : Option String) (p v : String) (s : Bool) (rest : List String)
    → ((elim o [
      | none ↦ if s then rest else p ∷ rest
      | some w ↦ if str_eq w v then rest else p ∷ rest
    ])
        ≡ [])
      ↔ (((o ≡ some v) ⊎ ((o ≡ none) × (s ≡ true))) × (rest ≡ []))
problem_step none p v s rest = ground arith
problem_step (some w) p v s rest = ground (arith, str_eq_iff w v)

pub problems_iff :
    (label : String) (sanctioned : List String) (new : Dict String) (base : Pairs)
    → (problems_of label sanctioned new base ≡ []) ↔ All (Carried sanctioned new) base
unfolding problems_of
problems_iff label sanctioned new [] = ground arith
problems_iff label sanctioned new ((k, v) ∷ base) =
    let step =
      problem_step (lookup k new) (label <> " " <> k) v (is_in k sanctioned)
        (problems_of label sanctioned new base) in
    let rest = problems_iff label sanctioned new base in
    (λ e. let (here, r) = step.0 e in (here, rest.0 r), λ e. step.1 (e.0, rest.1 e.1))

-- Every object of the baseline keeps its uuid, or is absent with a sanction of its kind; groups and
-- templates cannot be sanctioned.
pub record KeepsUuids (exp base : Export) (removed : Removed) : Type 0 where
  pub groups : All (Carried [] (dict_of (group_uuids exp))) (group_uuids base)
  pub templates : All (Carried [] (dict_of (template_uuids exp))) (template_uuids base)
  pub items : All (Carried (removed item) (dict_of (item_uuids exp))) (item_uuids base)
  pub triggers : All (Carried (removed trigger) (dict_of (trigger_uuids exp))) (trigger_uuids base)
  pub rules : All (Carried (removed discovery_rule) (dict_of (rule_uuids exp))) (rule_uuids base)
  pub item_protos :
      All
        (Carried (removed item_prototype) (dict_of (item_prototypes (λ p. p.uuid) exp)))
        (item_prototypes (λ p. p.uuid) base)
  pub trigger_protos :
      All
        (Carried (removed trigger_prototype) (dict_of (trigger_prototypes (λ t. t.uuid) exp)))
        (trigger_prototypes (λ t. t.uuid) base)

cmp_map_iff :
    (label : String) (base new : Pairs) (sanctioned : List String)
    → (cmp_map label base new sanctioned ≡ []) ↔ All (Carried sanctioned (dict_of new)) base
unfolding cmp_map
cmp_map_iff label base new sanctioned = problems_iff label sanctioned (dict_of new) base

uuid_problems_iff :
    (exp base : Export) (removed : Removed)
    → (uuid_problems exp base removed ≡ []) ↔ KeepsUuids exp base removed
unfolding uuid_problems
uuid_problems_iff exp base removed =
    let a1 =
      append_iff _ _ (cmp_map_iff "template group" (group_uuids base) (group_uuids exp) [])
        (cmp_map_iff "template" (template_uuids base) (template_uuids exp) []) in
    let a2 =
      append_iff _ _ a1 (cmp_map_iff "item" (item_uuids base) (item_uuids exp) (removed item)) in
    let a3 =
      append_iff _ _ a2
        (cmp_map_iff "trigger" (trigger_uuids base) (trigger_uuids exp) (removed trigger)) in
    let a4 =
      append_iff _ _ a3 (
        cmp_map_iff "discovery rule" (rule_uuids base) (rule_uuids exp) (removed discovery_rule)) in
    let a5 = append_iff _ _ a4 (
      cmp_map_iff "item prototype" (item_prototypes (λ p. p.uuid) base)
        (item_prototypes (λ p. p.uuid) exp) (removed item_prototype)) in
    let all = append_iff _ _ a5 (
      cmp_map_iff "trigger prototype" (trigger_prototypes (λ t. t.uuid) base)
        (trigger_prototypes (λ t. t.uuid) exp) (removed trigger_prototype)) in
    (
      λ e.
          let ((((((g, t), i), tr), r), ip), tp) = all.0 e in
          record {
            groups = g;
            templates = t;
            items = i;
            triggers = tr;
            rules = r;
            item_protos = ip;
            trigger_protos = tp;
          },
      λ k. all.1 (
        (((((k.groups, k.templates), k.items), k.triggers), k.rules), k.item_protos),
        k.trigger_protos,
      ),
    )

-- The uuid check of a tally without failures counts none exactly if every object of the baseline keeps
-- its uuid, or is absent with a sanction of its kind.
pub check_uuids_iff :
    (c : Checker) (exp base : Export) (removed : Removed)
    → ((check_uuids c exp base removed).failures ≡ 0)
      ↔ ((c.failures ≡ 0) × KeepsUuids exp base removed)
unfolding check_uuids
check_uuids_iff c exp base removed =
    let r = report-failures "uuid-carry" (uuid_problems exp base removed) c in
    let u = uuid_problems_iff exp base removed in
    (λ e. let (z, n) = r.0 e in (z, u.0 n), λ e. r.1 (e.0, u.1 e.1))
