-- ===== src/Template/Export.antt =====
-- A template export as zbx/check_template.py reads it, and its walks. The fields that the checks read
-- are there: an export without one is a KeyError, which also ends the program with a failure.
use nodeguard.Prelude.{String, List, [], ◌∷◌, ◌++◌, map}
use Prim.Native.String.{◌++◌ as ◌<>◌}

-- A preprocessing step: its type and its first parameter.
pub record Step : Type 0 where
  pub kind : String
  pub parameter : String

pub record Trigger : Type 0 where
  pub name : String
  pub uuid : String

pub record Item : Type 0 where
  pub key : String
  pub name : String
  pub uuid : String
  pub preprocessing : List Step
  pub triggers : List Trigger

pub record Prototype : Type 0 where
  pub key : String
  pub name : String
  pub uuid : String
  pub preprocessing : List Step

pub record DiscoveryRule : Type 0 where
  pub key : String
  pub uuid : String
  pub item_prototypes : List Prototype
  pub trigger_prototypes : List Trigger

pub record Template : Type 0 where
  pub template : String
  pub uuid : String
  pub items : List Item
  pub discovery_rules : List DiscoveryRule

pub record Group : Type 0 where
  pub name : String
  pub uuid : String

pub record Export : Type 0 where
  pub template_groups : List Group
  pub templates : List Template
  pub triggers : List Trigger

-- `for x in xs: for y in f(x): yield y`
unfoldable pub each {ℓ m} : {A : Type ℓ} {B : Type m} → (A → List B) → List A → List B
each f [] = []
each f (x ∷ xs) = f x ++ each f xs

unfoldable pub walk_items : Export → List Item
unfolding each
walk_items exp = each (λ (t : Template). t.items) exp.templates

unfoldable pub walk_triggers : Export → List Trigger
unfolding each
walk_triggers exp = each (λ (i : Item). i.triggers) (walk_items exp) ++ exp.triggers

unfoldable pub discovery_rules : Export → List DiscoveryRule
unfolding each
discovery_rules exp = each (λ (t : Template). t.discovery_rules) exp.templates

-- Identifiers with a value of each, as the checks compare them.
abbrev pub Pairs : Type 0
Pairs = List (String × String)

-- `proto_pairs`: identifiers are scoped by their discovery rule. The fields that its callers name
-- are functions here.
unfoldable pub proto_pairs {ℓ} :
    {P : Type ℓ} → (DiscoveryRule → List P) → (P → String) → (P → String) → Export → Pairs
unfolding each
proto_pairs field ident value exp =
    each (λ dr. map (λ p. (dr.key <> "/" <> ident p, value p)) (field dr)) (discovery_rules exp)

abbrev pub item_prototypes : (Prototype → String) → Export → Pairs
item_prototypes value = proto_pairs (λ dr. dr.item_prototypes) (λ (p : Prototype). p.key) value

abbrev pub trigger_prototypes : (Trigger → String) → Export → Pairs
trigger_prototypes value = proto_pairs (λ dr. dr.trigger_prototypes) (λ (p : Trigger). p.name) value
