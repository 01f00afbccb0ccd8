-- ===== src/Generator/Uuid.antt =====
-- `load_uuid_maps` and `make_uuid` of zbx/gen-template.py. Python's `uuid.uuid5` of the fixed namespace
-- is a parameter: the bytes that it makes of a name.
use Prim.Native.String.{◌++◌ as ◌<>◌}
use nodeguard.Prelude.{
  ℕ, zero, suc, ◌+◌, ◌/◌, ◌%◌, String, none, some, List, [], ◌∷◌, map, str_eq, if◌then◌else◌,
}
use nodeguard.Prelude.Dict.{Dict, lookup}
use nodeguard.Prelude.Decimal.{nth}
use nodeguard.Template.Export.{
  Export, Prototype, Trigger, DiscoveryRule, Pairs, each, discovery_rules,
}
use nodeguard.Template.Checker.{dict_of}
use nodeguard.Template.Uuids.{group_uuids, template_uuids, item_uuids, trigger_uuids, rule_uuids}

pub record UuidMaps : Type 0 where
  pub template_groups : Dict String
  pub templates : Dict String
  pub items : Dict String
  pub triggers : Dict String
  pub discovery : Dict String
  pub item_prototypes : Dict String
  pub trigger_prototypes : Dict String

-- The prototypes with their uuids, without the rule that scopes them.
abbrev pub item_proto_uuids : Export → Pairs
item_proto_uuids exp =
    each (λ (dr : DiscoveryRule). map (λ (p : Prototype). (p.key, p.uuid)) dr.item_prototypes)
      (discovery_rules exp)

abbrev pub trigger_proto_uuids : Export → Pairs
trigger_proto_uuids exp =
    each (λ (dr : DiscoveryRule). map (λ (t : Trigger). (t.name, t.uuid)) dr.trigger_prototypes)
      (discovery_rules exp)

-- The loops fill the maps one by one; the triggers of the items come before the export's own.
unfoldable pub load_uuid_maps : Export → UuidMaps
load_uuid_maps exp = record {
  template_groups = dict_of (group_uuids exp);
  templates = dict_of (template_uuids exp);
  items = dict_of (item_uuids exp);
  triggers = dict_of (trigger_uuids exp);
  discovery = dict_of (rule_uuids exp);
  item_prototypes = dict_of (item_proto_uuids exp);
  trigger_prototypes = dict_of (trigger_proto_uuids exp);
}

abbrev pub Bytes : Type 0
Bytes = List ℕ

-- `uuid.uuid5(NODEGUARD_NS, name).bytes`
abbrev pub Uuid5 : Type 0
Uuid5 = String → Bytes

-- `b[i] = f(b[i])`
unfoldable pub update : ℕ → (ℕ → ℕ) → Bytes → Bytes
update i f [] = []
update zero f (b ∷ bs) = f b ∷ bs
update (suc i) f (b ∷ bs) = b ∷ update i f bs

-- `(b & 0x0F) | 0x40` and `(b & 0x3F) | 0x80`: the bits kept are below the bits set.
unfoldable pub set_version : ℕ → ℕ
set_version b = b % 16 + 64

unfoldable pub set_variant : ℕ → ℕ
set_variant b = b % 64 + 128

unfoldable pub force_v4 : Bytes → Bytes
force_v4 bs = update 8 set_variant (update 6 set_version bs)

-- The hexadecimal digits of bytes, as numbers.
unfoldable pub nibbles : Bytes → List ℕ
nibbles [] = []
nibbles (b ∷ bs) = b / 16 ∷ b % 16 ∷ nibbles bs

abbrev pub hex_digits : List String
hex_digits =
    "0" ∷ "1" ∷ "2" ∷ "3" ∷ "4" ∷ "5" ∷ "6" ∷ "7" ∷ "8" ∷ "9" ∷ "a" ∷ "b" ∷ "c" ∷ "d" ∷ "e" ∷ "f"
    ∷ []

unfoldable pub text_of : List ℕ → String
text_of [] = ""
text_of (n ∷ ns) = nth "f" hex_digits n <> text_of ns

-- `uuid.UUID(bytes=bytes(b)).hex`
unfoldable pub hex : Bytes → String
hex bs = text_of (nibbles bs)

-- A new object's uuid.
unfoldable pub mint : Uuid5 → String → String → String
mint uuid5 kind obj_key = hex (force_v4 (uuid5 (kind <> ":" <> obj_key)))

-- `maps[mapname]` is the first argument.
unfoldable pub make_uuid : Uuid5 → Dict String → String → String → String
make_uuid uuid5 known kind obj_key = elim (lookup obj_key known) [
  | none ↦ mint uuid5 kind obj_key
  | some existing ↦ if str_eq existing "" then mint uuid5 kind obj_key else existing
]
