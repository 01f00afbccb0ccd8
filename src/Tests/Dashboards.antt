-- ===== src/Tests/Dashboards.antt =====
-- Runs of zbx/lib.py's model, and instances of its theorems.
use nodeguard.Prelude.{
  ℕ, ◌+◌, ◌/◌, ◌≤◌, ◌≡◌, refl, String, str_eq, if◌then◌else◌, none, some, List, [], ◌∷◌, All,
  length, arith,
}
use nodeguard.Prelude.Dict.{lookup, insert}
use nodeguard.Prelude.Decimal.{nth, decimal_from, decimal}
use nodeguard.Dashboard.Widget.{
  Place, number, enumerated, int_field, str_field, field_item, field_str,
}
use nodeguard.Dashboard.Builders.{plain_tile, itemvalue, honeycomb}
use nodeguard.Dashboard.Grid.{
  columns_from, split_columns, host_color, Adjacent, split_columns-Adjacent,
}
use nodeguard.Dashboard.Fleet.{
  Api, Row, answered, garbled, got, failed, no_members, call, resolve_group, items_from,
  resolve_items, ids_of, resolve_itemids,
}
use nodeguard.Dashboard.Fleet.Items.{last_id, resolve_itemids-last}

-- What the builders compute with.
runs : Unit {0}
unfolding nth decimal_from decimal enumerated itemvalue honeycomb columns_from split_columns
    host_color lookup insert call resolve_group items_from resolve_items ids_of resolve_itemids
runs = tt

printed : decimal 1024 ≡ "1024"
unfolding runs
printed = refl

abbrev corner : Place
corner = record { x = 0; y = 0; width = 18; height = 3 }

-- A tile with one threshold and nothing else.
tile_fields :
    (itemvalue
      (record (plain_tile corner "state" "42") { thresholds = (number 0, "81C784") ∷ [] })).fields
    ≡ record { ftype = field_item; name = "itemid"; value = "42" }
      ∷ int_field "show.0" 2
      ∷ str_field "thresholds.0.color" "81C784"
      ∷ record { ftype = field_str; name = "thresholds.0.threshold"; value = "0" }
      ∷ []
unfolding runs
tile_fields = refl

three : split_columns 3 72 0 ≡ (0, 24) ∷ (24, 24) ∷ (48, 24) ∷ []
unfolding runs
three = refl

split_columns-Adjacent_example :
    (length (split_columns 5 72 0) ≡ 5)
    × Adjacent 0 (72 / 5) (split_columns 5 72 0)
    × All (λ (c : ℕ × ℕ). (0 ≤ c.0) × (c.0 + c.1 ≤ 0 + 72)) (split_columns 5 72 0)
split_columns-Adjacent_example = split_columns-Adjacent 5 72 0 (omega arith)

abbrev row : String → String → Row
row itemid key = record {
  itemid = itemid;
  key = key;
  name = "n";
  value_type = "3";
  units = none;
  lastvalue = none;
}

abbrev rows : List Row
rows = row "1" "nodeguard.a" ∷ row "2" "nodeguard.b" ∷ row "3" "nodeguard.a" ∷ []

abbrev api : Api
api = record {
  hostgroup_get = λ g. answered ("7" ∷ []);
  host_get = λ g. answered [];
  item_get = λ h. if str_eq h "10" then answered rows else garbled;
  int = λ t. some 3;
}

empty_group : resolve_group api "fleet" ≡ failed (no_members "fleet")
unfolding runs
empty_group = refl

ids_resolved : resolve_itemids api "10" ≡ got (("nodeguard.a", "3") ∷ ("nodeguard.b", "2") ∷ [])
unfolding runs
ids_resolved = refl

resolve_itemids-last_example :
    (rs : List Row) × (api.item_get "10" ≡ answered rs)
    × (lookup "nodeguard.a" (("nodeguard.a", "3") ∷ ("nodeguard.b", "2") ∷ [])
        ≡ last_id "nodeguard.a" rs none)
resolve_itemids-last_example =
    resolve_itemids-last api "10" "nodeguard.a" (("nodeguard.a", "3") ∷ ("nodeguard.b", "2") ∷ [])
      ids_resolved
