-- ===== src/Dashboard/Tiles.antt =====
-- The tiles of zbx/dashboards.py: their colour rules, their sizes, and rows and stacks of them.
use Prim.Native.String.{◌++◌ as ◌<>◌}
use nodeguard.Prelude.{
  ℕ, zero, suc, ◌+◌, ◌*◌, String, Bool, ◌||◌, Option, none, some, List, [], ◌∷◌, ◌==◌, ltb, str_eq,
  if◌then◌else◌,
}
use nodeguard.Prelude.Decimal.{decimal}
use nodeguard.Prelude.Dict.{Dict, lookup}
use nodeguard.Prelude.Text.{count, strip}
use nodeguard.Dashboard.Widget.{Place, text}
use nodeguard.Dashboard.Builders.{Threshold, Tile, plain_tile, itemvalue}
use nodeguard.Dashboard.Fleet.{Member, Item}
use nodeguard.Dashboard.Sizes.{
  Floats, value_chars_fallback, desc_size_for, value_size_for, header_chars,
}
use nodeguard.Dashboard.Canvas.{
  Ctx, header_too_long, Draw, pure, ◌>>=◌, ◌>>◌, add_widget, warn, item, item_key, fold_each,
  for_each,
}

-- GREEN, AMBER, RED and NEUTRAL
abbrev pub green : String
green = "81C784"

abbrev pub amber : String
amber = "FFB74D"

abbrev pub red : String
red = "E57373"

abbrev pub neutral : String
neutral = "ECEFF1"

abbrev pub from_value : String → String → Threshold
from_value value color = (text value, color)

-- ZERO_GOOD, ZERO_GOOD_WARN and NONZERO_GOOD
abbrev pub zero_good : List Threshold
zero_good = from_value "0" green ∷ from_value "1" red ∷ []

abbrev pub zero_good_warn : List Threshold
zero_good_warn = from_value "0" green ∷ from_value "1" amber ∷ []

abbrev pub nonzero_good : List Threshold
nonzero_good = from_value "0" red ∷ from_value "1" green ∷ []

-- TILE_THRESHOLDS
unfoldable pub tile_thresholds : Dict (List Threshold)
tile_thresholds =
    ("killswitch", zero_good)
    ∷ ("prog_match", nonzero_good)
    ∷ ("anomaly_count", zero_good)
    ∷ ("feeds_map_errors", zero_good)
    ∷ ("wd_lifeline_fail", zero_good)
    ∷ ("wd_canary_fail", from_value "0" green ∷ from_value "1" amber ∷ from_value "2" red ∷ [])
    ∷ ("feeds_failed", zero_good_warn)
    ∷ ("feeds_churn_held", zero_good_warn)
    ∷ ("feeds_journal_reset", zero_good_warn)
    ∷ ("rearm_count", zero_good_warn)
    ∷ ("blocks", nonzero_good)
    ∷ ("feeds_enforce", nonzero_good)
    ∷ ("feeds_approved", nonzero_good)
    ∷ ("feeds_entries", nonzero_good)
    ∷ ("sweep_age", from_value "0" green ∷ from_value "900" amber ∷ from_value "1800" red ∷ [])
    ∷ []

-- `TILE_THRESHOLDS.get(field, ())`
unfoldable pub thresholds_of : String → List Threshold
thresholds_of field = elim (lookup field tile_thresholds) [ none ↦ [] | some ts ↦ ts ]

-- `field in TILE_SPARKLINE`
unfoldable pub has_sparkline : String → Bool
has_sparkline field =
    str_eq field "blocks" || str_eq field "anomaly_count" || str_eq field "feeds_entries"

-- `vt in VT_NUMERIC`
abbrev pub is_numeric : ℕ → Bool
is_numeric vt = vt == 0 || vt == 3

-- The characters of a sample, with its decimal places and its units.
unfoldable pub sample_chars : Item → ℕ → String → ℕ
sample_chars rec decimals sample =
    let n =
      if is_numeric rec.value_type
      then (if ltb (count sample) 8 then count sample else 8)
      else count sample in
    let m = if decimals == 0 then n else n + (1 + decimals) in
    if str_eq rec.units "" then m else m + (1 + count rec.units)

unfoldable pub rendered_chars : Item → ℕ → ℕ
rendered_chars rec decimals =
    let sample = strip rec.lastvalue in
    if str_eq rec.units "unixtime"
    then 22
    else if str_eq rec.units "s"
    then 10
    else if str_eq sample ""
    then value_chars_fallback
    else sample_chars rec decimals sample

-- The decimal places: none for a text, 0 for a counter or a time, else 1.
unfoldable pub decimals_of : Item → Option ℕ
decimals_of rec =
    let vt = rec.value_type in
    if vt == 1 || vt == 4
    then none
    else if str_eq rec.units "unixtime"
    then some 0
    else if vt == 3
    then some 0
    else some 1

-- `decimals or 0`
abbrev pub or_zero : Option ℕ → ℕ
or_zero none = 0
or_zero (some n) = n

unfoldable pub tile_fields : Floats → Item → ℕ → ℕ → Option ℕ × Option ℕ
tile_fields fl rec height width =
    let decimals = decimals_of rec in
    (decimals, value_size_for fl (rendered_chars rec (or_zero decimals)) width height)

-- A warning, where the label is longer than the header shows.
unfoldable pub check_header : Ctx → String → ℕ → Draw (Unit {0})
check_header ctx label width =
    let budget = header_chars ctx.floats width in
    if ltb budget (count label)
    then warn (header_too_long label (count label) width budget)
    else pure tt

-- An entry of a row: width, label and kv field.
pub record Spec : Type 0 where
  pub width : ℕ
  pub label : String
  pub field : String

abbrev pub spec : ℕ → String → String → Spec
spec width label field = record { width = width; label = label; field = field }

-- The tile of a resolved item.
unfoldable pub tile_of : Ctx → Member → Place → Spec → Item → Tile
tile_of ctx host place s rec =
    let sizes = tile_fields ctx.floats rec place.height s.width in
    record (plain_tile place s.label rec.itemid) {
      thresholds = thresholds_of s.field;
      sparkline = has_sparkline s.field;
      description = host.name;
      desc_size = desc_size_for ctx.floats (count host.name) s.width place.height;
      decimals = sizes.0;
      value_size = sizes.1;
      bg_color = if is_numeric rec.value_type then "" else neutral;
    }

-- A turn of the loop of `tile_row`: it leaves the next tile's x.
unfoldable pub place_tile : Ctx → ℕ → Member → ℕ → ℕ → Spec → Draw ℕ
place_tile ctx y host height x s = do
  found ← item ctx host (item_key s.field)
  elim found [
    | none ↦ pure tt
    | some rec ↦
        check_header ctx s.label s.width
        >> add_widget (
            itemvalue
              (tile_of ctx host (record { x = x; y = y; width = s.width; height = height }) s rec))
  ]
  pure (x + s.width)

unfoldable pub tile_row : Ctx → ℕ → Member → List Spec → Draw ℕ
tile_row ctx y host specs = do x ← fold_each (place_tile ctx y host 3) 0 specs; pure (y + 3)

-- A turn of the loop of `leaderboard`, for the rank i + 1; the rows are 2 high.
unfoldable pub place_rank : Ctx → ℕ → ℕ → ℕ → Member → String → String → ℕ → Draw (Unit {0})
place_rank ctx x y w host title field_prefix i = do
  found ← item ctx host (item_key (field_prefix <> "_" <> decimal (suc i)))
  elim found [
    | none ↦ pure tt
    | some rec ↦
        let label = title <> " #" <> decimal (suc i) in
        let place : Place = record { x = x; y = y + i * 2; width = w; height = 2 } in
        check_header ctx label w
        >> add_widget (
            itemvalue (record (plain_tile place label rec.itemid) {
              value_size = (tile_fields ctx.floats rec 2 w).1;
            }))
  ]

-- `range(n)` from a number on.
unfoldable pub ranks : ℕ → ℕ → List ℕ
ranks i zero = []
ranks i (suc n) = i ∷ ranks (suc i) n

unfoldable pub leaderboard : Ctx → ℕ → ℕ → ℕ → Member → String → String → Draw (Unit {0})
leaderboard ctx x y w host title field_prefix =
    for_each (place_rank ctx x y w host title field_prefix) (ranks 0 5)
