-- ===== src/Dashboard/Builders.antt =====
-- The widget builders of zbx/lib.py.
use Prim.Native.String.{◌++◌ as ◌<>◌}
use nodeguard.Prelude.{
  ℕ, String, Bool, false, Option, none, some, List, [], ◌∷◌, ◌++◌, if◌then◌else◌,
}
use nodeguard.Prelude.Decimal.{decimal}
use nodeguard.Dashboard.Widget.{
  field_str, field_group, field_host, field_item, Shown, show_description, show_value,
  show_sparkline, show_number, Scalar, number, text, Field, field, int_field, str_field, Place,
  Widget, widget, enumerated, is_nonempty,
}

-- A colour for values from a bound on.
abbrev pub Threshold : Type 0
Threshold = Scalar × String

abbrev pub threshold_fields : ℕ → Threshold → List Field
threshold_fields i (val, color) =
    str_field ("thresholds." <> decimal i <> ".color") color
    ∷ field field_str ("thresholds." <> decimal i <> ".threshold") val
    ∷ []

-- DESC_SIZE
abbrev pub desc_size_default : ℕ
desc_size_default = 13

pub record Tile : Type 0 where
  pub place : Place
  pub name : String
  pub itemid : String
  pub thresholds : List Threshold
  pub sparkline : Bool
  pub description : String
  pub decimals : Option ℕ
  pub value_size : Option ℕ
  pub desc_size : ℕ
  pub sparkline_from : String
  pub bg_color : String

-- A tile with the defaults of the parameters.
abbrev pub plain_tile : Place → String → String → Tile
plain_tile place name itemid = record {
  place = place;
  name = name;
  itemid = itemid;
  thresholds = [];
  sparkline = false;
  description = "";
  decimals = none;
  value_size = none;
  desc_size = desc_size_default;
  sparkline_from = "now-3h";
  bg_color = "";
}

-- What the tile shows.
abbrev pub shown : Tile → List Shown
shown t =
    (if is_nonempty t.description then show_description ∷ [] else [])
    ++ (show_value ∷ [])
    ++ (if t.sparkline then show_sparkline ∷ [] else [])

abbrev pub show_fields : ℕ → Shown → List Field
show_fields i what = int_field ("show." <> decimal i) (show_number what) ∷ []

abbrev pub description_fields : Tile → List Field
description_fields t =
    str_field "description" t.description
    ∷ int_field "desc_size" t.desc_size
    ∷ int_field "desc_v_pos" 0
    ∷ int_field "desc_h_pos" 1
    ∷ []

abbrev pub sparkline_fields : Tile → List Field
sparkline_fields t =
    str_field "sparkline.color" "3388CC"
    ∷ int_field "sparkline.time_period.from_type" 0
    ∷ str_field "sparkline.time_period.from" t.sparkline_from
    ∷ []

-- `if n is not None: fl.append(...)`
abbrev pub optional : String → Option ℕ → List Field
optional name none = []
optional name (some n) = int_field name n ∷ []

unfoldable pub itemvalue : Tile → Widget
itemvalue t = widget "item" t.place t.name (
    (field field_item "itemid" (text t.itemid) ∷ [])
    ++ enumerated show_fields 0 (shown t)
    ++ (if is_nonempty t.description then description_fields t else [])
    ++ (if is_nonempty t.bg_color then str_field "bg_color" t.bg_color ∷ [] else [])
    ++ optional "decimal_places" t.decimals
    ++ optional "value_size" t.value_size
    ++ enumerated threshold_fields 0 t.thresholds
    ++ (if t.sparkline then sparkline_fields t else []))

pub record Dial : Type 0 where
  pub place : Place
  pub name : String
  pub itemid : String
  pub vmin : Scalar
  pub vmax : Scalar
  pub thresholds : List Threshold
  pub description : String
  pub desc_size : ℕ
  pub decimals : ℕ
  pub value_size : ℕ

abbrev pub plain_dial : Place → String → String → Dial
plain_dial place name itemid = record {
  place = place;
  name = name;
  itemid = itemid;
  vmin = number 0;
  vmax = number 100;
  thresholds = [];
  description = "";
  desc_size = desc_size_default;
  decimals = 0;
  value_size = 28;
}

-- `if thresholds:`
abbrev pub arc_fields : List Threshold → List Field
arc_fields [] = []
arc_fields (_ ∷ _) =
    int_field "th_show_arc" 1 ∷ int_field "th_arc_size" 12 ∷ int_field "th_show_labels" 1 ∷ []

unfoldable pub gauge : Dial → Widget
gauge d = widget "gauge" d.place d.name (
    (field field_item "itemid" (text d.itemid)
      ∷ field field_str "min" d.vmin
      ∷ field field_str "max" d.vmax
      ∷ str_field "description" d.description
      ∷ int_field "desc_size" d.desc_size
      ∷ int_field "desc_v_pos" 0
      ∷ int_field "decimal_places" d.decimals
      ∷ int_field "value_size" d.value_size
      ∷ [])
    ++ arc_fields d.thresholds
    ++ enumerated threshold_fields 0 d.thresholds)

-- A string or a list of them.
pub data Patterns : Type 0 where
  one : String → Patterns
  many : List String → Patterns

abbrev pub patterns_of : Patterns → List String
patterns_of (one p) = p ∷ []
patterns_of (many ps) = ps

pub record Dataset : Type 0 where
  pub hosts : Patterns
  pub items : Patterns
  pub color : String

abbrev pub pattern_fields : String → ℕ → ℕ → String → List Field
pattern_fields kind i j p = str_field ("ds." <> decimal i <> "." <> kind <> "." <> decimal j) p ∷ []

abbrev pub dataset_fields : Bool → ℕ → Dataset → List Field
dataset_fields stacked i d =
    enumerated (pattern_fields "hosts" i) 0 (patterns_of d.hosts)
    ++ enumerated (pattern_fields "items" i) 0 (patterns_of d.items)
    ++ (str_field ("ds." <> decimal i <> ".color") d.color ∷ [])
    ++ (if stacked then int_field ("ds." <> decimal i <> ".stacked") 1 ∷ [] else [])

-- A graph takes a reference from the sequence; without one left, `StopIteration` ends the generator.
unfoldable pub svggraph :
    Place → String → List Dataset → List String → Bool → ℕ → ℕ → Option (Widget × List String)
svggraph place name datasets [] stacked legend_lines legend_columns = none
svggraph place name datasets (ref ∷ refseq) stacked legend_lines legend_columns = some (
  widget "svggraph" place name (
      (str_field "reference" ref ∷ [])
      ++ enumerated (dataset_fields stacked) 0 datasets
      ++ (int_field "legend_lines" legend_lines
          ∷ int_field "legend_columns" legend_columns
          ∷ int_field "legend_lines_mode" 1
          ∷ [])),
  refseq,
)

unfoldable pub pie : Place → String → String → List String → Widget
pie place name host_pattern item_patterns = widget "piechart" place name (
    (str_field "ds.0.hosts.0" host_pattern ∷ int_field "ds.0.color_palette" 0 ∷ [])
    ++ enumerated (λ j ip. str_field ("ds.0.items." <> decimal j) ip ∷ []) 0 item_patterns)

pub record Comb : Type 0 where
  pub place : Place
  pub name : String
  pub item_pattern : String
  pub thresholds : List Threshold
  pub groupid : Option String
  pub hostid : Option String
  pub primary_label : String
  pub primary_label_size : ℕ
  pub secondary_label_size : ℕ

-- A honeycomb is for one host, else for a group; ValueError without either.
abbrev pub scope_fields : Option String → Option String → Option (List Field)
scope_fields hostid groupid = elim hostid [
  | some id ↦ some (field field_host "hostids.0" (text id) ∷ [])
  | none ↦ elim groupid [
    | some id ↦ some (field field_group "groupids.0" (text id) ∷ [])
    | none ↦ none
  ]
]

abbrev pub label_fields : Comb → List Field
label_fields c =
    str_field "items.0" c.item_pattern
    ∷ int_field "primary_label_type" 0
    ∷ str_field "primary_label" c.primary_label
    ∷ int_field "primary_label_size_type" 1
    ∷ int_field "primary_label_size" c.primary_label_size
    ∷ int_field "secondary_label_type" 1
    ∷ int_field "secondary_label_size_type" 1
    ∷ int_field "secondary_label_size" c.secondary_label_size
    ∷ int_field "secondary_label_bold" 1
    ∷ []

unfoldable pub honeycomb : Comb → Option Widget
honeycomb c = elim (scope_fields c.hostid c.groupid) [
  | none ↦ none
  | some scope ↦ some (
      widget "honeycomb" c.place c.name
        (label_fields c ++ scope ++ enumerated threshold_fields 0 c.thresholds))
]

abbrev pub url_widget : Place → String → String → Widget
url_widget place name url = widget "url" place name (str_field "url" url ∷ [])
