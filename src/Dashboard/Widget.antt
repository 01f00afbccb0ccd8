-- ===== src/Dashboard/Widget.antt =====
-- The fields of a dashboard widget in zbx/lib.py.
use nodeguard.Prelude.Decimal.{decimal}
use nodeguard.Prelude.{ℕ, suc, String, Bool, true, false, List, [], ◌∷◌, ◌++◌, str_eq}

-- FIELD_INT and the others.
pub data FieldType : Type 0 where
  field_int field_str field_group field_host field_item : FieldType

-- Their numbers.
abbrev pub field_number : FieldType → ℕ
field_number field_int = 0
field_number field_str = 1
field_number field_group = 2
field_number field_host = 3
field_number field_item = 4

-- SHOW_DESCRIPTION and the others.
pub data Shown : Type 0 where
  show_description show_value show_time show_change show_sparkline : Shown

abbrev pub show_number : Shown → ℕ
show_number show_description = 1
show_number show_value = 2
show_number show_time = 3
show_number show_change = 4
show_number show_sparkline = 5

-- A value of a field: a number or a text.
pub data Scalar : Type 0 where
  number : ℕ → Scalar
  text : String → Scalar

abbrev pub str_of : Scalar → String
str_of (number n) = decimal n
str_of (text t) = t

pub record Field : Type 0 where
  pub ftype : FieldType
  pub name : String
  pub value : String

-- `_f`
abbrev pub field : FieldType → String → Scalar → Field
field ftype name value = record { ftype = ftype; name = name; value = str_of value }

abbrev pub int_field : String → ℕ → Field
int_field name n = field field_int name (number n)

abbrev pub str_field : String → String → Field
str_field name t = field field_str name (text t)

-- The place of a widget on a page.
pub record Place : Type 0 where
  pub x : ℕ
  pub y : ℕ
  pub width : ℕ
  pub height : ℕ

pub record Widget : Type 0 where
  pub wtype : String
  pub name : String
  pub place : Place
  pub fields : List Field

abbrev pub widget : String → Place → String → List Field → Widget
widget wtype place name fields = record {
  wtype = wtype;
  name = name;
  place = place;
  fields = fields;
}

-- Numbered fields: `for i, x in enumerate(xs)`, from a number on.
unfoldable pub enumerated {ℓ} : {A : Type ℓ} → (ℕ → A → List Field) → ℕ → List A → List Field
enumerated f i [] = []
enumerated f i (x ∷ xs) = f i x ++ enumerated f (suc i) xs

abbrev pub is_nonempty : String → Bool
is_nonempty t = elim (str_eq t "") [ true ↦ false | false ↦ true ]
