-- ===== src/Generator/Table.antt =====
-- The table of zbx/gen-template.py: its names, and the builders of its triggers and rows.
use Prim.Native.String.{◌++◌ as ◌<>◌}
use nodeguard.Prelude.{String, Bool, true, false, Option, none, some, List, []}

-- TEMPLATE
abbrev pub template_name : String
template_name = "Nodeguard by Zabbix agent"

-- TEMPLATE_GROUP
abbrev pub group_name : String
group_name = "Templates/Nodeguard"

-- MASTER_KEY
abbrev pub master_key : String
master_key = "nodeguard.kv.raw"

-- LLD_KEY
abbrev pub lld_key : String
lld_key = "nodeguard.feeds.discovery"

unfoldable pub kv_key : String → String
kv_key field = "nodeguard.kv[" <> field <> "]"

unfoldable pub iref : String → String
iref key = "/" <> template_name <> "/" <> key

-- `iref(kv_key(field))`
abbrev pub ref : String → String
ref field = iref (kv_key field)

unfoldable pub rx : String → String
rx field = "(?m)^ng\\." <> field <> "=(.+)$"

-- A trigger that others depend on, as they name it.
pub record Master : Type 0 where
  pub name : String
  pub expression : String

-- A trigger definition.
pub record Trig : Type 0 where
  pub name : String
  pub expression : String
  pub priority : String
  pub description : String
  pub depends_on : List Master

unfoldable pub trig : String → String → String → String → Trig
trig name expression priority description = record {
  name = name;
  expression = expression;
  priority = priority;
  description = description;
  depends_on = [];
}

abbrev pub master_of : Trig → Master
master_of t = record { name = t.name; expression = t.expression }

-- FROZEN_KV_TRIGGER
unfoldable pub frozen_kv_trigger : Trig
frozen_kv_trigger =
    trig "nodeguard telemetry clock skew or frozen kv on {HOST.NAME}"
      ("fuzzytime(" <> (ref "ts") <> ",300)=0 or nodata(" <> (ref "ts") <> ",10m)=1") "HIGH"
      ("The kv timestamp is more than 5 minutes from server time, or no kv "
        <> "value has arrived for 10 minutes: a frozen but still-served kv "
        <> "file, host clock skew, or a dead export chain. The nodata half also "
        <> "makes the trigger time-recalculated, which is what lets it fire, "
        <> "and suppress its dependents, when values stop arriving entirely.")

-- RESPONDER_DOWN_TRIGGER
unfoldable pub responder_down_trigger : Trig
responder_down_trigger =
    trig "nodeguard responder is not active on {HOST.NAME}"
      ("last(" <> (ref "responder") <> ")<>\"active\"") "WARNING"
      "no NEW blocks while down; existing blocks expire in-kernel"

-- A row of the table: one dependent item.
pub record Row : Type 0 where
  pub field : String
  pub name : String
  pub value_type : String
  pub description : String
  pub units : Option String
  pub history : String
  pub trends : String
  pub rate : Bool
  pub triggers : List Trig
  pub rate_of : Option String

-- `row` with the defaults of its keyword arguments.
unfoldable pub row : String → String → String → String → Row
row field name value_type description = record {
  field = field;
  name = name;
  value_type = value_type;
  description = description;
  units = none;
  history = "31d";
  trends = "180d";
  rate = false;
  triggers = [];
  rate_of = none;
}

-- `rate_twin` with the defaults of its keyword arguments.
unfoldable pub rate_twin : String → String → String → Row
rate_twin field name description = record (row (field <> ".rate") name "FLOAT" description) {
  units = some "pps";
  trends = "90d";
  rate = true;
  rate_of = some field;
}
