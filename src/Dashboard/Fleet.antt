-- ===== src/Dashboard/Fleet.antt =====
-- The API client of zbx/lib.py: what a call makes of an answer, and the resolution of the fleet.
pub mod Items
use Prim.Native.Char.{code}
use Prim.Native.String.{◌++◌ as ◌<>◌}
use nodeguard.Prelude.{
  ℕ, String, Option, none, some, List, [], ◌∷◌, ◌==◌, ◌&&◌, str_eq, if◌then◌else◌,
}
use nodeguard.Prelude.Text.{drop_suffix}
use nodeguard.Prelude.Dict.{Dict, insert}

-- How a request ends: an HTTP error, no connection, a body that is no JSON, an error of the API with
-- its message and data, or a result.
pub data Response {ℓ} (A : Type ℓ) : Type ℓ where
  http_error unreachable garbled : Response A
  refused : String → String → Response A
  answered : A → Response A

-- The ZabbixErrors, that of a missing token first, and the exception of a value type that is no number.
pub data ZabbixError : Type 0 where
  no_token cannot_reach non_json : ZabbixError
  call_failed : String → String → String → ZabbixError
  group_not_found no_members : String → ZabbixError
  value_error : ZabbixError

pub data Answer {ℓ} (A : Type ℓ) : Type ℓ where
  got : A → Answer A
  failed : ZabbixError → Answer A

-- `url.rstrip("/")`
unfoldable pub strip_slashes : String → String
strip_slashes String.[] = String.[]
strip_slashes (String.◌∷◌ c s) =
    let rest = strip_slashes s in if code c == 47 && str_eq rest "" then "" else String.◌∷◌ c rest

-- The URL that requests go to.
unfoldable pub api_url : String → String
unfolding strip_slashes
api_url url = elim (drop_suffix ".php" url) [
  | some _ ↦ url
  | none ↦ strip_slashes url <> "/api_jsonrpc.php"
]

-- The constructor: it takes the token of the environment, which must be there and not empty.
unfoldable pub open_api : String → Option String → Answer String
open_api url none = failed no_token
open_api url (some token) = if str_eq token "" then failed no_token else got (api_url url)

-- The end of `call`.
unfoldable pub call {ℓ} : {A : Type ℓ} → String → Response A → Answer A
call method http_error = failed cannot_reach
call method unreachable = failed cannot_reach
call method garbled = failed non_json
call method (refused message info) = failed (call_failed method message info)
call method (answered r) = got r

pub record Member : Type 0 where
  pub hostid : String
  pub host : String
  pub name : String

-- A row of item.get; units and lastvalue may be missing.
pub record Row : Type 0 where
  pub itemid : String
  pub key : String
  pub name : String
  pub value_type : String
  pub units : Option String
  pub lastvalue : Option String

pub record Item : Type 0 where
  pub itemid : String
  pub value_type : ℕ
  pub units : String
  pub name : String
  pub lastvalue : String

-- The three calls that the library makes: the ids of the groups with a name, the members of a group,
-- the items of a host. `int` is that of a text.
pub record Api : Type 0 where
  pub hostgroup_get : String → Response (List String)
  pub host_get : String → Response (List Member)
  pub item_get : String → Response (List Row)
  pub int : String → Option ℕ

-- Members that there must be.
abbrev pub members_of : String → String → Answer (List Member) → Answer (String × List Member)
members_of group gid (failed e) = failed e
members_of group gid (got []) = failed (no_members group)
members_of group gid (got (m ∷ ms)) = got (gid, m ∷ ms)

abbrev pub first_group : Api → String → Answer (List String) → Answer (String × List Member)
first_group api group (failed e) = failed e
first_group api group (got []) = failed (group_not_found group)
first_group api group (got (gid ∷ _)) = members_of group gid (call "host.get" (api.host_get gid))

unfoldable pub resolve_group : Api → String → Answer (String × List Member)
resolve_group api group = first_group api group (call "hostgroup.get" (api.hostgroup_get group))

-- `d.get(k, "")`
abbrev pub or_empty : Option String → String
or_empty none = ""
or_empty (some t) = t

abbrev pub item_of : Row → ℕ → Item
item_of r vt = record {
  itemid = r.itemid;
  value_type = vt;
  units = or_empty r.units;
  name = r.name;
  lastvalue = or_empty r.lastvalue;
}

unfoldable pub items_from : (String → Option ℕ) → List Row → Dict Item → Answer (Dict Item)
items_from int [] out = got out
items_from int (r ∷ rs) out = elim (int r.value_type) [
  | none ↦ failed value_error
  | some vt ↦ items_from int rs (insert r.key (item_of r vt) out)
]

unfoldable pub resolve_items : Api → String → Answer (Dict Item)
resolve_items api hostid = elim (call "item.get" (api.item_get hostid)) [
  | failed e ↦ failed e
  | got rows ↦ items_from api.int rows []
]

unfoldable pub ids_of : Dict Item → Dict String
ids_of [] = []
ids_of ((k, v) ∷ items) = (k, v.itemid) ∷ ids_of items

unfoldable pub resolve_itemids : Api → String → Answer (Dict String)
resolve_itemids api hostid = elim (resolve_items api hostid) [
  | failed e ↦ failed e
  | got items ↦ got (ids_of items)
]
