-- ===== src/Tests/Boards.antt =====
-- Runs of the model of zbx/dashboards.py, and instances of its theorems.
use nodeguard.Prelude.{
  ℕ, ◌-◌, ◌*◌, ◌/◌, ◌≡◌, refl, String, true, false, some, List, [], ◌∷◌, ◌++◌, leb, str_eq,
  if◌then◌else◌, ◌==◌,
}
use nodeguard.Prelude.Int.{pos}
use nodeguard.Prelude.Text.{count, drop_suffix}
use nodeguard.Dashboard.Fleet.{Api, Member, answered, got, strip_slashes, api_url, open_api}
use nodeguard.Dashboard.Sizes.{
  Floats, px_per_size, column_px, usable_px, desc_size_for, value_size_for, header_chars,
}
use nodeguard.Dashboard.Canvas.{Ctx}
use nodeguard.Dashboard.Plans.{
  Plan, builders, plans_of, no_notes, asked_names, AllSound, plans_of-AllSound,
}
use nodeguard.Dashboard.Apply.{Boards, empty_log, Options, apply_dashboards, main}
use nodeguard.Dashboard.Reads.{ReadsOnly, main-ReadsOnly}
use nodeguard.Dashboard.Upsert.{plans, upserts, apply_dashboards-upserts}

-- Thousandths for floats.
abbrev thousandths : String → ℕ
thousandths t =
    if str_eq t "1396.0"
    then 1396000
    else if str_eq t "0.675"
    then 675
    else if str_eq t "1.290"
    then 1290
    else if str_eq t "2.336"
    then 2336
    else if str_eq t "0.62"
    then 620
    else if str_eq t "0.9"
    then 900
    else if str_eq t "1.2"
    then 1200
    else if str_eq t "8.0"
    then 8000
    else 1000

abbrev fixed_point : Floats
fixed_point = record {
  Float = ℕ;
  literal = thousandths;
  float = λ n. n * 1000;
  sub = λ a b. a - b;
  mul = λ a b. a * b / 1000;
  div = λ a b. if b == 0 then 0 else a * 1000 / b;
  max = λ a b. if leb a b then b else a;
  min = λ a b. if leb a b then a else b;
  int = λ a. pos (a / 1000);
}

sizes : Unit {0}
unfolding px_per_size column_px usable_px desc_size_for value_size_for header_chars strip_slashes
    api_url open_api drop_suffix
sizes = tt

-- Some sizes: the characters of a header of width 12, a text of 35 on a height-2 tile of width 18, and
-- a host name of 14 on a plain tile.
measured :
    (header_chars fixed_point 12 ≡ 20)
    × (value_size_for fixed_point 35 18 2 ≡ some 15)
    × (desc_size_for fixed_point 14 12 3 ≡ 13)
unfolding sizes
measured = (refl, refl, refl)

requests_to :
    open_api "https://zabbix.example//" (some "secret")
    ≡ got "https://zabbix.example/api_jsonrpc.php"
unfolding sizes
requests_to = refl

abbrev home : Member
home = record { hostid = "101"; host = "gw-home"; name = "gateway-home" }

abbrev context : Ctx
context = record {
  floats = fixed_point;
  sha256 = count;
  groupid = "7";
  hosts = home ∷ [];
  patterns = "gateway-home" ∷ [];
  explicit_patterns = false;
  legend_url = "/notes/dashboard-notes.html";
  items_by_host = [];
}

plans_of-AllSound_example : AllSound (asked_names "all") (plans_of context "all" builders no_notes)
plans_of-AllSound_example = plans_of-AllSound context "all"

abbrev server : Api
server = record {
  hostgroup_get = λ _. answered ("7" ∷ []);
  host_get = λ _. answered (home ∷ []);
  item_get = λ _. answered [];
  int = λ _. some 0;
}

-- There is an overview, and no other dashboard.
abbrev shelf : Boards
shelf = record {
  dashboard_get =
      λ name. if str_eq name "NodeGuard Overview" then answered ("55" ∷ []) else answered [];
  legacy_get = λ _. answered true;
  dashboard_update = λ _ _. answered tt;
  dashboard_create = λ _ _. answered tt;
}

abbrev dry : Options
dry = record {
  url = "https://zabbix.example/";
  group = "Nodeguard nodes";
  host_pattern = [];
  legend_url = "/notes/dashboard-notes.html";
  dashboard = "all";
  confirm = false;
  rename_legacy = true;
  legacy_export = "output/nodeguard-legacy-dashboard.json";
}

main-ReadsOnly_example : ReadsOnly (main fixed_point count (some "secret") server shelf dry).0
main-ReadsOnly_example = main-ReadsOnly fixed_point count (some "secret") server shelf dry refl

-- Two plans without widgets, with the ids that are found.
abbrev two : List (Plan × List String)
two = (("NodeGuard Overview", []), "55" ∷ []) ∷ (("NodeGuard Security", []), []) ∷ []

apply_dashboards-upserts_example :
    ((apply_dashboards shelf (plans two) empty_log).1 ≡ true)
    × ((apply_dashboards shelf (plans two) empty_log).0.requests
        ≡ empty_log.requests ++ upserts two)
apply_dashboards-upserts_example =
    apply_dashboards-upserts shelf two empty_log ((refl, refl), ((refl, refl), tt))
