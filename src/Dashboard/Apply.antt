-- ===== src/Dashboard/Apply.antt =====
-- `apply_dashboards`, `export_legacy`, `print_plan` and `main` of zbx/dashboards.py: what is asked of
-- the API, what is written and what is printed.
use nodeguard.Prelude.{
  ℕ, String, Bool, true, false, Option, none, some, List, [], ◌∷◌, ◌++◌, map, length, str_eq,
  if◌then◌else◌,
}
use nodeguard.Prelude.Dict.{Dict, insert}
use nodeguard.Dashboard.Widget.{Field, Place, Widget, is_nonempty}
use nodeguard.Dashboard.Fleet.{
  open_api, Response, Answer, got, failed, ZabbixError, value_error, call, Member, Item, Api,
  resolve_group, resolve_items,
}
use nodeguard.Dashboard.Sizes.{Floats}
use nodeguard.Dashboard.Canvas.{Ctx, Warning}
use nodeguard.Dashboard.Plans.{Plan, Notes, no_notes, builders, plans_of}

-- A request that is made of the API.
pub data Request : Type 0 where
  hostgroup_get host_get item_get dashboard_get legacy_get : String → Request
  dashboard_update dashboard_create : String → List Widget → Request

-- The answers about dashboards: the ids of those with a name, and whether the legacy one is there;
-- of an update and a creation.
pub record Boards : Type 0 where
  pub dashboard_get : String → Response (List String)
  pub legacy_get : String → Response Bool
  pub dashboard_update : String → List Widget → Response (Unit {0})
  pub dashboard_create : String → List Widget → Response (Unit {0})

-- A line that the plan prints.
pub data Line : Type 0 where
  plan_header : Line
  host_count : ℕ → Line
  host_line : Member → Line
  pattern_line : List String → Line
  board_line : String → ℕ → Line
  widget_line : String → Place → String → String → Line
  resolved_count unresolved_count : ℕ → Line
  resolved_line : String × String × String → Line
  unresolved_line : String × String → Line
  warning_line : Warning → Line
  updated_line created_line : String → Line
  nothing_exported exported_line refusing_to_delete : Line

-- What a run has done so far: its requests, the file that it wrote the legacy dashboard to, and its
-- lines.
pub record Log : Type 0 where
  pub requests : List Request
  pub exported : Option String
  pub lines : List Line

abbrev pub empty_log : Log
empty_log = record { requests = []; exported = none; lines = [] }

unfoldable pub ask : Request → Log → Log
ask r l = record l { requests = l.requests ++ (r ∷ []) }

unfoldable pub say : List Line → Log → Log
say ls l = record l { lines = l.lines ++ ls }

-- The first description of a widget that is not empty.
unfoldable pub description_of : List Field → String
description_of [] = ""
description_of (f ∷ fs) =
    let rest = description_of fs in
    if str_eq f.name "description" then (if is_nonempty f.value then f.value else rest) else rest

unfoldable pub plan_lines : Plan → List Line
plan_lines p =
    board_line p.0 (length p.1)
    ∷ map (λ (w : Widget). widget_line w.wtype w.place w.name (description_of w.fields)) p.1

unfoldable pub all_plan_lines : List Plan → List Line
all_plan_lines [] = []
all_plan_lines (p ∷ ps) = plan_lines p ++ all_plan_lines ps

-- `if xs:` a count and a line for each.
unfoldable pub counted {ℓ} : {A : Type ℓ} → (ℕ → Line) → (A → Line) → List A → List Line
counted header line [] = []
counted header line (x ∷ xs) = header (length (x ∷ xs)) ∷ line x ∷ map line xs

unfoldable pub print_plan : Ctx → List Plan → Notes → Log → Log
print_plan ctx plans n l =
    say
      ((plan_header ∷ host_count (length ctx.hosts) ∷ map host_line ctx.hosts)
        ++ (pattern_line ctx.patterns ∷ all_plan_lines plans)
        ++ counted resolved_count resolved_line n.resolved
        ++ counted unresolved_count unresolved_line n.unresolved
        ++ map warning_line n.warnings)
      l

-- One dashboard, after the question for its name: it is updated where there is one, else created. A
-- part of the run ends with ZabbixError, or not.
unfoldable pub write_board : Boards → Plan → Log → Answer (List String) → Log × Bool
write_board api p l (failed _) = (l, false)
write_board api p l (got []) =
    let sent = ask (dashboard_create p.0 p.1) l in
    elim (call "dashboard.create" (api.dashboard_create p.0 p.1)) [
      | failed _ ↦ (sent, false)
      | got _ ↦ (say (created_line p.0 ∷ []) sent, true)
    ]
write_board api p l (got (id ∷ _)) =
    let sent = ask (dashboard_update id p.1) l in
    elim (call "dashboard.update" (api.dashboard_update id p.1)) [
      | failed _ ↦ (sent, false)
      | got _ ↦ (say (updated_line p.0 ∷ []) sent, true)
    ]

unfoldable pub apply_dashboards : Boards → List Plan → Log → Log × Bool
unfolding write_board
apply_dashboards api [] l = (l, true)
apply_dashboards api (p ∷ ps) l =
    let r =
      write_board api p (ask (dashboard_get p.0) l)
        (call "dashboard.get" (api.dashboard_get p.0)) in
    elim r.1 [ false ↦ (r.0, false) | true ↦ apply_dashboards api ps r.0 ]

-- LEGACY_DASH
abbrev pub legacy_dash : String
legacy_dash = "Nodeguard"

-- What follows the question for it.
abbrev pub after_legacy : String → Log → Answer Bool → Log × Bool
after_legacy out_path l (failed _) = (l, false)
after_legacy out_path l (got false) = (say (nothing_exported ∷ []) l, true)
after_legacy out_path l (got true) =
    (say (exported_line ∷ refusing_to_delete ∷ []) (record l { exported = some out_path }), true)

unfoldable pub export_legacy : Boards → String → Log → Log × Bool
export_legacy api out_path l =
    after_legacy out_path (ask (legacy_get legacy_dash) l)
      (call "dashboard.get" (api.legacy_get legacy_dash))

-- The requests of `resolve_group`: the members are asked for where a group is found.
unfoldable pub group_requests : Api → String → List Request
group_requests api group = elim (call "hostgroup.get" (api.hostgroup_get group)) [
  | failed _ ↦ hostgroup_get group ∷ []
  | got [] ↦ hostgroup_get group ∷ []
  | got (gid ∷ _) ↦ hostgroup_get group ∷ host_get gid ∷ []
]

-- The loop of `Ctx.__init__`: the items of each host, until a call fails.
unfoldable pub resolve_all :
    Api → List Member → Dict (Dict Item) → Log → Log × Answer (Dict (Dict Item))
resolve_all api [] found l = (l, got found)
resolve_all api (h ∷ hs) found l =
    let asked = ask (item_get h.hostid) l in
    elim (resolve_items api h.hostid) [
      | failed e ↦ (asked, failed e)
      | got items ↦ resolve_all api hs (insert h.hostid items found) asked
    ]

pub record Options : Type 0 where
  pub url : String
  pub group : String
  pub host_pattern : List String
  pub legend_url : String
  pub dashboard : String
  pub confirm : Bool
  pub rename_legacy : Bool
  pub legacy_export : String

-- `args.host_pattern or [h["name"] for h in hosts]`, and whether it was given.
abbrev pub patterns_of : List String → List Member → List String
patterns_of [] hosts = map (λ (h : Member). h.name) hosts
patterns_of (p ∷ ps) hosts = p ∷ ps

abbrev pub is_given : List String → Bool
is_given [] = false
is_given (_ ∷ _) = true

-- The exit code of a part: 2 with a ZabbixError.
abbrev pub code_of : Log × Bool → Log × ℕ
code_of (l, true) = (l, 0)
code_of (l, false) = (l, 2)

-- The plan, or its application. A builder that raises ends the program with 1.
unfoldable pub carry_out : Boards → Options → Ctx → Log → Option (List Plan × Notes) → Log × ℕ
carry_out boards o ctx l none = (l, 1)
carry_out boards o ctx l (some (plans, n)) =
    if o.confirm
    then code_of (apply_dashboards boards plans (say (map warning_line n.warnings) l))
    else (print_plan ctx plans n l, 0)

abbrev pub finish : Boards → Options → Ctx → Log → Log × ℕ
finish boards o ctx l = carry_out boards o ctx l (plans_of ctx o.dashboard builders no_notes)

-- `int` of a value type that is no number raises no ZabbixError.
abbrev pub error_code : ZabbixError → ℕ
error_code value_error = 1
error_code _ = 2

-- The context, and the run from there on.
unfoldable pub with_items :
    Floats
    → (String → ℕ)
    → Boards
    → Options
    → String
    → List Member
    → Log × Answer (Dict (Dict Item))
    → Log × ℕ
with_items floats sha256 boards o gid hosts (l, failed e) = (l, error_code e)
with_items floats sha256 boards o gid hosts (l, got items) =
    finish boards o
      record {
        floats = floats;
        sha256 = sha256;
        groupid = gid;
        hosts = hosts;
        patterns = patterns_of o.host_pattern hosts;
        explicit_patterns = is_given o.host_pattern;
        legend_url = o.legend_url;
        items_by_host = items;
      }
      l

unfoldable pub with_fleet :
    Floats → (String → ℕ) → Api → Boards → Options → Log → Answer (String × List Member) → Log × ℕ
with_fleet floats sha256 api boards o l (failed _) = (l, 2)
with_fleet floats sha256 api boards o l (got (gid, hosts)) =
    with_items floats sha256 boards o gid hosts (resolve_all api hosts [] l)

-- The dashboards: the fleet is resolved first.
unfoldable pub build : Floats → (String → ℕ) → Api → Boards → Options → Log → Log × ℕ
build floats sha256 api boards o l =
    with_fleet floats sha256 api boards o
      (record l { requests = l.requests ++ group_requests api o.group }) (resolve_group api o.group)

-- What follows the export of the legacy dashboard.
unfoldable pub build_after : Floats → (String → ℕ) → Api → Boards → Options → Log × Bool → Log × ℕ
build_after floats sha256 api boards o (l, true) = build floats sha256 api boards o l
build_after floats sha256 api boards o (l, false) = (l, 2)

-- What follows the constructor of the API client.
unfoldable pub with_client :
    Floats → (String → ℕ) → Api → Boards → Options → Answer String → Log × ℕ
with_client floats sha256 api boards o (failed _) = (empty_log, 2)
with_client floats sha256 api boards o (got _) =
    let exported =
      if o.rename_legacy
      then export_legacy boards o.legacy_export empty_log
      else (empty_log, true) in
    build_after floats sha256 api boards o exported

-- The run, with the token of the environment.
unfoldable pub main : Floats → (String → ℕ) → Option String → Api → Boards → Options → Log × ℕ
main floats sha256 token api boards o =
    with_client floats sha256 api boards o (open_api o.url token)
