-- ===== src/Dashboard/Reads.antt =====
-- What zbx/dashboards.py writes to the API, and when.
use nodeguard.Prelude.{
  ℕ, ◌≡◌, refl, String, Bool, true, false, Option, none, some, List, [], ◌∷◌, All, All-append,
  if-elim,
}
use nodeguard.Prelude.Dict.{Dict, insert}
use nodeguard.Dashboard.Fleet.{
  Answer, got, failed, call, Member, Item, Api, open_api, resolve_group, resolve_items,
}
use nodeguard.Dashboard.Sizes.{Floats}
use nodeguard.Dashboard.Canvas.{Ctx}
use nodeguard.Dashboard.Plans.{Plan, Notes}
use nodeguard.Dashboard.Apply.{
  Request, hostgroup_get, host_get, item_get, legacy_get, dashboard_update, dashboard_create,
  Boards, Log, empty_log, ask, say, print_plan, export_legacy, group_requests, resolve_all,
  legacy_dash, Options, after_legacy, carry_out, with_items, with_fleet, build, build_after,
  with_client, main,
}

-- The request changes a dashboard.
abbrev pub is_write : Request → Bool
is_write (dashboard_update _ _) = true
is_write (dashboard_create _ _) = true
is_write _ = false

abbrev pub ReadsOnly : Log → Type 0
ReadsOnly l = All (λ r. is_write r ≡ false) l.requests

ask-ReadsOnly : (r : Request) (l : Log) → is_write r ≡ false → ReadsOnly l → ReadsOnly (ask r l)
unfolding ask
ask-ReadsOnly r l e h = All-append (λ r. is_write r ≡ false) l.requests (r ∷ []) h (e, tt)

after_legacy-ReadsOnly :
    (path : String) (l : Log) (a : Answer Bool) → ReadsOnly l → ReadsOnly (after_legacy path l a).0
unfolding say
after_legacy-ReadsOnly path l (failed e) h = h
after_legacy-ReadsOnly path l (got false) h = h
after_legacy-ReadsOnly path l (got true) h = h

export_legacy-ReadsOnly :
    (boards : Boards) (path : String) (l : Log)
    → ReadsOnly l
    → ReadsOnly (export_legacy boards path l).0
unfolding export_legacy
export_legacy-ReadsOnly boards path l h =
    after_legacy-ReadsOnly path (ask (legacy_get legacy_dash) l)
      (call "dashboard.get" (boards.legacy_get legacy_dash))
      (ask-ReadsOnly (legacy_get legacy_dash) l refl h)

group_requests-ReadsOnly :
    (api : Api) (group : String) → All (λ r. is_write r ≡ false) (group_requests api group)
unfolding group_requests
group_requests-ReadsOnly api group = step (call "hostgroup.get" (api.hostgroup_get group))
  where
    step :
        (a : Answer (List String))
        → All
            (λ r. is_write r ≡ false)
            (elim a [
              | failed _ ↦ hostgroup_get group ∷ []
              | got [] ↦ hostgroup_get group ∷ []
              | got (gid ∷ _) ↦ hostgroup_get group ∷ host_get gid ∷ []
            ])
    step (failed e) = (refl, tt)
    step (got []) = (refl, tt)
    step (got (gid ∷ _)) = (refl, (refl, tt))

resolve_all-ReadsOnly :
    (api : Api) (hs : List Member) (found : Dict (Dict Item)) (l : Log)
    → ReadsOnly l
    → ReadsOnly (resolve_all api hs found l).0
unfolding resolve_all
resolve_all-ReadsOnly api [] found l h = h
resolve_all-ReadsOnly api (m ∷ hs) found l h = step (resolve_items api m.hostid) (λ items.
    resolve_all-ReadsOnly api hs (insert m.hostid items found) (ask (item_get m.hostid) l)
      (ask-ReadsOnly (item_get m.hostid) l refl h))
  where
    asked : Log
    asked = ask (item_get m.hostid) l

    step :
        (a : Answer (Dict Item))
        → ((items : Dict Item)
            → ReadsOnly (resolve_all api hs (insert m.hostid items found) asked).0)
        → ReadsOnly
            (elim a as (λ _. Log × Answer (Dict (Dict Item))) [
              | failed e ↦ (asked, failed e)
              | got items ↦ resolve_all api hs (insert m.hostid items found) asked
            ]).0
    step (failed e) later = ask-ReadsOnly (item_get m.hostid) l refl h
    step (got items) later = later items

carry_out-ReadsOnly :
    (boards : Boards) (o : Options) (ctx : Ctx) (l : Log) (p : Option (List Plan × Notes))
    → o.confirm ≡ false
    → ReadsOnly l
    → ReadsOnly (carry_out boards o ctx l p).0
unfolding carry_out print_plan say
carry_out-ReadsOnly boards o ctx l none e h = h
carry_out-ReadsOnly boards o ctx l (some (plans, n)) e h = rw e h

with_items-ReadsOnly :
    (floats : Floats) (sha256 : String → ℕ) (boards : Boards) (o : Options) (gid : String)
    (hosts : List Member) (r : Log × Answer (Dict (Dict Item)))
    → o.confirm ≡ false
    → ReadsOnly r.0
    → ReadsOnly (with_items floats sha256 boards o gid hosts r).0
unfolding with_items
with_items-ReadsOnly floats sha256 boards o gid hosts (l, failed e) q h = h
with_items-ReadsOnly floats sha256 boards o gid hosts (l, got items) q h =
    carry_out-ReadsOnly boards o _ l _ q h

with_fleet-ReadsOnly :
    (floats : Floats) (sha256 : String → ℕ) (api : Api) (boards : Boards) (o : Options) (l : Log)
    (a : Answer (String × List Member))
    → o.confirm ≡ false
    → ReadsOnly l
    → ReadsOnly (with_fleet floats sha256 api boards o l a).0
unfolding with_fleet
with_fleet-ReadsOnly floats sha256 api boards o l (failed e) q h = h
with_fleet-ReadsOnly floats sha256 api boards o l (got (gid, hosts)) q h =
    with_items-ReadsOnly floats sha256 boards o gid hosts (resolve_all api hosts [] l) q
      (resolve_all-ReadsOnly api hosts [] l h)

build_after-ReadsOnly :
    (floats : Floats) (sha256 : String → ℕ) (api : Api) (boards : Boards) (o : Options)
    (r : Log × Bool)
    → o.confirm ≡ false
    → ReadsOnly r.0
    → ReadsOnly (build_after floats sha256 api boards o r).0
unfolding build_after build
build_after-ReadsOnly floats sha256 api boards o (l, false) q h = h
build_after-ReadsOnly floats sha256 api boards o (l, true) q h =
    with_fleet-ReadsOnly floats sha256 api boards o _ (resolve_group api o.group) q (
      All-append (λ r. is_write r ≡ false) l.requests (group_requests api o.group) h
        (group_requests-ReadsOnly api o.group))

with_client-ReadsOnly :
    (floats : Floats) (sha256 : String → ℕ) (api : Api) (boards : Boards) (o : Options)
    (client : Answer String)
    → o.confirm ≡ false
    → ReadsOnly (with_client floats sha256 api boards o client).0
unfolding with_client
with_client-ReadsOnly floats sha256 api boards o (failed _) q = tt
with_client-ReadsOnly floats sha256 api boards o (got _) q =
    let legacy =
      if-elim (λ (r : Log × Bool). ReadsOnly r.0) o.rename_legacy
        (export_legacy boards o.legacy_export empty_log) (empty_log, true)
        (export_legacy-ReadsOnly boards o.legacy_export empty_log tt) tt in
    build_after-ReadsOnly floats sha256 api boards o _ q legacy

-- Without --confirm no request changes a dashboard, whatever the API answers and also where the run
-- exports the legacy dashboard or fails.
pub main-ReadsOnly :
    (floats : Floats) (sha256 : String → ℕ) (token : Option String) (api : Api) (boards : Boards)
    (o : Options)
    → o.confirm ≡ false
    → ReadsOnly (main floats sha256 token api boards o).0
unfolding main
main-ReadsOnly floats sha256 token api boards o q =
    with_client-ReadsOnly floats sha256 api boards o (open_api o.url token) q
