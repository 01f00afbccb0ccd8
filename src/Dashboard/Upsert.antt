-- ===== src/Dashboard/Upsert.antt =====
-- What `apply_dashboards` of zbx/dashboards.py asks of an API that answers.
use nodeguard.Prelude.{
  ◌≡◌, refl, ap, ◌∙◌, String, Bool, true, false, List, [], ◌∷◌, ◌++◌, arith, All,
}
use nodeguard.Dashboard.Fleet.{
  Response, http_error, unreachable, garbled, refused, answered, got, failed, call,
}
use nodeguard.Dashboard.Plans.{Plan}
use nodeguard.Dashboard.Apply.{
  Request, dashboard_get, dashboard_update, dashboard_create, Boards, Log, ask, say, write_board,
  created_line, updated_line, apply_dashboards,
}

abbrev pub is_answered {ℓ} : {A : Type ℓ} → Response A → Bool
is_answered (answered _) = true
is_answered _ = false

-- What is to be written of a dashboard, given the ids of those with its name: one of them is updated,
-- or it is created.
abbrev pub upsert : Plan → List String → Request
upsert p [] = dashboard_create p.0 p.1
upsert p (id ∷ _) = dashboard_update id p.1

abbrev pub reply : Boards → Plan → List String → Response (Unit {0})
reply api p [] = api.dashboard_create p.0 p.1
reply api p (id ∷ _) = api.dashboard_update id p.1

-- The API answers the question for the name with these ids, and what is written then.
abbrev pub Served : Boards → Plan × List String → Type 0
Served api q = (api.dashboard_get q.0.0 ≡ answered q.1) × (is_answered (reply api q.0 q.1) ≡ true)

-- The requests for dashboards with the ids that are found.
pub upserts : List (Plan × List String) → List Request
upserts [] = []
upserts ((p, ids) ∷ qs) = dashboard_get p.0 ∷ upsert p ids ∷ upserts qs

pub plans : List (Plan × List String) → List Plan
plans [] = []
plans ((p, ids) ∷ qs) = p ∷ plans qs

call-answered {ℓ} :
    {A : Type ℓ} (method : String) (r : Response A) (x y : Log × Bool)
    → is_answered r ≡ true
    → (elim (call method r) as (λ _. Log × Bool) [ failed _ ↦ x | got _ ↦ y ]) ≡ y
unfolding call
call-answered method (answered a) x y e = refl
call-answered method http_error x y e = ground (arith, e)
call-answered method unreachable x y e = ground (arith, e)
call-answered method garbled x y e = ground (arith, e)
call-answered method (refused _ _) x y e = ground (arith, e)

-- A step that is answered succeeds with one request more.
write_board-upsert :
    (api : Boards) (p : Plan) (ids : List String) (l : Log)
    → is_answered (reply api p ids) ≡ true
    → ((write_board api p l (got ids)).1 ≡ true)
      × ((write_board api p l (got ids)).0.requests ≡ l.requests ++ (upsert p ids ∷ []))
unfolding write_board ask say
write_board-upsert api p [] l e =
    let sent = ask (dashboard_create p.0 p.1) l in
    let ends =
      call-answered "dashboard.create" (api.dashboard_create p.0 p.1) (sent, false)
        (say (created_line p.0 ∷ []) sent, true) e in
    (ap (λ r. r.1) ends, ap (λ r. r.0.requests) ends)
write_board-upsert api p (id ∷ ids) l e =
    let sent = ask (dashboard_update id p.1) l in
    let ends =
      call-answered "dashboard.update" (api.dashboard_update id p.1) (sent, false)
        (say (updated_line p.0 ∷ []) sent, true) e in
    (ap (λ r. r.1) ends, ap (λ r. r.0.requests) ends)

-- The rest of the loop after an answer, and after a step that succeeds.
after_get : Boards → Plan → List Plan → Log → Response (List String) → Log × Bool
after_get api p ps asked r =
    let w = write_board api p asked (call "dashboard.get" r) in
    elim w.1 [ false ↦ (w.0, false) | true ↦ apply_dashboards api ps w.0 ]

chosen :
    (b : Bool) (x y : Log × Bool)
    → b ≡ true
    → (elim b as (λ _. Log × Bool) [ false ↦ x | true ↦ y ]) ≡ y
chosen true x y e = refl
chosen false x y e = ground (arith, e)

apply_dashboards-first :
    (api : Boards) (p : Plan) (ps : List Plan) (ids : List String) (l : Log)
    → api.dashboard_get p.0 ≡ answered ids
    → (write_board api p (ask (dashboard_get p.0) l) (got ids)).1 ≡ true
    → apply_dashboards api (p ∷ ps) l
      ≡ apply_dashboards api ps (write_board api p (ask (dashboard_get p.0) l) (got ids)).0
unfolding apply_dashboards after_get call
apply_dashboards-first api p ps ids l e done =
    let w = write_board api p (ask (dashboard_get p.0) l) (got ids) in
    ap (after_get api p ps (ask (dashboard_get p.0) l)) e
    ∙ chosen w.1 (w.0, false) (apply_dashboards api ps w.0) done

append_nil {ℓ} : {A : Type ℓ} (xs : List A) → xs ≡ xs ++ []
append_nil [] = refl
append_nil (x ∷ xs) = ap (λ r. x ∷ r) (append_nil xs)

append_two {ℓ} :
    {A : Type ℓ} (xs : List A) (a b : A) (ys : List A)
    → ((xs ++ (a ∷ [])) ++ (b ∷ [])) ++ ys ≡ xs ++ (a ∷ b ∷ ys)
append_two [] a b ys = refl
append_two (x ∷ xs) a b ys = ap (λ r. x ∷ r) (append_two xs a b ys)

-- If the API answers each question and what is written then, applying succeeds, and its requests are,
-- plan by plan and after those before, the question for the name and one write: an update of the
-- first dashboard found, or a creation where none is.
pub apply_dashboards-upserts :
    (api : Boards) (qs : List (Plan × List String)) (l : Log)
    → All (Served api) qs
    → ((apply_dashboards api (plans qs) l).1 ≡ true)
      × ((apply_dashboards api (plans qs) l).0.requests ≡ l.requests ++ upserts qs)
unfolding apply_dashboards plans upserts ask call
apply_dashboards-upserts api [] l h = (refl, append_nil l.requests)
apply_dashboards-upserts api ((p, ids) ∷ qs) l h =
    let asked = ask (dashboard_get p.0) l in
    let (done, requests) = write_board-upsert api p ids asked h.0.1 in
    let (rest, later) = apply_dashboards-upserts api qs (write_board api p asked (got ids)).0 h.1 in
    let whole =
      later
      ∙ (ap (λ r. r ++ upserts qs) requests
          ∙ append_two l.requests (dashboard_get p.0) (upsert p ids) (upserts qs)) in
    let first = apply_dashboards-first api p (plans qs) ids l h.0.0 done in
    (ap (λ r. r.1) first ∙ rest, ap (λ r. r.0.requests) first ∙ whole)
