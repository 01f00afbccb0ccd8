-- ===== src/Dashboard/Plans.antt =====
-- The builders' plans of zbx/dashboards.py.
use mathlib.Core.Path.{subst}
use nodeguard.Prelude.{
  Bool, true, false, map, sym, ◌∙◌, inl, inr, Bool-cases, str_eq_iff, ℕ, suc, ◌*◌, ◌≤◌, ◌-◌, ◌≡◌,
  refl, ap, String, ◌||◌, Option, none, some, List, [], ◌∷◌, length, str_eq, if◌then◌else◌, arith,
  All, length-append,
}
use nodeguard.Dashboard.Widget.{Widget}
use nodeguard.Dashboard.Grid.{letters, followed, extended, ref_seq}
use nodeguard.Dashboard.Canvas.{Ctx, Canvas, Warning, Draw}
use nodeguard.Dashboard.Boards.{draw_overview, draw_security, draw_capacity}
use nodeguard.Dashboard.Fits.{Fits, unresolved_in, Good, Keeps, Any}
use nodeguard.Dashboard.Laid.{draw_overview-Keeps, draw_security-Keeps, draw_capacity-Keeps}

-- A dashboard with its widgets.
abbrev pub Plan : Type 0
Plan = String × List Widget

-- The context's lists, as the builders leave them.
pub record Notes : Type 0 where
  pub warnings : List Warning
  pub resolved : List (String × String × String)
  pub unresolved : List (String × String)

abbrev pub no_notes : Notes
no_notes = record { warnings = []; resolved = []; unresolved = [] }

-- A canvas for one board, with the notes of those before it.
unfoldable pub canvas_for : String → Notes → Canvas
canvas_for prefix n = record {
  widgets = [];
  refs = ref_seq prefix;
  warnings = n.warnings;
  resolved = n.resolved;
  unresolved = n.unresolved;
}

abbrev pub notes_of : Canvas → Notes
notes_of c = record { warnings = c.warnings; resolved = c.resolved; unresolved = c.unresolved }

-- An entry of BUILDERS: its short name, the dashboard's name, the prefix of its references and the
-- builder.
pub record Builder : Type 1 where
  pub short : String
  pub name : String
  pub prefix : String
  pub draw : Ctx → Draw (Unit {0})

unfoldable pub builders : List Builder
builders =
    record { short = "overview"; name = "NodeGuard Overview"; prefix = "OV"; draw = draw_overview }
    ∷ record {
      short = "security";
      name = "NodeGuard Security";
      prefix = "SE";
      draw = draw_security;
    }
    ∷ record {
      short = "capacity";
      name = "NodeGuard Capacity and Pipeline";
      prefix = "CA";
      draw = draw_capacity;
    }
    ∷ []

unfoldable pub draw_board : Ctx → Builder → Notes → Option (Plan × Notes)
draw_board ctx b n = elim (b.draw ctx (canvas_for b.prefix n)) [
  | none ↦ none
  | some r ↦ some ((b.name, r.1.widgets), notes_of r.1)
]

abbrev pub with_first : Plan → Option (List Plan × Notes) → Option (List Plan × Notes)
with_first p none = none
with_first p (some r) = some (p ∷ r.0, r.1)

-- `[(name, builder(ctx)) for short, name, builder in BUILDERS if args.dashboard in ("all", short)]`,
-- with the notes that are left; none where a builder raises.
unfoldable pub plans_of : Ctx → String → List Builder → Notes → Option (List Plan × Notes)
unfolding draw_board
plans_of ctx which [] n = some ([], n)
plans_of ctx which (b ∷ bs) n =
    let skipped = plans_of ctx which bs n in
    if str_eq which "all" || str_eq which b.short
    then elim (draw_board ctx b n) [
      | none ↦ none
      | some r ↦ with_first r.0 (plans_of ctx which bs r.1)
    ]
    else skipped

length-followed : (prefix : String) (ls : List String) → length (followed prefix ls) ≡ length ls
unfolding followed
length-followed prefix [] = refl
length-followed prefix (l ∷ ls) = ap suc (length-followed prefix ls)

length-extended : (ps : List String) → length (extended ps) ≡ 26 * length ps
unfolding extended
length-extended [] = refl
length-extended (p ∷ ps) = omega (
  arith,
  length-append (followed p letters) (extended ps),
  length-followed p letters,
  length-extended ps,
)

length-ref_seq : (prefix : String) → length (ref_seq prefix) ≡ 17576
unfolding ref_seq
length-ref_seq prefix = omega (
  arith,
  length-extended (extended (followed prefix letters)),
  length-extended (followed prefix letters),
  length-followed prefix letters,
)

-- The dashboards that `--dashboard` names.
abbrev pub asked_names : String → List String
asked_names which =
    if str_eq which "all"
    then "NodeGuard Overview" ∷ "NodeGuard Security" ∷ "NodeGuard Capacity and Pipeline" ∷ []
    else if str_eq which "overview"
    then "NodeGuard Overview" ∷ []
    else if str_eq which "security"
    then "NodeGuard Security" ∷ []
    else if str_eq which "capacity"
    then "NodeGuard Capacity and Pipeline" ∷ []
    else []

-- Plans with these names are made, every widget of theirs fits, and the warnings name the unresolved
-- items.
abbrev pub AllSound : List String → Option (List Plan × Notes) → Type 0
AllSound names none = ⊥
AllSound names (some r) =
    (map (λ (p : Plan). p.0) r.0 ≡ names)
    × All (λ (p : Plan). All Fits p.1) r.0
    × (unresolved_in r.1.warnings ≡ r.1.unresolved)

-- A builder that comes to its end with references to spare.
abbrev Ends : Ctx → Builder → Type 0
Ends ctx b = (u : ℕ) × (u ≤ 17576) × Keeps u Any (b.draw ctx)

abbrev BoardSound : String → Option (Plan × Notes) → Type 0
BoardSound name none = ⊥
BoardSound name (some r) =
    (r.0.0 ≡ name) × All Fits r.0.1 × (unresolved_in r.1.warnings ≡ r.1.unresolved)

draw_board-Sound :
    (ctx : Ctx) (b : Builder) (n : Notes)
    → unresolved_in n.warnings ≡ n.unresolved
    → Ends ctx b
    → BoardSound b.name (draw_board ctx b n)
unfolding draw_board canvas_for
draw_board-Sound ctx b n e (u, small, keeps) = drawn (b.draw ctx (canvas_for b.prefix n)) (
    keeps (17576 - u) (canvas_for b.prefix n) (tt, e)
      (omega (arith, small, length-ref_seq b.prefix)))
  where
    drawn :
        (o : Option (Unit {0} × Canvas))
        → Good (17576 - u) Any o
        → BoardSound b.name
            (elim o [ none ↦ none | some r ↦ some ((b.name, r.1.widgets), notes_of r.1) ])
    drawn none g = g
    drawn (some r) g = (refl, g.0.0, g.0.1)

names_chosen : String → List Builder → List String
names_chosen which [] = []
names_chosen which (b ∷ bs) =
    let later = names_chosen which bs in
    if str_eq which "all" || str_eq which b.short then b.name ∷ later else later

plans_of-Sound :
    (ctx : Ctx) (which : String) (bs : List Builder) (n : Notes)
    → unresolved_in n.warnings ≡ n.unresolved
    → All (Ends ctx) bs
    → AllSound (names_chosen which bs) (plans_of ctx which bs n)
unfolding plans_of names_chosen
plans_of-Sound ctx which [] n e h = (refl, tt, e)
plans_of-Sound ctx which (b ∷ bs) n e h =
    by_choice (str_eq which "all" || str_eq which b.short)
      (λ m q. plans_of-Sound ctx which bs m q h.1)
  where
    first :
        (p : Plan) (o : Option (List Plan × Notes))
        → p.0 ≡ b.name
        → All Fits p.1
        → AllSound (names_chosen which bs) o
        → AllSound (b.name ∷ names_chosen which bs) (with_first p o)
    first p none q f g = g
    first p (some r) q f g =
        (ap (λ x. x ∷ map (λ (p : Plan). p.0) r.0) q ∙ ap (λ xs. b.name ∷ xs) g.0, (f, g.1), g.2)

    chosen :
        (o : Option (Plan × Notes))
        → BoardSound b.name o
        → ((m : Notes)
            → unresolved_in m.warnings ≡ m.unresolved
            → AllSound (names_chosen which bs) (plans_of ctx which bs m))
        → AllSound
            (b.name ∷ names_chosen which bs)
            (elim o [ none ↦ none | some r ↦ with_first r.0 (plans_of ctx which bs r.1) ])
    chosen none f later = f
    chosen (some r) f later = first r.0 (plans_of ctx which bs r.1) f.0 f.1 (later r.1 f.2)

    by_choice :
        (t : Bool)
        → ((m : Notes)
            → unresolved_in m.warnings ≡ m.unresolved
            → AllSound (names_chosen which bs) (plans_of ctx which bs m))
        → AllSound (if t then b.name ∷ names_chosen which bs else names_chosen which bs) (
            if t
            then elim (draw_board ctx b n) [
              | none ↦ none
              | some r ↦ with_first r.0 (plans_of ctx which bs r.1)
            ]
            else plans_of ctx which bs n)
    by_choice true later = chosen (draw_board ctx b n) (draw_board-Sound ctx b n e h.0) later
    by_choice false later = later n e

builders-Ends : (ctx : Ctx) → All (Ends ctx) builders
unfolding builders
builders-Ends ctx = (
  (6, omega arith, draw_overview-Keeps ctx),
  ((3, omega arith, draw_security-Keeps ctx), ((4, omega arith, draw_capacity-Keeps ctx), tt)),
)

names_chosen-eq_asked : (which : String) → names_chosen which builders ≡ asked_names which
unfolding names_chosen builders
names_chosen-eq_asked which = elim (Bool-cases (str_eq which "all")) [
  | inl y ↦ by_name "all" y refl
  | inr n ↦ elim (Bool-cases (str_eq which "overview")) [
    | inl y ↦ by_name "overview" y refl
    | inr m ↦ elim (Bool-cases (str_eq which "security")) [
      | inl y ↦ by_name "security" y refl
      | inr k ↦ ground (arith, n, m, k)
    ]
  ]
]
  where
    by_name :
        (name : String)
        → str_eq which name ≡ true
        → names_chosen name builders ≡ asked_names name
        → names_chosen which builders ≡ asked_names which
    by_name name y e =
        subst (λ x. names_chosen x builders ≡ asked_names x) (sym ((str_eq_iff which name).0 y)) e

-- For any fleet, floats and digests, the builders end without raising, with exactly the dashboards
-- that were asked for, in order: all three for "all", the one for its short name, and none for another
-- word. Every widget of theirs ends within the 72 columns of the grid, and the items that the warnings
-- name are the unresolved items that were noted, in their order.
pub plans_of-AllSound :
    (ctx : Ctx) (which : String)
    → AllSound (asked_names which) (plans_of ctx which builders no_notes)
unfolding unresolved_in
plans_of-AllSound ctx which =
    subst (λ names. AllSound names (plans_of ctx which builders no_notes))
      (names_chosen-eq_asked which)
      (plans_of-Sound ctx which builders no_notes refl (builders-Ends ctx))
