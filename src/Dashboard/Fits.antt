-- ===== src/Dashboard/Fits.antt =====
-- The widgets of the boards of zbx/dashboards.py on the grid of zbx/lib.py.
use nodeguard.Prelude.{
  ℕ, refl, ap, ◌∙◌, ◌+◌, ◌≤◌, ◌≡◌, String, Bool, Option, none, some, List, [], ◌∷◌, ◌++◌, length,
  arith, All, All-append, ltb, if-elim,
}
use nodeguard.Prelude.Text.{count}
use nodeguard.Dashboard.Widget.{Place, Widget}
use nodeguard.Dashboard.Builders.{svggraph}
use nodeguard.Dashboard.Fleet.{Member, Item}
use nodeguard.Dashboard.Sizes.{header_chars}
use nodeguard.Dashboard.Canvas.{
  Ctx, Canvas, Warning, item_unresolved, header_too_long, Draw, pure, ◌>>=◌, add_widget, warn,
  find_item, item, datasets, add_graph, for_each, fold_each,
}
use nodeguard.Dashboard.Tiles.{check_header}

-- The widget lies on the grid's columns.
abbrev pub Fits : Widget → Type 0
Fits w = w.place.x + w.place.width ≤ 72

-- The items that the warnings name as unresolved.
unfoldable pub unresolved_in : List Warning → List (String × String)
unresolved_in [] = []
unresolved_in (item_unresolved key host ∷ ws) = (host, key) ∷ unresolved_in ws
unresolved_in (header_too_long _ _ _ _ ∷ ws) = unresolved_in ws

unresolved_in-append :
    (xs ys : List Warning) → unresolved_in (xs ++ ys) ≡ unresolved_in xs ++ unresolved_in ys
unfolding unresolved_in
unresolved_in-append [] ys = refl
unresolved_in-append (item_unresolved key host ∷ xs) ys =
    ap (λ r. (host, key) ∷ r) (unresolved_in-append xs ys)
unresolved_in-append (header_too_long _ _ _ _ ∷ xs) ys = unresolved_in-append xs ys

-- The widgets fit, and the warnings name the unresolved items.
abbrev pub Sound : Canvas → Type 0
Sound c = All Fits c.widgets × (unresolved_in c.warnings ≡ c.unresolved)

-- A part of a builder comes to an end, with a sound canvas, some number of references left, and a
-- result as the predicate says.
abbrev pub Good : {A : Type 0} → ℕ → (A → Type 0) → Option (A × Canvas) → Type 0
Good k P none = ⊥
Good k P (some r) = Sound r.1 × (length r.1.refs ≡ k) × P r.0

-- With u references at hand it comes to such an end, if the canvas was sound, and uses up u.
abbrev pub Keeps : {A : Type 0} → ℕ → (A → Type 0) → Draw A → Type 0
Keeps u P m = (k : ℕ) (c : Canvas) → Sound c → length c.refs ≡ u + k → Good k P (m c)

abbrev pub Any : {A : Type 0} → A → Type 0
Any _ = Unit {0}

pub Keeps-pure : {A : Type 0} (P : A → Type 0) (a : A) → P a → Keeps 0 P (pure a)
unfolding pure
Keeps-pure P a p k c h e = (h, omega (arith, e), p)

pub Keeps-bind :
    {A B : Type 0} (u v : ℕ) (P : A → Type 0) (Q : B → Type 0) (m : Draw A) (f : A → Draw B)
    → Keeps u P m
    → ((a : A) → P a → Keeps v Q (f a))
    → Keeps (u + v) Q (m >>= f)
unfolding ◌>>=◌
Keeps-bind {A} u v P Q m f km kf k c h e = step (m c) (km (v + k) c h (omega (arith, e)))
  where
    step :
        (o : Option (A × Canvas))
        → Good (v + k) P o
        → Good k Q (elim o [ none ↦ none | some r ↦ f r.0 r.1 ])
    step none g = g
    step (some r) g = kf r.0 g.2 k r.1 g.0 g.1

-- A number of references written otherwise.
pub Keeps-as :
    {A : Type 0} (u v : ℕ) (P : A → Type 0) (m : Draw A) → u ≡ v → Keeps u P m → Keeps v P m
Keeps-as u v P m q km k c h e = km k c h (omega (arith, e, q))

-- A part that uses no reference before another.
pub Keeps-then :
    {A B : Type 0} (v : ℕ) (P : A → Type 0) (Q : B → Type 0) (m : Draw A) (f : A → Draw B)
    → Keeps 0 P m
    → ((a : A) → P a → Keeps v Q (f a))
    → Keeps v Q (m >>= f)
Keeps-then v P Q m f km kf =
    Keeps-as (0 + v) v Q (m >>= f) (omega arith) (Keeps-bind 0 v P Q m f km kf)

pub Keeps-add_widget : (w : Widget) → Fits w → Keeps 0 Any (add_widget w)
unfolding add_widget
Keeps-add_widget w p k c h e =
    ((All-append Fits c.widgets (w ∷ []) h.0 (p, tt), h.1), omega (arith, e), tt)

append_nil {ℓ} : {A : Type ℓ} (xs : List A) → xs ++ [] ≡ xs
append_nil [] = refl
append_nil (x ∷ xs) = ap (λ r. x ∷ r) (append_nil xs)

pub Keeps-warn :
    (label : String) (chars width budget : ℕ)
    → Keeps 0 Any (warn (header_too_long label chars width budget))
unfolding warn unresolved_in
Keeps-warn label chars width budget k c h e = (
  (
    h.0,
    unresolved_in-append c.warnings (header_too_long label chars width budget ∷ [])
        ∙ (append_nil (unresolved_in c.warnings) ∙ h.1),
  ),
  omega (arith, e),
  tt,
)

pub Keeps-item : (ctx : Ctx) (host : Member) (key : String) → Keeps 0 Any (item ctx host key)
unfolding item unresolved_in
Keeps-item ctx host key k c h e = step (find_item ctx host key)
  where
    step :
        (o : Option Item)
        → Good k Any (elim o [
          | none ↦ some (
            none,
            record c {
              unresolved = c.unresolved ++ ((host.name, key) ∷ []);
              warnings = c.warnings ++ (item_unresolved key host.name ∷ []);
            },
          )
          | some rec ↦
              some (
                some rec,
                record c { resolved = c.resolved ++ ((host.name, key, rec.itemid) ∷ []) },
              )
        ])
    step none = (
      (
        h.0,
        unresolved_in-append c.warnings (item_unresolved key host.name ∷ [])
            ∙ ap (λ r. r ++ ((host.name, key) ∷ [])) h.1,
      ),
      omega (arith, e),
      tt,
    )
    step (some rec) = (h, omega (arith, e), tt)

pub Keeps-check_header :
    (ctx : Ctx) (label : String) (width : ℕ) → Keeps 0 Any (check_header ctx label width)
unfolding check_header
Keeps-check_header ctx label width =
    let budget = header_chars ctx.floats width in
    if-elim (Keeps 0 Any) (ltb budget (count label))
      (warn (header_too_long label (count label) width budget)) (pure tt)
      (Keeps-warn label (count label) width budget) (Keeps-pure Any tt tt)

pub Keeps-add_graph :
    (ctx : Ctx) (place : Place) (name : String) (items : List String) (stacked : Bool)
    → place.x + place.width ≤ 72
    → Keeps 1 Any (add_graph ctx place name items stacked)
unfolding add_graph svggraph
Keeps-add_graph ctx place name items stacked p k c h e = step c.refs e
  where
    step :
        (refs : List String)
        → length refs ≡ 1 + k
        → Good k Any (elim (svggraph place name (datasets ctx items 0) refs stacked 4 1) [
          | none ↦ none
          | some (w, rest) ↦ some (tt, record c { widgets = c.widgets ++ (w ∷ []); refs = rest })
        ])
    step [] q = absurd (omega (arith, q))
    step (r ∷ refs) q = ((All-append Fits c.widgets _ h.0 (p, tt), h.1), omega (arith, q), tt)

pub Keeps-for_each {ℓ} :
    {A : Type ℓ} (f : A → Draw (Unit {0})) (xs : List A)
    → All (λ x. Keeps 0 Any (f x)) xs
    → Keeps 0 Any (for_each f xs)
unfolding for_each
Keeps-for_each f [] k = Keeps-pure Any tt tt
Keeps-for_each f (x ∷ xs) k =
    Keeps-then 0 Any Any (f x) (λ _. for_each f xs) k.0 (λ _ _. Keeps-for_each f xs k.1)

pub Keeps-fold_each {ℓ} :
    {A : Type ℓ} (f : ℕ → A → Draw ℕ) (y : ℕ) (xs : List A)
    → ((y : ℕ) (x : A) → Keeps 0 Any (f y x))
    → Keeps 0 Any (fold_each f y xs)
unfolding fold_each
Keeps-fold_each f y [] k = Keeps-pure Any y tt
Keeps-fold_each f y (x ∷ xs) k =
    Keeps-then 0 Any Any (f y x) (λ y'. fold_each f y' xs) (k y x)
      (λ y' _. Keeps-fold_each f y' xs k)
