-- ===== src/Dashboard/Canvas.antt =====
-- The context of zbx/dashboards.py: what its builders read, and what they add to.
use Prim.Native.String.{◌++◌ as ◌<>◌}
use nodeguard.Prelude.{
  ℕ, suc, ◌+◌, ◌%◌, String, Bool, Option, none, some, List, [], ◌∷◌, ◌++◌, if◌then◌else◌,
}
use nodeguard.Prelude.Decimal.{nth}
use nodeguard.Prelude.Dict.{Dict, lookup}
use nodeguard.Dashboard.Widget.{Place, Widget}
use nodeguard.Dashboard.Builders.{one, Dataset, svggraph}
use nodeguard.Dashboard.Grid.{okabe_ito, host_color}
use nodeguard.Dashboard.Fleet.{Member, Item}
use nodeguard.Dashboard.Sizes.{Floats}

-- What is resolved once; the attack map's URL is read by no builder. `sha256` is the digest of a text
-- as a number.
pub record Ctx : Type 1 where
  pub floats : Floats
  pub sha256 : String → ℕ
  pub groupid : String
  pub hosts : List Member
  pub patterns : List String
  pub explicit_patterns : Bool
  pub legend_url : String
  pub items_by_host : Dict (Dict Item)

pub data Warning : Type 0 where
  item_unresolved : String → String → Warning
  header_too_long : String → ℕ → ℕ → ℕ → Warning

-- What a builder adds to: its widgets and its supply of references, and the context's lists of
-- warnings and of resolved and unresolved items.
pub record Canvas : Type 0 where
  pub widgets : List Widget
  pub refs : List String
  pub warnings : List Warning
  pub resolved : List (String × String × String)
  pub unresolved : List (String × String)

-- A part of a builder. It ends with no result where Python raises: a `next` of a used-up supply, an
-- index out of range.
abbrev pub Draw : Type 0 → Type 0
Draw A = Canvas → Option (A × Canvas)

unfoldable pub pure : {A : Type 0} → A → Draw A
pure a c = some (a, c)

module _ {A B : Type 0} where
  infixl 5 ◌>>=◌ ◌>>◌
  unfoldable pub ◌>>=◌ : Draw A → (A → Draw B) → Draw B
  unfolding pure
  ◌>>=◌ m f c = elim (m c) [ none ↦ none | some r ↦ f r.0 r.1 ]

  abbrev pub ◌>>◌ : Draw A → Draw B → Draw B
  m >> k = m >>= λ _. k

-- `widgets.append(w)` and `ctx.warnings.append(w)`
unfoldable pub add_widget : Widget → Draw (Unit {0})
add_widget w c = some (tt, record c { widgets = c.widgets ++ (w ∷ []) })

unfoldable pub warn : Warning → Draw (Unit {0})
warn w c = some (tt, record c { warnings = c.warnings ++ (w ∷ []) })

-- `kv`
abbrev pub item_key : String → String
item_key field = "nodeguard.kv[" <> field <> "]"

-- `items_by_host.get(hostid, {}).get(key)`
abbrev pub find_item : Ctx → Member → String → Option Item
find_item ctx host key = elim (lookup host.hostid ctx.items_by_host) [
  | none ↦ none
  | some items ↦ lookup key items
]

-- `Ctx.item`
unfoldable pub item : Ctx → Member → String → Draw (Option Item)
item ctx host key c = elim (find_item ctx host key) [
  | none ↦ some (
    none,
    record c {
      unresolved = c.unresolved ++ ((host.name, key) ∷ []);
      warnings = c.warnings ++ (item_unresolved key host.name ∷ []);
    },
  )
  | some rec ↦
      some (some rec, record c { resolved = c.resolved ++ ((host.name, key, rec.itemid) ∷ []) })
]

-- `Ctx.itemid`
unfoldable pub itemid : Ctx → Member → String → Draw (Option String)
itemid ctx host key =
    item ctx host key >>= λ rec. pure (elim rec [ none ↦ none | some r ↦ some r.itemid ])

-- `enumerate`, from a number on, with one more element for each.
unfoldable pub numbered {ℓ m} : {A : Type ℓ} {B : Type m} → (ℕ → A → B) → ℕ → List A → List B
numbered f j [] = []
numbered f j (x ∷ xs) = f j x ∷ numbered f (suc j) xs

unfoldable pub numbered_all {ℓ m} :
    {A : Type ℓ} {B : Type m} → (ℕ → A → List B) → ℕ → List A → List B
numbered_all f i [] = []
numbered_all f i (x ∷ xs) = f i x ++ numbered_all f (suc i) xs

abbrev pub dataset : String → String → String → Dataset
dataset host name color = record { hosts = one host; items = one name; color = color }

-- `Ctx.datasets`
unfoldable pub datasets : Ctx → List String → ℕ → List Dataset
datasets ctx item_names shift_base =
    if ctx.explicit_patterns
    then numbered_all
        (λ i pat.
          numbered
            (λ j iname. dataset pat iname (nth "999999" okabe_ito ((i + j + shift_base) % 8))) 0
            item_names)
        0 ctx.patterns
    else numbered_all
        (λ _ (h : Member).
          numbered (λ j iname. dataset h.name iname (host_color ctx.sha256 h.name (shift_base + j)))
            0 item_names)
        0 ctx.hosts

-- `widgets.append(lib.svggraph(..., ctx.datasets(items), refs, stacked))`
unfoldable pub add_graph : Ctx → Place → String → List String → Bool → Draw (Unit {0})
add_graph ctx place name items stacked c =
    elim (svggraph place name (datasets ctx items 0) c.refs stacked 4 1) [
      | none ↦ none
      | some (w, refs) ↦ some (tt, record c { widgets = c.widgets ++ (w ∷ []); refs = refs })
    ]

-- `for x in xs: f(x)`, and the same with what each turn leaves for the next.
unfoldable pub for_each {ℓ} : {A : Type ℓ} → (A → Draw (Unit {0})) → List A → Draw (Unit {0})
unfolding pure ◌>>=◌
for_each f [] = pure tt
for_each f (x ∷ xs) = f x >>= λ _. for_each f xs

unfoldable pub fold_each {ℓ} : {A : Type ℓ} → (ℕ → A → Draw ℕ) → ℕ → List A → Draw ℕ
unfolding pure ◌>>=◌
fold_each f y [] = pure y
fold_each f y (x ∷ xs) = f y x >>= λ y'. fold_each f y' xs
