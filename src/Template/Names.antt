-- ===== src/Template/Names.antt =====
-- `check_names` of zbx/check_template.py: display names that dashboards address.
use nodeguard.Prelude.{
  ◌≡◌, ◌↔◌, ◌⊎◌, String, Bool, true, Option, none, some, List, [], ◌∷◌, map, str_eq, str_eq_iff,
  if◌then◌else◌, arith, All,
}
use nodeguard.Prelude.Dict.{Dict, lookup}
use nodeguard.Template.Export.{Export, Item, Pairs, walk_items, item_prototypes}
use nodeguard.Template.Checker.{Checker, Removed, item, item_prototype, is_in, dict_of, ok, failed}

-- The identifiers of the baseline that the new export lacks without a sanction.
unfoldable pub missing_of : List String → Dict String → Pairs → List String
missing_of sanctioned new [] = []
missing_of sanctioned new ((k, v) ∷ base) =
    let rest = missing_of sanctioned new base in
    elim (lookup k new) [ none ↦ if is_in k sanctioned then rest else k ∷ rest | some w ↦ rest ]

-- The identifiers whose value is another one in the new export.
unfoldable pub changed_of : Dict String → Pairs → List String
changed_of new [] = []
changed_of new ((k, v) ∷ base) =
    let rest = changed_of new base in
    elim (lookup k new) [ none ↦ rest | some w ↦ if str_eq w v then rest else k ∷ rest ]

-- `if missing: fail`, `if renamed: fail`, `if not missing and not renamed: ok`
unfoldable pub report_both : String → List String → List String → Checker → Checker
unfolding ok failed
report_both label [] [] c = ok label [] c
report_both label [] (r ∷ rs) c = failed label (r ∷ rs) c
report_both label (m ∷ ms) [] c = failed label (m ∷ ms) c
report_both label (m ∷ ms) (r ∷ rs) c = failed label (r ∷ rs) (failed label (m ∷ ms) c)

unfoldable pub compare_names : String → List String → Pairs → Pairs → Checker → Checker
compare_names label sanctioned new base =
    report_both label (missing_of sanctioned (dict_of new) base) (changed_of (dict_of new) base)

abbrev pub item_names : Export → Pairs
item_names exp = map (λ (i : Item). (i.key, i.name)) (walk_items exp)

unfoldable pub check_names : Checker → Export → Export → Removed → Checker
check_names c exp base removed =
    compare_names "prototype-names" (removed item_prototype) (item_prototypes (λ p. p.name) exp)
      (item_prototypes (λ p. p.name) base)
      (compare_names "v1-names" (removed item) (item_names exp) (item_names base) c)

-- A baseline object is carried over: it is there with the same value, or absent with a sanction.
abbrev pub Carried : List String → Dict String → String × String → Type 0
Carried sanctioned new p =
    (lookup p.0 new ≡ some p.1) ⊎ ((lookup p.0 new ≡ none) × (is_in p.0 sanctioned ≡ true))

carried_step :
    (o : Option String) (k v : String) (s : Bool) (ms cs : List String)
    → (((elim o [ none ↦ if s then ms else k ∷ ms | some w ↦ ms ]) ≡ [])
        × ((elim o [ none ↦ cs | some w ↦ if str_eq w v then cs else k ∷ cs ]) ≡ []))
      ↔ (((o ≡ some v) ⊎ ((o ≡ none) × (s ≡ true))) × (ms ≡ []) × (cs ≡ []))
carried_step none k v s ms cs = ground arith
carried_step (some w) k v s ms cs = ground (arith, str_eq_iff w v)

pub Carried-iff :
    (sanctioned : List String) (new : Dict String) (base : Pairs)
    → ((missing_of sanctioned new base ≡ []) × (changed_of new base ≡ []))
      ↔ All (Carried sanctioned new) base
unfolding missing_of changed_of
Carried-iff sanctioned new [] = ground arith
Carried-iff sanctioned new ((k, v) ∷ base) =
    let step =
      carried_step (lookup k new) k v (is_in k sanctioned) (missing_of sanctioned new base)
        (changed_of new base) in
    let rest = Carried-iff sanctioned new base in
    (
      λ e. let (here, m, d) = step.0 e in (here, rest.0 (m, d)),
      λ e. let (m, d) = rest.1 e.1 in step.1 (e.0, m, d),
    )

report_both-failures :
    (label : String) (ms rs : List String) (c : Checker)
    → ((report_both label ms rs c).failures ≡ 0) ↔ ((c.failures ≡ 0) × (ms ≡ []) × (rs ≡ []))
unfolding report_both ok failed
report_both-failures label [] [] c = ground arith
report_both-failures label [] (r ∷ rs) c = ground arith
report_both-failures label (m ∷ ms) [] c = ground arith
report_both-failures label (m ∷ ms) (r ∷ rs) c = ground arith

compare_names_iff :
    (label : String) (sanctioned : List String) (new base : Pairs) (c : Checker)
    → ((compare_names label sanctioned new base c).failures ≡ 0)
      ↔ ((c.failures ≡ 0) × All (Carried sanctioned (dict_of new)) base)
unfolding compare_names
compare_names_iff label sanctioned new base c =
    let r =
      report_both-failures label (missing_of sanctioned (dict_of new) base)
        (changed_of (dict_of new) base) c in
    let carried = Carried-iff sanctioned (dict_of new) base in
    (
      λ e. let (z, m, d) = r.0 e in (z, carried.0 (m, d)),
      λ e. let (m, d) = carried.1 e.1 in r.1 (e.0, m, d),
    )

-- Every display name of the baseline is carried over, or its object is absent with a sanction.
pub record KeepsNames (exp base : Export) (removed : Removed) : Type 0 where
  pub items : All (Carried (removed item) (dict_of (item_names exp))) (item_names base)
  pub prototypes :
      All
        (Carried (removed item_prototype) (dict_of (item_prototypes (λ p. p.name) exp)))
        (item_prototypes (λ p. p.name) base)

pub check_names_iff :
    (c : Checker) (exp base : Export) (removed : Removed)
    → ((check_names c exp base removed).failures ≡ 0)
      ↔ ((c.failures ≡ 0) × KeepsNames exp base removed)
unfolding check_names
check_names_iff c exp base removed =
    let first = compare_names_iff "v1-names" (removed item) (item_names exp) (item_names base) c in
    let second =
      compare_names_iff "prototype-names" (removed item_prototype)
        (item_prototypes (λ p. p.name) exp) (item_prototypes (λ p. p.name) base) _ in
    (
      λ e.
          let (f, p) = second.0 e in
          let (z, i) = first.0 f in (z, record { items = i; prototypes = p }),
      λ e. second.1 (first.1 (e.0, e.1.items), e.1.prototypes),
    )
