-- ===== src/Dashboard/Fleet/Items.antt =====
-- What `resolve_items` and `resolve_itemids` of zbx/lib.py find.
use nodeguard.Prelude.{
  ℕ, ◌≡◌, refl, sym, ap, ◌∙◌, String, Option, none, some, List, [], ◌∷◌, str_eq, if◌then◌else◌,
  arith,
}
use nodeguard.Prelude.Dict.{Dict, lookup, insert, lookup-insert}
use nodeguard.Dashboard.Fleet.{
  Row, Item, Api, Answer, got, failed, value_error, Response, answered, call, item_of, items_from,
  resolve_items, ids_of, resolve_itemids,
}

got_inj : {A : Type 0} (a b : A) → got a ≡ got b → a ≡ b
got_inj a b e = cc

-- The id in the last row with a key, or what there was before.
pub last_id : String → List Row → Option String → Option String
last_id k [] before = before
last_id k (r ∷ rs) before = last_id k rs (if str_eq r.key k then some r.itemid else before)

ids_of-insert :
    (key : String) (i : Item) (d : Dict Item)
    → ids_of (insert key i d) ≡ insert key i.itemid (ids_of d)
unfolding insert ids_of
ids_of-insert key i [] = refl
ids_of-insert key i ((j, w) ∷ d) = ground (arith, ids_of-insert key i d)

-- One more row.
lookup-row :
    (k : String) (r : Row) (vt : ℕ) (d : Dict Item)
    → lookup k (ids_of (insert r.key (item_of r vt) d))
      ≡ (if str_eq r.key k then some r.itemid else lookup k (ids_of d))
lookup-row k r vt d =
    ap (lookup k) (ids_of-insert r.key (item_of r vt) d) ∙ lookup-insert r.key k r.itemid (ids_of d)

items_from-last :
    (int : String → Option ℕ) (k : String) (rows : List Row) (d out : Dict Item)
    → items_from int rows d ≡ got out
    → lookup k (ids_of out) ≡ last_id k rows (lookup k (ids_of d))
unfolding items_from last_id
items_from-last int k [] d out e = ap (λ x. lookup k (ids_of x)) (sym (got_inj d out e))
items_from-last int k (r ∷ rs) d out e =
    step (int r.value_type) (λ n q. items_from-last int k rs (insert r.key (item_of r n) d) out q) e
  where
    step :
        (vt : Option ℕ)
        → ((n : ℕ)
            → items_from int rs (insert r.key (item_of r n) d) ≡ got out
            → lookup k (ids_of out)
              ≡ last_id k rs (lookup k (ids_of (insert r.key (item_of r n) d))))
        → elim vt [
          | none ↦ failed value_error
          | some n ↦ items_from int rs (insert r.key (item_of r n) d)
        ]
          ≡ got out
        → lookup k (ids_of out)
          ≡ last_id k rs (if str_eq r.key k then some r.itemid else lookup k (ids_of d))
    step none later q = absurd (cc)
    step (some n) later q = later n q ∙ ap (last_id k rs) (lookup-row k r n d)

-- If the ids of a host's items are resolved, the API had answered with rows, and the id under a key is
-- that of the last row with the key; there is none without such a row.
pub resolve_itemids-last :
    (api : Api) (hostid k : String) (ids : Dict String)
    → resolve_itemids api hostid ≡ got ids
    → (rows : List Row) × (api.item_get hostid ≡ answered rows)
      × (lookup k ids ≡ last_id k rows none)
unfolding resolve_itemids resolve_items call lookup ids_of
resolve_itemids-last api hostid k ids e = given (api.item_get hostid) refl e
  where
    with_ids : Answer (Dict Item) → Answer (Dict String)
    with_ids a = elim a [ failed x ↦ failed x | got items ↦ got (ids_of items) ]

    resolved : Response (List Row) → Answer (Dict String)
    resolved r =
        with_ids
          (elim (call "item.get" r) [ failed x ↦ failed x | got rows ↦ items_from api.int rows [] ])

    made :
        (rows : List Row) (a : Answer (Dict Item))
        → items_from api.int rows [] ≡ a
        → with_ids a ≡ got ids
        → lookup k ids ≡ last_id k rows none
    made rows (failed x) q f = absurd (cc)
    made rows (got items) q f =
        ap (lookup k) (sym (got_inj (ids_of items) ids f))
        ∙ items_from-last api.int k rows [] items q

    given :
        (r : Response (List Row))
        → api.item_get hostid ≡ r
        → resolved r ≡ got ids
        → (rows : List Row) × (api.item_get hostid ≡ answered rows)
          × (lookup k ids ≡ last_id k rows none)
    given (answered rows) q f = (rows, q, made rows (items_from api.int rows []) refl f)
    given _ q f = absurd (cc)
