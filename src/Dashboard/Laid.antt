-- ===== src/Dashboard/Laid.antt =====
-- That every widget of the boards of zbx/dashboards.py lies within the grid.
use Prim.Native.String.{◌++◌ as ◌<>◌}
use nodeguard.Prelude.{
  ℕ, zero, suc, ◌+◌, ◌*◌, ◌-◌, ◌/◌, ◌%◌, ◌≤◌, ◌<◌, ◌≡◌, refl, String, true, false, Option, none,
  some, List, [], ◌∷◌, length, arith, All, All-map,
}
use nodeguard.Prelude.Text.{count}
use nodeguard.Dashboard.Builders.{plain_dial, gauge, pie, honeycomb}
use nodeguard.Dashboard.Grid.{grid_columns, split_columns, split_columns-Adjacent}
use nodeguard.Dashboard.Fleet.{Member}
use nodeguard.Dashboard.Sizes.{desc_size_for}
use nodeguard.Dashboard.Canvas.{
  Ctx, pure, ◌>>=◌, add_widget, item, itemid, item_key, add_graph, for_each,
}
use nodeguard.Dashboard.Tiles.{tile_row, leaderboard}
use nodeguard.Dashboard.Boards.{
  at, legend, Graph, graph_rows, graphs_end, beside, overview_tiles, overview_graphs, share_pie,
  draw_overview, security_tiles, host_boards, draw_security, Need, needs_of, slot_at, add_gauge,
  gauges_from, fill_thresholds, min_four, feed_comb, capacity_graphs, tiles_a, tiles_b, both_rows,
  draw_capacity, at_least_one,
}
use nodeguard.Dashboard.Fits.{
  Keeps, Any, Keeps-pure, Keeps-bind, Keeps-then, Keeps-as, Keeps-add_widget, Keeps-item,
  Keeps-add_graph, Keeps-for_each, Keeps-fold_each,
}
use nodeguard.Dashboard.Within.{tile_row-Keeps, tile_rows-Keeps, leaderboard-Keeps}

legend-Keeps : (ctx : Ctx) (anchor : String) → Keeps 0 Any (legend ctx anchor)
legend-Keeps ctx anchor = Keeps-add_widget _ (omega arith)

graph_rows-Keeps :
    (ctx : Ctx) (y i : ℕ) (graphs : List Graph)
    → Keeps (length graphs) Any (graph_rows ctx y i graphs)
unfolding graph_rows
graph_rows-Keeps ctx y i [] = Keeps-pure Any tt tt
graph_rows-Keeps ctx y i ((name, items) ∷ graphs) =
    Keeps-as (1 + length graphs) (suc (length graphs)) Any _ (omega arith) (
      Keeps-bind 1 (length graphs) Any Any
        (add_graph ctx (at (i % 2 * 36) (y + i / 2 * 7) 36 7) name items false)
        (λ _. graph_rows ctx y (suc i) graphs)
        (Keeps-add_graph ctx (at (i % 2 * 36) (y + i / 2 * 7) 36 7) name items false (omega arith))
        (λ _ _. graph_rows-Keeps ctx y (suc i) graphs))

-- The columns of the grid, and slots of them.
columns_fit :
    (n total : ℕ) → total ≤ 72 → All (λ (c : ℕ × ℕ). c.0 + c.1 ≤ 72) (split_columns n total 0)
unfolding split_columns
columns_fit zero total p = tt
columns_fit (suc n) total p =
    All-map (λ (c : ℕ × ℕ) h. omega (arith, h.1, p)) (split_columns (suc n) total 0)
      (split_columns-Adjacent (suc n) total 0 (omega arith)).2

beside-All {ℓ} :
    {A : Type ℓ} (xs : List A) (cs : List (ℕ × ℕ))
    → All (λ (c : ℕ × ℕ). c.0 + c.1 ≤ 72) cs
    → All (λ (p : A × (ℕ × ℕ)). p.1.0 + p.1.1 ≤ 72) (beside xs cs)
unfolding beside
beside-All [] cs h = tt
beside-All (x ∷ xs) [] h = tt
beside-All (x ∷ xs) (c ∷ cs) h = (h.0, beside-All xs cs h.1)

abbrev SlotFits : Option (ℕ × ℕ) → Type 0
SlotFits none = ⊥
SlotFits (some c) = c.0 + c.1 ≤ 72

slot_at-Fits :
    (i : ℕ) (slots : List (ℕ × ℕ))
    → i < length slots
    → All (λ (c : ℕ × ℕ). c.0 + c.1 ≤ 72) slots
    → SlotFits (slot_at i slots)
unfolding slot_at
slot_at-Fits i [] p h = absurd (omega (arith, p))
slot_at-Fits zero (s ∷ ss) p h = h.0
slot_at-Fits (suc i) (s ∷ ss) p h = slot_at-Fits i ss (omega (arith, p)) h.1

share_pie-Keeps : (y : ℕ) (p : Member × (ℕ × ℕ)) → p.1.0 + p.1.1 ≤ 72 → Keeps 0 Any (share_pie y p)
unfolding share_pie pie
share_pie-Keeps y p h = Keeps-add_widget _ h

feed_comb-Keeps : (y : ℕ) (p : Member × (ℕ × ℕ)) → p.1.0 + p.1.1 ≤ 72 → Keeps 0 Any (feed_comb y p)
unfolding feed_comb honeycomb
feed_comb-Keeps y p h = Keeps-add_widget _ h

host_boards-Keeps :
    (ctx : Ctx) (y colw i : ℕ) (hs : List Member)
    → (i + length hs) * colw ≤ 72
    → Keeps 0 Any (host_boards ctx y colw i hs)
unfolding host_boards
host_boards-Keeps ctx y colw i [] p = Keeps-pure Any tt tt
host_boards-Keeps ctx y colw i (h ∷ hs) p =
    let here : i * colw + colw ≤ 72 = omega (arith, p) in
    Keeps-then 0 Any Any
      (leaderboard ctx (i * colw) y (colw / 2) h (h.name <> " top blocked") "top_blocked") _
      (leaderboard-Keeps ctx (i * colw) y (colw / 2) h (h.name <> " top blocked") "top_blocked"
        (omega (arith, here)))
      (λ _ _.
        Keeps-then 0 Any Any
          (leaderboard ctx (i * colw + colw / 2) y (colw - colw / 2) h (h.name <> " top countries")
            "geo_country")
          (λ _. host_boards ctx y colw (suc i) hs)
          (leaderboard-Keeps ctx (i * colw + colw / 2) y (colw - colw / 2) h
            (h.name <> " top countries") "geo_country" (omega (arith, here)))
          (λ _ _. host_boards-Keeps ctx y colw (suc i) hs (omega (arith, p))))

itemid-Keeps : (ctx : Ctx) (host : Member) (key : String) → Keeps 0 Any (itemid ctx host key)
unfolding itemid
itemid-Keeps ctx host key =
    Keeps-then 0 Any Any (item ctx host key) _ (Keeps-item ctx host key)
      (λ rec _. Keeps-pure Any (elim rec [ none ↦ none | some r ↦ some r.itemid ]) tt)

add_gauge-Keeps :
    (ctx : Ctx) (gy : ℕ) (g : Need) (slot : ℕ × ℕ)
    → slot.0 + slot.1 ≤ 72
    → Keeps 0 Any (add_gauge ctx gy g slot)
unfolding add_gauge gauge
add_gauge-Keeps ctx gy g slot p =
    Keeps-then 0 Any Any (itemid ctx g.host (item_key g.field)) _
      (itemid-Keeps ctx g.host (item_key g.field)) (λ iid _. drawn iid)
  where
    drawn :
        (iid : Option String)
        → Keeps 0 Any (elim iid [
          | none ↦ pure tt
          | some id ↦ add_widget (
              gauge (record (plain_dial (at slot.0 gy slot.1 5) g.label id) {
                description = g.host.name;
                desc_size = desc_size_for ctx.floats (count g.host.name) slot.1 5;
                thresholds = fill_thresholds;
              }))
        ])
    drawn none = Keeps-pure Any tt tt
    drawn (some id) = Keeps-add_widget _ p

-- A gauge before the n-th has a slot, if the slots are four, or n.
slot_below : (i n m : ℕ) → i < n → m ≡ min_four n → i % 4 < m
slot_below i n m p e = ground (arith, p, e)

gauges_from-Keeps :
    (ctx : Ctx) (y : ℕ) (slots : List (ℕ × ℕ)) (i n : ℕ) (gs : List Need)
    → i + length gs ≤ n
    → length slots ≡ min_four n
    → All (λ (c : ℕ × ℕ). c.0 + c.1 ≤ 72) slots
    → Keeps 0 Any (gauges_from ctx y slots i gs)
unfolding gauges_from
gauges_from-Keeps ctx y slots i n [] p e h = Keeps-pure Any tt tt
gauges_from-Keeps ctx y slots i n (g ∷ gs) p e h =
    step (slot_at (i % 4) slots)
      (slot_at-Fits (i % 4) slots (slot_below i n (length slots) (omega (arith, p)) e) h)
      (gauges_from-Keeps ctx y slots (suc i) n gs (omega (arith, p)) e h)
  where
    step :
        (slot : Option (ℕ × ℕ))
        → SlotFits slot
        → Keeps 0 Any (gauges_from ctx y slots (suc i) gs)
        → Keeps 0 Any (elim slot [
          | none ↦ λ _. none
          | some s ↦ add_gauge ctx (y + i / 4 * 5) g s >>= λ _. gauges_from ctx y slots (suc i) gs
        ])
    step none f later = absurd f
    step (some s) f later =
        Keeps-then 0 Any Any (add_gauge ctx (y + i / 4 * 5) g s)
          (λ _. gauges_from ctx y slots (suc i) gs) (add_gauge-Keeps ctx (y + i / 4 * 5) g s f)
          (λ _ _. later)

both_rows-Keeps : (ctx : Ctx) (y : ℕ) (h : Member) → Keeps 0 Any (both_rows ctx y h)
unfolding both_rows tiles_a tiles_b
both_rows-Keeps ctx y h =
    Keeps-then 0 Any Any (tile_row ctx y h tiles_a) (λ y'. tile_row ctx y' h tiles_b)
      (tile_row-Keeps ctx y h tiles_a (omega arith))
      (λ y' _. tile_row-Keeps ctx y' h tiles_b (omega arith))

-- The boards, each with as many references as it has graphs.
pub draw_overview-Keeps : (ctx : Ctx) → Keeps 6 Any (draw_overview ctx)
unfolding draw_overview overview_tiles overview_graphs
draw_overview-Keeps ctx =
    let columns = split_columns (length ctx.hosts) grid_columns 0 in
    let legend_ok = legend-Keeps ctx "#nodeguard-overview" in
    let tiles_ok = tile_rows-Keeps ctx 3 overview_tiles (omega arith) in
    let pies_ok : (y : ℕ) → Keeps 0 Any (for_each (share_pie y) (beside ctx.hosts columns)) = λ y.
      Keeps-for_each (share_pie y) (beside ctx.hosts columns) (
        All-map (λ (p : Member × (ℕ × ℕ)) h. share_pie-Keeps y p h) (beside ctx.hosts columns)
          (beside-All ctx.hosts columns
            (columns_fit (length ctx.hosts) grid_columns (omega arith)))) in
    Keeps-then 6 Any Any _ _ legend_ok (λ _ _. Keeps-then 6 Any Any _ _ tiles_ok (λ y _.
      Keeps-bind 6 0 Any Any _ _ (graph_rows-Keeps ctx y 0 overview_graphs)
        (λ _ _. pies_ok (graphs_end y overview_graphs))))

shares_fit : (n : ℕ) → (0 + n) * (grid_columns / at_least_one n) ≤ 72
shares_fit zero = omega arith
shares_fit (suc n) = omega arith

pub draw_security-Keeps : (ctx : Ctx) → Keeps 3 Any (draw_security ctx)
unfolding draw_security security_tiles
draw_security-Keeps ctx =
    let tiles_ok = tile_rows-Keeps ctx 18 security_tiles (omega arith) in
    let boards_ok : (y : ℕ)
        → Keeps 0 Any
            (host_boards ctx y (grid_columns / at_least_one (length ctx.hosts)) 0 ctx.hosts) =
      λ y.
        host_boards-Keeps ctx y (grid_columns / at_least_one (length ctx.hosts)) 0 ctx.hosts
          (shares_fit (length ctx.hosts)) in
    Keeps-then 3 Any Any _ _ (legend-Keeps ctx "#nodeguard-security") (λ _ _.
      Keeps-bind 1 2 Any Any _ _ (Keeps-add_graph ctx (at 0 3 36 7) _ _ true (omega arith)) (λ _ _.
        Keeps-bind 1 1 Any Any _ _ (Keeps-add_graph ctx (at 36 3 36 7) _ _ false (omega arith))
          (λ _ _.
            Keeps-bind 1 0 Any Any _ _ (Keeps-add_graph ctx (at 0 10 72 8) _ _ false (omega arith))
              (λ _ _. Keeps-then 0 Any Any _ _ tiles_ok (λ y _. boards_ok y)))))

length-columns : (n total : ℕ) → length (split_columns n total 0) ≡ n
unfolding split_columns
length-columns zero total = refl
length-columns (suc n) total = (split_columns-Adjacent (suc n) total 0 (omega arith)).0

length-slots : (n : ℕ) → length (split_columns (min_four n) 48 0) ≡ min_four n
length-slots n = length-columns (min_four n) 48

pub draw_capacity-Keeps : (ctx : Ctx) → Keeps 4 Any (draw_capacity ctx)
unfolding draw_capacity capacity_graphs
draw_capacity-Keeps ctx =
    let gauges = needs_of ctx.hosts in
    let slots = split_columns (min_four (length gauges)) 48 0 in
    let columns = split_columns (length ctx.hosts) grid_columns 0 in
    let gauges_ok =
      gauges_from-Keeps ctx 3 slots 0 (length gauges) gauges (omega arith)
        (length-slots (length gauges)) (columns_fit (min_four (length gauges)) 48 (omega arith)) in
    let combs_ok : (y : ℕ) → Keeps 0 Any (for_each (feed_comb y) (beside ctx.hosts columns)) = λ y.
      Keeps-for_each (feed_comb y) (beside ctx.hosts columns) (
        All-map (λ (p : Member × (ℕ × ℕ)) h. feed_comb-Keeps y p h) (beside ctx.hosts columns)
          (beside-All ctx.hosts columns
            (columns_fit (length ctx.hosts) grid_columns (omega arith)))) in
    let y = 3 + 5 * ((length gauges + 3) / 4) in
    Keeps-then 4 Any Any _ _ (legend-Keeps ctx "#nodeguard-capacity") (λ _ _.
      Keeps-then 4 Any Any _ _ gauges_ok (λ _ _.
        Keeps-bind 1 3 Any Any _ _ (Keeps-add_graph ctx (at 48 3 24 5) _ _ false (omega arith))
          (λ _ _. Keeps-then 3 Any Any _ _ (combs_ok y) (λ _ _.
            Keeps-bind 3 0 Any Any _ _ (graph_rows-Keeps ctx (y + 5) 0 capacity_graphs) (λ _ _.
              Keeps-then 0 Any Any _ _
                (Keeps-fold_each (both_rows ctx) (graphs_end (y + 5) capacity_graphs) ctx.hosts
                  (both_rows-Keeps ctx))
                (λ _ _. Keeps-pure Any tt tt))))))
