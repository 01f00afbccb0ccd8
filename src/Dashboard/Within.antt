-- ===== src/Dashboard/Within.antt =====
-- That the rows and stacks of tiles of zbx/dashboards.py lie within the grid.
use Prim.Native.String.{◌++◌ as ◌<>◌}
use nodeguard.Prelude.{
  ℕ, suc, ◌+◌, ◌*◌, ◌≤◌, ◌≡◌, refl, String, Option, none, some, List, [], ◌∷◌, arith, All,
}
use nodeguard.Prelude.Decimal.{decimal}
use nodeguard.Dashboard.Widget.{Place}
use nodeguard.Dashboard.Builders.{Tile, plain_tile, itemvalue}
use nodeguard.Dashboard.Fleet.{Member, Item}
use nodeguard.Dashboard.Canvas.{Ctx, Draw, pure, ◌>>◌, add_widget, item, item_key, fold_each}
use nodeguard.Dashboard.Tiles.{
  Spec, check_header, tile_fields, tile_of, place_tile, tile_row, place_rank, ranks, leaderboard,
}
use nodeguard.Dashboard.Boards.{tile_rows}
use nodeguard.Dashboard.Fits.{
  Keeps, Any, Keeps-pure, Keeps-then, Keeps-add_widget, Keeps-item, Keeps-check_header,
  Keeps-for_each, Keeps-fold_each,
}

-- A test for the header, then a tile that fits.
Keeps-tile :
    (ctx : Ctx) (label : String) (width : ℕ) (t : Tile)
    → t.place.x + t.place.width ≤ 72
    → Keeps 0 Any (check_header ctx label width >> add_widget (itemvalue t))
unfolding itemvalue
Keeps-tile ctx label width t p =
    Keeps-then 0 Any Any (check_header ctx label width) (λ _. add_widget (itemvalue t))
      (Keeps-check_header ctx label width) (λ _ _. Keeps-add_widget (itemvalue t) p)

place_tile-Keeps :
    (ctx : Ctx) (y : ℕ) (host : Member) (height x : ℕ) (s : Spec)
    → x + s.width ≤ 72
    → Keeps 0 (λ x'. x' ≡ x + s.width) (place_tile ctx y host height x s)
unfolding place_tile tile_of
place_tile-Keeps ctx y host height x s p =
    Keeps-then 0 Any (λ x'. x' ≡ x + s.width) (item ctx host (item_key s.field)) _
      (Keeps-item ctx host (item_key s.field))
      (λ found _.
        Keeps-then 0 Any (λ x'. x' ≡ x + s.width) (drawn found) _ (tile found)
          (λ _ _. Keeps-pure (λ x'. x' ≡ x + s.width) (x + s.width) refl))
  where
    drawn : Option Item → Draw (Unit {0})
    drawn found = elim found [
      | none ↦ pure tt
      | some rec ↦
          check_header ctx s.label s.width
          >> add_widget (
              itemvalue (
                tile_of ctx host (record { x = x; y = y; width = s.width; height = height }) s rec))
    ]

    tile : (found : Option Item) → Keeps 0 Any (drawn found)
    tile none = Keeps-pure Any tt tt
    tile (some rec) =
        Keeps-tile ctx s.label s.width
          (tile_of ctx host (record { x = x; y = y; width = s.width; height = height }) s rec) p

abbrev pub total_width : List Spec → ℕ
total_width [] = 0
total_width (s ∷ ss) = s.width + total_width ss

tiles-Keeps :
    (ctx : Ctx) (y : ℕ) (host : Member) (x : ℕ) (specs : List Spec)
    → x + total_width specs ≤ 72
    → Keeps 0 Any (fold_each (place_tile ctx y host 3) x specs)
unfolding fold_each
tiles-Keeps ctx y host x [] p = Keeps-pure Any x tt
tiles-Keeps ctx y host x (s ∷ ss) p =
    Keeps-then 0 (λ x'. x' ≡ x + s.width) Any (place_tile ctx y host 3 x s)
      (λ x'. fold_each (place_tile ctx y host 3) x' ss)
      (place_tile-Keeps ctx y host 3 x s (omega (arith, p)))
      (λ x' e. tiles-Keeps ctx y host x' ss (omega (arith, p, e)))

pub tile_row-Keeps :
    (ctx : Ctx) (y : ℕ) (host : Member) (specs : List Spec)
    → total_width specs ≤ 72
    → Keeps 0 Any (tile_row ctx y host specs)
unfolding tile_row
tile_row-Keeps ctx y host specs p =
    Keeps-then 0 Any Any (fold_each (place_tile ctx y host 3) 0 specs) (λ _. pure (y + 3))
      (tiles-Keeps ctx y host 0 specs (omega (arith, p))) (λ _ _. Keeps-pure Any (y + 3) tt)

pub tile_rows-Keeps :
    (ctx : Ctx) (y : ℕ) (specs : List Spec)
    → total_width specs ≤ 72
    → Keeps 0 Any (tile_rows ctx y specs)
unfolding tile_rows
tile_rows-Keeps ctx y specs p =
    Keeps-fold_each (λ y h. tile_row ctx y h specs) y ctx.hosts
      (λ y h. tile_row-Keeps ctx y h specs p)

place_rank-Keeps :
    (ctx : Ctx) (x y w : ℕ) (host : Member) (title prefix : String) (i : ℕ)
    → x + w ≤ 72
    → Keeps 0 Any (place_rank ctx x y w host title prefix i)
unfolding place_rank
place_rank-Keeps ctx x y w host title prefix i p =
    Keeps-then 0 Any Any (item ctx host (item_key (prefix <> "_" <> decimal (suc i)))) drawn
      (Keeps-item ctx host (item_key (prefix <> "_" <> decimal (suc i)))) (λ found _. tile found)
  where
    drawn : Option Item → Draw (Unit {0})
    drawn found = elim found [
      | none ↦ pure tt
      | some rec ↦
          let label = title <> " #" <> decimal (suc i) in
          let place : Place = record { x = x; y = y + i * 2; width = w; height = 2 } in
          check_header ctx label w
          >> add_widget (
              itemvalue (record (plain_tile place label rec.itemid) {
                value_size = (tile_fields ctx.floats rec 2 w).1;
              }))
    ]

    tile : (found : Option Item) → Keeps 0 Any (drawn found)
    tile none = Keeps-pure Any tt tt
    tile (some rec) = Keeps-tile ctx (title <> " #" <> decimal (suc i)) w _ p

pub leaderboard-Keeps :
    (ctx : Ctx) (x y w : ℕ) (host : Member) (title prefix : String)
    → x + w ≤ 72
    → Keeps 0 Any (leaderboard ctx x y w host title prefix)
unfolding leaderboard
leaderboard-Keeps ctx x y w host title prefix p =
    Keeps-for_each (place_rank ctx x y w host title prefix) (ranks 0 5) (each_rank (ranks 0 5))
  where
    each_rank : (is : List ℕ) → All (λ i. Keeps 0 Any (place_rank ctx x y w host title prefix i)) is
    each_rank [] = tt
    each_rank (i ∷ is) = (place_rank-Keeps ctx x y w host title prefix i p, each_rank is)
