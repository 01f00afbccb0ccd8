-- ===== src/Dashboard/Boards.antt =====
-- The three boards of zbx/dashboards.py.
use Prim.Native.String.{◌++◌ as ◌<>◌}
use nodeguard.Prelude.{
  ℕ, zero, suc, ◌+◌, ◌*◌, ◌-◌, ◌/◌, ◌%◌, String, true, false, Option, none, some, List, [], ◌∷◌,
  length, ltb, if◌then◌else◌,
}
use nodeguard.Prelude.Text.{count}
use nodeguard.Dashboard.Widget.{Place}
use nodeguard.Dashboard.Builders.{Threshold, plain_dial, gauge, honeycomb, pie, url_widget}
use nodeguard.Dashboard.Grid.{grid_columns, split_columns}
use nodeguard.Dashboard.Fleet.{Member}
use nodeguard.Dashboard.Sizes.{desc_size_for}
use nodeguard.Dashboard.Canvas.{
  Ctx, Draw, pure, ◌>>=◌, ◌>>◌, add_widget, add_graph, itemid, item_key, for_each, fold_each,
}
use nodeguard.Dashboard.Tiles.{Spec, spec, tile_row, leaderboard, from_value}

abbrev pub at : ℕ → ℕ → ℕ → ℕ → Place
at x y width height = record { x = x; y = y; width = width; height = height }

-- The legend across the top.
abbrev pub legend : Ctx → String → Draw (Unit {0})
legend ctx anchor =
    add_widget
      (url_widget (at 0 0 72 3) "Legend: how to read this dashboard" (ctx.legend_url <> anchor))

-- PASS_PATH_ITEMS, TCP_SANITY_ITEMS and TTL_FRAG_ITEMS
abbrev pub pass_path_items : List String
pass_path_items =
    "nodeguard XDP pass rate" ∷ "nodeguard allowlist pass rate" ∷ "nodeguard WireGuard pass rate"
    ∷ "nodeguard expired pass rate" ∷ "nodeguard non-IP pass rate"
    ∷ "nodeguard parse-fail pass rate" ∷ []

abbrev pub tcp_sanity_items : List String
tcp_sanity_items =
    "nodeguard TCP SYN+FIN rate" ∷ "nodeguard TCP SYN+RST rate" ∷ "nodeguard TCP NULL rate"
    ∷ "nodeguard TCP XMAS rate" ∷ []

abbrev pub ttl_frag_items : List String
ttl_frag_items =
    "nodeguard low TTL rate" ∷ "nodeguard IPv4 fragment rate" ∷ "nodeguard IPv6 fragment rate" ∷ []

-- A graph of a list: its name and its items.
abbrev pub Graph : Type 0
Graph = String × List String

-- `for i, (name, items) in enumerate(graphs)`: two graphs a row, from a number on.
unfoldable pub graph_rows : Ctx → ℕ → ℕ → List Graph → Draw (Unit {0})
unfolding ◌>>=◌ pure
graph_rows ctx y i [] = pure tt
graph_rows ctx y i ((name, items) ∷ graphs) =
    add_graph ctx (at (i % 2 * 36) (y + i / 2 * 7) 36 7) name items false >>= λ _.
    graph_rows ctx y (suc i) graphs

unfoldable pub graphs_end : ℕ → List Graph → ℕ
graphs_end y graphs = y + (length graphs + 1) / 2 * 7

-- `zip(ctx.hosts, columns)`
unfoldable pub beside {ℓ m} : {A : Type ℓ} {B : Type m} → List A → List B → List (A × B)
beside [] ys = []
beside (x ∷ xs) [] = []
beside (x ∷ xs) (y ∷ ys) = (x, y) ∷ beside xs ys

-- `for h in ctx.hosts: y = tile_row(ctx, widgets, y, h, tiles)`
unfoldable pub tile_rows : Ctx → ℕ → List Spec → Draw ℕ
tile_rows ctx y tiles = fold_each (λ y h. tile_row ctx y h tiles) y ctx.hosts

unfoldable pub overview_tiles : List Spec
overview_tiles =
    spec 12 "firewall attached?" "attach_state"
    ∷ spec 12 "kill switch" "killswitch"
    ∷ spec 12 "program identity" "prog_match"
    ∷ spec 12 "active blocks" "blocks"
    ∷ spec 12 "responder unit" "responder"
    ∷ spec 12 "anomaly trips" "anomaly_count"
    ∷ []

unfoldable pub overview_graphs : List Graph
overview_graphs =
    (
      "XDP drop rate v4 and v6: pkts/s dropped in-driver from blocklisted sources (attacks stopped)",
      "nodeguard XDP drop rate v4" ∷ "nodeguard XDP drop rate v6" ∷ [],
    )
    ∷ (
      "XDP pass rate: internet traffic reaching the blocklist check",
      "nodeguard XDP pass rate" ∷ [],
    )
    ∷ (
      "Active blocks: block-map population (entries expire in-kernel by TTL)",
      "nodeguard active blocks" ∷ [],
    )
    ∷ (
      "Suricata kernel drop rate: sustained nonzero = capture ring overflow, detection gaps",
      "suricata kernel drop rate" ∷ [],
    )
    ∷ ("Allowlist pass rate: never-blockable sources", "nodeguard allowlist pass rate" ∷ [])
    ∷ (
      "WireGuard pass rate: tunnel traffic hard-passed before any lookup",
      "nodeguard WireGuard pass rate" ∷ [],
    )
    ∷ []

-- The pie of a host in its column.
unfoldable pub share_pie : ℕ → Member × (ℕ × ℕ) → Draw (Unit {0})
share_pie y p =
    let h = p.0 in
    add_widget (pie (at p.1.0 y p.1.1 7) (h.name <> ": pass-path share") h.name pass_path_items)

-- `build_overview`, on a canvas with the references of its prefix.
unfoldable pub draw_overview : Ctx → Draw (Unit {0})
draw_overview ctx = do
  legend ctx "#nodeguard-overview"
  y ← tile_rows ctx 3 overview_tiles
  graph_rows ctx y 0 overview_graphs
  for_each (share_pie (graphs_end y overview_graphs))
      (beside ctx.hosts (split_columns (length ctx.hosts) grid_columns 0))

unfoldable pub security_tiles : List Spec
security_tiles =
    spec 18 "last alert seen" "resp_last_alert_ts"
    ∷ spec 18 "last responder action" "resp_last_action_ts"
    ∷ spec 18 "watchdog canary failures" "wd_canary_fail"
    ∷ spec 18 "top blocked hit count" "top1_hits"
    ∷ []

-- The leaderboards of the hosts side by side, from a number on.
unfoldable pub host_boards : Ctx → ℕ → ℕ → ℕ → List Member → Draw (Unit {0})
unfolding ◌>>=◌ pure
host_boards ctx y colw i [] = pure tt
host_boards ctx y colw i (h ∷ hs) =
    let x0 = i * colw in
    let half = colw / 2 in
    leaderboard ctx x0 y half h (h.name <> " top blocked") "top_blocked" >>= λ _.
    leaderboard ctx (x0 + half) y (colw - half) h (h.name <> " top countries") "geo_country"
    >>= λ _. host_boards ctx y colw (suc i) hs

-- `max(1, len(ctx.hosts))`
abbrev pub at_least_one : ℕ → ℕ
at_least_one zero = 1
at_least_one (suc n) = suc n

unfoldable pub draw_security : Ctx → Draw (Unit {0})
draw_security ctx = do
  legend ctx "#nodeguard-security"
  add_graph ctx (at 0 3 36 7) "TCP sanity scan rates (stacked): SYN+FIN, SYN+RST, NULL, XMAS"
      tcp_sanity_items true
  add_graph ctx (at 36 3 36 7) "Low TTL and fragments: evasion probing and fragment noise"
      ttl_frag_items false
  add_graph ctx (at 0 10 72 8)
      ("Alert-to-block story: suricata alert rate vs responder decisions vs XDP drop rate "
        <> "(dry-run divergence reads directly)")
      ("suricata alerts rate" ∷ "responder dry-run would-block rate"
        ∷ "responder blocks issued rate" ∷ "nodeguard XDP drop rate v4"
        ∷ "nodeguard XDP drop rate v6" ∷ [])
      false
  y ← tile_rows ctx 18 security_tiles
  host_boards ctx y (grid_columns / at_least_one (length ctx.hosts)) 0 ctx.hosts

-- A gauge to draw: host, field and label.
pub record Need : Type 0 where
  pub host : Member
  pub field : String
  pub label : String

unfoldable pub needs_of : List Member → List Need
needs_of [] = []
needs_of (h ∷ hs) =
    record { host = h; field = "util_v4_pct"; label = "v4 map fill" }
    ∷ record { host = h; field = "util_v6_pct"; label = "v6 map fill" }
    ∷ needs_of hs

-- `slots[i]`
unfoldable pub slot_at : ℕ → List (ℕ × ℕ) → Option (ℕ × ℕ)
slot_at i [] = none
slot_at zero (s ∷ ss) = some s
slot_at (suc i) (s ∷ ss) = slot_at i ss

unfoldable pub fill_thresholds : List Threshold
fill_thresholds = from_value "70" "E69F00" ∷ from_value "85" "D55E00" ∷ []

unfoldable pub add_gauge : Ctx → ℕ → Need → ℕ × ℕ → Draw (Unit {0})
add_gauge ctx gy g slot = do
  iid ← itemid ctx g.host (item_key g.field)
  elim iid [
    | none ↦ pure tt
    | some id ↦ add_widget (
        gauge (record (plain_dial (at slot.0 gy slot.1 5) g.label id) {
          description = g.host.name;
          desc_size = desc_size_for ctx.floats (count g.host.name) slot.1 5;
          thresholds = fill_thresholds;
        }))
  ]

-- The loop over the gauges, four a row, from a number on. A slot out of range is an IndexError.
unfoldable pub gauges_from : Ctx → ℕ → List (ℕ × ℕ) → ℕ → List Need → Draw (Unit {0})
unfolding ◌>>=◌ pure
gauges_from ctx y slots i [] = pure tt
gauges_from ctx y slots i (g ∷ gs) = elim (slot_at (i % 4) slots) [
  | none ↦ λ _. none
  | some slot ↦ add_gauge ctx (y + i / 4 * 5) g slot >>= λ _. gauges_from ctx y slots (suc i) gs
]

abbrev pub min_four : ℕ → ℕ
min_four n = if ltb n 4 then n else 4

-- The honeycomb of a host in its column; with a host id there is no ValueError.
unfoldable pub feed_comb : ℕ → Member × (ℕ × ℕ) → Draw (Unit {0})
feed_comb y p =
    let h = p.0 in
    let comb = honeycomb record {
      place = at p.1.0 y p.1.1 5;
      name = h.name <> ": per-feed snapshot age (green under 26h)";
      item_pattern = "feed * snapshot age";
      thresholds =
          from_value "0" "009E73" ∷ from_value "93600" "E69F00" ∷ from_value "172800" "D55E00" ∷ [];
      groupid = none;
      hostid = some h.hostid;
      primary_label = "{ITEM.NAME}";
      primary_label_size = 11;
      secondary_label_size = 22;
    } in
    elim comb [ none ↦ λ _. none | some w ↦ add_widget w ]

unfoldable pub capacity_graphs : List Graph
capacity_graphs =
    ("Feeds-owned entries", "feeds owned entries" ∷ [])
    ∷ (
      "Feeds pipeline: candidates vs rejected vs failed",
      "feeds candidates" ∷ "feeds rejected" ∷ "feeds failed count" ∷ [],
    )
    ∷ (
      "Sweep walk duration: the walk's own degradation, visible before it hurts",
      "nodeguard sweep walk duration" ∷ [],
    )
    ∷ []

unfoldable pub tiles_a : List Spec
tiles_a =
    spec 12 "feeds enforce" "feeds_enforce"
    ∷ spec 12 "feeds approved" "feeds_approved"
    ∷ spec 12 "feeds owned entries" "feeds_entries"
    ∷ spec 12 "feed failures" "feeds_failed"
    ∷ spec 12 "map errors" "feeds_map_errors"
    ∷ spec 12 "churn held" "feeds_churn_held"
    ∷ []

unfoldable pub tiles_b : List Spec
tiles_b =
    spec 12 "journal reset" "feeds_journal_reset"
    ∷ spec 12 "re-arm count" "rearm_count"
    ∷ spec 12 "lifeline failures" "wd_lifeline_fail"
    ∷ spec 12 "sweep age" "sweep_age"
    ∷ []

-- Both rows of tiles of a host.
unfoldable pub both_rows : Ctx → ℕ → Member → Draw ℕ
both_rows ctx y h = tile_row ctx y h tiles_a >>= λ y'. tile_row ctx y' h tiles_b

unfoldable pub draw_capacity : Ctx → Draw (Unit {0})
draw_capacity ctx = do
  legend ctx "#nodeguard-capacity"
  let gauges = needs_of ctx.hosts
  gauges_from ctx 3 (split_columns (min_four (length gauges)) 48 0) 0 gauges
  add_graph ctx (at 48 3 24 5) "Block-map fill trend (%)"
      ("nodeguard v4 block map utilization" ∷ "nodeguard v6 block map utilization" ∷ []) false
  let y = 3 + 5 * ((length gauges + 3) / 4)
  for_each (feed_comb y) (beside ctx.hosts (split_columns (length ctx.hosts) grid_columns 0))
  graph_rows ctx (y + 5) 0 capacity_graphs
  last ← fold_each (both_rows ctx) (graphs_end (y + 5) capacity_graphs) ctx.hosts
  pure tt
