-- ===== src/Ngmap/Sweep.antt =====
-- `cmd_sweep` of bin/ngmap.py: the garbage collection, and the statistics that it leaves.
pub mod Ranking
pub mod Tally
use Prim.Native.String.{◌++◌ as ◌<>◌}
use nodeguard.Prelude.{
  ℕ, ◌+◌, ◌-◌, ◌*◌, ◌/◌, String, Bool, true, false, Option, none, some, List, [], ◌∷◌, ◌++◌,
  if◌then◌else◌, ltb, ◌==◌, take, str_eq,
}
use nodeguard.Prelude.Dict.{Dict, lookup, insert}
use nodeguard.Prelude.Text.{fields}
use nodeguard.Net.{Network}
use nodeguard.Ngmap.Pack.{Bytes}
use nodeguard.Ngmap.Exec.{Exec, Error, pure, raise, or_raise, ◌>>=◌, ◌>>◌}
use nodeguard.Ngmap.Host.{Host}
use nodeguard.Ngmap.Maps.{pin, Value, is_expired, mono_ns, dump_map, decode, unpack_entry}
use nodeguard.Ngmap.Live.{uncomment, purge_one}
use nodeguard.Ngmap.Block.{locked}

-- What the walk of one map has found: entries deleted and left, and the hits by network, as the
-- assignments to `hits_now` in their order.
pub record Walk : Type 0 where
  pub swept : ℕ
  pub live : ℕ
  pub hits : List (Network × ℕ)

abbrev pub walk_end : Walk
walk_end = record { swept = 0; live = 0; hits = [] }

-- An entry that went is not counted as live.
abbrev pub walk_entry : Network → ℕ → ℕ → Walk → Walk
walk_entry net hits gone later = record {
  swept = gone + later.swept;
  live = 1 - gone + later.live;
  hits = (net, hits) ∷ later.hits;
}

module _ (h : Host) where
  open h use {World}

  unfoldable pub sweep_each : String → ℕ → List (Bytes × Value) → Exec World Walk
  sweep_each path now [] = pure walk_end
  sweep_each path now ((k, v) ∷ es) = do
    (expiry, hits) ← unpack_entry h v
    net ← decode h k
    gone ← (if is_expired now expiry then locked h (purge_one h path now k) else pure 0)
    later ← sweep_each path now es
    pure (walk_entry net hits gone later)

  unfoldable pub sweep_map : String → ℕ → Exec World Walk
  sweep_map path now = do es ← dump_map h path; sweep_each path now es

-- `d = {...}` by assignments.
unfoldable pub assigned : (Network → String) → List (Network × ℕ) → Dict ℕ → Dict ℕ
assigned text [] d = d
assigned text ((n, hits) ∷ hs) d = assigned text hs (insert (text n) hits d)

abbrev pub or_zero : Option ℕ → ℕ
or_zero none = 0
or_zero (some n) = n

-- The hits since the last walk, where there are any.
unfoldable pub deltas : Dict ℕ → Dict ℕ → Dict ℕ
deltas prev [] = []
deltas prev ((c, hits) ∷ hs) =
    let rest = deltas prev hs in
    let before = or_zero (lookup c prev) in
    if ltb before hits then (c, hits - before) ∷ rest else rest

-- An entry before the first that is smaller: equal ones keep their order.
unfoldable pub place : String × ℕ → List (String × ℕ) → List (String × ℕ)
place e [] = e ∷ []
place e (x ∷ xs) = let rest = place e xs in if ltb x.1 e.1 then e ∷ x ∷ xs else x ∷ rest

-- `sorted(entries, key=lambda kv: -kv[1])`, which is stable: an entry goes behind its equals.
unfoldable pub rank_from : List (String × ℕ) → List (String × ℕ) → List (String × ℕ)
rank_from [] done = done
rank_from (e ∷ es) done = rank_from es (place e done)

unfoldable pub rank : List (String × ℕ) → List (String × ℕ)
rank es = rank_from es []

-- What is written to mapstat.kv, the two time stamps aside. A row of the leaderboard has the
-- network, its new hits and all its hits; a map without a known capacity has no utilization.
pub record Mapstat : Type 0 where
  pub blocks : ℕ
  pub blocks_v4 : ℕ
  pub blocks_v6 : ℕ
  pub top1_hits : ℕ
  pub top_blocked : List (String × ℕ × ℕ)
  pub util_v4_pct : Option ℕ
  pub util_v6_pct : Option ℕ

unfoldable pub with_totals : Dict ℕ → List (String × ℕ) → List (String × ℕ × ℕ)
with_totals hits [] = []
with_totals hits ((c, d) ∷ es) =
    (c, d, elim (lookup c hits) [ none ↦ d | some total ↦ total ]) ∷ with_totals hits es

abbrev pub first_hits : List (String × ℕ) → ℕ
first_hits [] = 0
first_hits ((c, d) ∷ es) = d

-- The fifth of the fields of a line, as a number: `int(parts[4])`.
unfoldable pub spec_entry : (String → Option ℕ) → List String → Option (String × ℕ)
spec_entry int (name ∷ _ ∷ _ ∷ _ ∷ entries ∷ _) = elim (int entries) [
  | none ↦ none
  | some n ↦ some (name, n)
]
spec_entry int _ = none

-- `_spec_max_entries`: what was read before the first bad line is kept.
unfoldable pub spec_max_entries : (String → Option ℕ) → List String → Dict ℕ → Dict ℕ
unfolding spec_entry
spec_max_entries int [] caps = caps
spec_max_entries int (line ∷ ls) caps =
    if str_eq (uncomment line) ""
    then spec_max_entries int ls caps
    else elim (spec_entry int (fields (uncomment line))) [
      | none ↦ caps
      | some e ↦ spec_max_entries int ls (insert e.0 e.1 caps)
    ]

-- `if caps.get(name): 100 * count // caps[name]`
unfoldable pub utilization : Dict ℕ → String → ℕ → Option ℕ
utilization caps name count =
    let cap = or_zero (lookup name caps) in if cap == 0 then none else some (100 * count / cap)

unfoldable pub mapstat : Dict ℕ → Dict ℕ → Dict ℕ → ℕ → ℕ → Mapstat
unfolding with_totals rank
mapstat hits prev caps v4 v6 =
    let top = take 5 (rank (deltas prev hits)) in
    record {
      blocks = v4 + v6;
      blocks_v4 = v4;
      blocks_v6 = v6;
      top1_hits = first_hits top;
      top_blocked = with_totals hits top;
      util_v4_pct = utilization caps "block4" v4;
      util_v6_pct = utilization caps "block6" v6;
    }

abbrev pub spec_path : String
spec_path = "/usr/local/lib/nodeguard/nodeguard-maps.spec"

-- What the host adds for the statistics: `str(network)`, `int(text)`, and what the last walk left in
-- sweep_hits.json (empty if it cannot be read).
pub record Stats : Type 0 where
  pub text : Network → String
  pub int : String → Option ℕ
  pub prev : Dict ℕ

-- What a sweep prints and writes.
pub record Swept : Type 0 where
  pub swept : ℕ
  pub hits : Dict ℕ
  pub stat : Mapstat

unfoldable pub sweep_result : Stats → List String → Walk → Walk → Swept
sweep_result s spec four six =
    let hits = assigned s.text (four.hits ++ six.hits) [] in
    record {
      swept = four.swept + six.swept;
      hits = hits;
      stat = mapstat hits s.prev (spec_max_entries s.int spec []) four.live six.live;
    }

module _ (h : Host) where
  open h use {World, read_lines}

  -- The lines of the spec file, none if there is no such file.
  unfoldable pub spec_lines : Exec World (List String)
  spec_lines w = elim (read_lines w spec_path) [ none ↦ pure [] w | some ls ↦ pure ls w ]

  unfoldable pub cmd_sweep : Stats → Exec World Swept
  cmd_sweep s = do
    now ← mono_ns h
    four ← sweep_map h (pin <> "/block4") now
    six ← sweep_map h (pin <> "/block6") now
    spec ← spec_lines
    pure (sweep_result s spec four six)
