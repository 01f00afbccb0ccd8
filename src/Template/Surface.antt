-- ===== src/Template/Surface.antt =====
-- `check_keys` of zbx/check_template.py: the documented key surface of the kv export.
use Prim.Native.Char.{code}
use Prim.Native.String.{◌++◌ as ◌<>◌}
use nodeguard.Prelude.{
  ◌≡◌, refl, ◌↔◌, ◌⊎◌, inl, inr, String, Bool, true, false, ◌||◌, Option, none, some, List, [], ◌∷◌,
  ◌++◌, str_eq, str_eq_iff, ◌==◌, if◌then◌else◌, arith, All, All-map, Bool-cases, Option-cases,
}
use nodeguard.Prelude.Text.{skip_prefix, drop_suffix, skip_prefix_sound, drop_suffix_sound}
use nodeguard.Template.Export.{
  Export, Item, DiscoveryRule, Prototype, each, walk_items, discovery_rules,
}
use nodeguard.Template.Checker.{
  Checker, is_in, report, report-failures, append_iff, each-empty_iff, All-iff,
}

-- MASTER_KEY
abbrev pub master_key : String
master_key = "nodeguard.kv.raw"

-- LLD_KEY
abbrev pub lld_key : String
lld_key = "nodeguard.feeds.discovery"

-- PROTOTYPE_KEYS
abbrev pub prototype_keys : List String
prototype_keys = "nodeguard.feed.success_ts[{#FEED}]" ∷ "nodeguard.feed.age[{#FEED}]" ∷ []

-- DOCUMENTED_KV_FIELDS
abbrev pub documented_fields : List String
documented_fields =
    "ts" ∷ "attached" ∷ "attach_state" ∷ "attach_mode" ∷ "prog_id" ∷ "prog_match" ∷ "killswitch"
    ∷ "latch" ∷ "rearm_count" ∷ "pass" ∷ "drop_v4" ∷ "drop_v6" ∷ "pass_allowlist" ∷ "pass_wgport"
    ∷ "pass_expired" ∷ "pass_nonip" ∷ "pass_parsefail" ∷ "stats_read_fail" ∷ "tcp_synfin"
    ∷ "tcp_synrst" ∷ "tcp_null" ∷ "tcp_xmas" ∷ "ttl_low" ∷ "frag_v4" ∷ "frag_v6"
    ∷ "stats2_read_fail" ∷ "blocks" ∷ "blocks_v4" ∷ "blocks_v6" ∷ "util_v4_pct" ∷ "util_v6_pct"
    ∷ "top1_hits" ∷ "top_blocked" ∷ "sweep_walk_ms" ∷ "sweep_ts" ∷ "sweep_age" ∷ "port_cfg"
    ∷ "port_live" ∷ "port_match" ∷ "suricata" ∷ "responder" ∷ "xdp_unit" ∷ "maps_unit"
    ∷ "watchdog_timer" ∷ "sweep_timer" ∷ "kernel_drops" ∷ "suricata_alerts" ∷ "resp_alerts_seen"
    ∷ "resp_blocks_issued" ∷ "resp_dryrun_would_block" ∷ "resp_last_alert_ts"
    ∷ "resp_last_action_ts" ∷ "resp_kv_ts" ∷ "resp_kv_age" ∷ "resp_lag_s" ∷ "suricata_update_ts"
    ∷ "suricata_rules_mtime" ∷ "wd_canary_fail" ∷ "wd_lifeline_fail" ∷ "wd_toolfail" ∷ "wd_clean"
    ∷ "anomaly_count" ∷ "anomaly_shadow_count" ∷ "anomaly_last_ts" ∷ "feeds_enforce"
    ∷ "feeds_approved" ∷ "feeds_config_approved_mismatch" ∷ "feeds_journal_reset"
    ∷ "feeds_churn_held" ∷ "feeds_last_run_ts" ∷ "feeds_entries" ∷ "feeds_candidates"
    ∷ "feeds_rejected" ∷ "feeds_failed" ∷ "feeds_map_errors" ∷ "feeds_last_success_ts_min"
    ∷ "geo_summary" ∷ "geo_sources_hitting" ∷ "geo_located" ∷ "geo_countries" ∷ "geo_ts" ∷ "geo_age"
    ∷ "top_blocked_1" ∷ "top_blocked_2" ∷ "top_blocked_3" ∷ "top_blocked_4" ∷ "top_blocked_5"
    ∷ "geo_country_1" ∷ "geo_country_2" ∷ "geo_country_3" ∷ "geo_country_4" ∷ "geo_country_5"
    ∷ "feeds_last_success_ts_spamhaus_drop_v4" ∷ "feeds_snapshot_age_spamhaus_drop_v4"
    ∷ "feeds_last_success_ts_spamhaus_drop_v6" ∷ "feeds_snapshot_age_spamhaus_drop_v6"
    ∷ "feeds_last_success_ts_dshield_top20" ∷ "feeds_snapshot_age_dshield_top20" ∷ []

abbrev pub has_newline : String → Bool
has_newline String.[] = false
has_newline (String.◌∷◌ c s) = code c == 10 || has_newline s

-- The group of `re.fullmatch(r"nodeguard\.kv\[(.+)\]", key)`; a dot matches no line feed.
unfoldable pub kv_field : String → Option String
kv_field key = elim (skip_prefix "nodeguard.kv[" key) [
  | none ↦ none
  | some rest ↦ elim (drop_suffix "]" rest) [
    | none ↦ none
    | some field ↦ if str_eq field "" || has_newline field then none else some field
  ]
]

-- The field without the suffix of a rate twin.
unfoldable pub rate_source : String → String
rate_source field = elim (drop_suffix ".rate" field) [ none ↦ field | some f ↦ f ]

unfoldable pub item_key_ok : String → Bool
item_key_ok key = if str_eq key master_key then true else elim (kv_field key) [
  | none ↦ false
  | some field ↦ is_in (rate_source field) documented_fields
]

-- `bad.append(key)`
abbrev pub unless : Bool → String → List String
unless fine key = if fine then [] else key ∷ []

unfoldable pub rule_keys : DiscoveryRule → List String
unfolding each
rule_keys dr =
    unless (str_eq dr.key lld_key) dr.key
    ++ each (λ (p : Prototype). unless (is_in p.key prototype_keys) p.key) dr.item_prototypes

unfoldable pub bad_keys : Export → List String
unfolding each rule_keys
bad_keys exp =
    each (λ (i : Item). unless (item_key_ok i.key) i.key) (walk_items exp)
    ++ each rule_keys (discovery_rules exp)

unfoldable pub check_keys : Checker → Export → Checker
check_keys c exp = report "kv-surface" (bad_keys exp) c

-- A key of the documented surface: the master's, or that of a documented field or of its rate twin.
abbrev pub IsKvKey : String → Type 0
IsKvKey key =
    (key ≡ master_key)
    ⊎ ((field : String) × (is_in field documented_fields ≡ true)
        × ((key ≡ "nodeguard.kv[" <> (field <> "]"))
            ⊎ (key ≡ "nodeguard.kv[" <> ((field <> ".rate") <> "]"))))

kept :
    (f field : String)
    → (if str_eq f "" || has_newline f then none else some f) ≡ some field
    → f ≡ field
kept f field e = ground (arith, e)

kv_field_sound :
    (key field : String) → kv_field key ≡ some field → key ≡ "nodeguard.kv[" <> (field <> "]")
unfolding kv_field
kv_field_sound key field e = elim (Option-cases (skip_prefix "nodeguard.kv[" key)) [
  | inl n ↦ ground (arith, n, e)
  | inr (rest, y) ↦ elim (Option-cases (drop_suffix "]" rest)) [
    | inl n ↦ ground (arith, y, n, e)
    | inr (f, z) ↦ cc (
      skip_prefix_sound "nodeguard.kv[" key rest y,
      drop_suffix_sound "]" rest f z,
      kept f field (ground (arith, y, z, e)),
    )
  ]
]

rate_source-cases :
    (field : String) → (rate_source field ≡ field) ⊎ (field ≡ rate_source field <> ".rate")
unfolding rate_source
rate_source-cases field = elim (Option-cases (drop_suffix ".rate" field)) [
  | inl n ↦ inl (rw (n, rate_source) refl)
  | inr (f, y) ↦ inr (rw (y, rate_source) (drop_suffix_sound ".rate" field f y))
]

pub item_key_ok-IsKvKey : (key : String) → item_key_ok key ≡ true → IsKvKey key
unfolding item_key_ok
item_key_ok-IsKvKey key e = elim (Bool-cases (str_eq key master_key)) [
  | inl y ↦ inl ((str_eq_iff key master_key).0 y)
  | inr n ↦ elim (Option-cases (kv_field key)) [
    | inl m ↦ ground (arith, n, m, e)
    | inr (field, y) ↦ inr (
      rate_source field,
      ground (arith, n, y, e),
      twin (rate_source-cases field) (kv_field_sound key field y),
    )
  ]
]
  where
    twin :
        {field : String}
        → (rate_source field ≡ field) ⊎ (field ≡ rate_source field <> ".rate")
        → key ≡ "nodeguard.kv[" <> (field <> "]")
        → (key ≡ "nodeguard.kv[" <> (rate_source field <> "]"))
          ⊎ (key ≡ "nodeguard.kv[" <> ((rate_source field <> ".rate") <> "]"))
    twin (inl p) q = inl (cc (p, q))
    twin (inr p) q = inr (cc (p, q))

unless-empty_iff : (fine : Bool) (key : String) → (unless fine key ≡ []) ↔ (fine ≡ true)
unless-empty_iff true key = ground arith
unless-empty_iff false key = ground arith

abbrev pub IsRuleOk : DiscoveryRule → Type 0
IsRuleOk dr =
    (dr.key ≡ lld_key)
    × All (λ (p : Prototype). is_in p.key prototype_keys ≡ true) dr.item_prototypes

-- Every key of the export is on the surface.
pub record OnSurface (exp : Export) : Type 0 where
  pub items : All (λ (i : Item). IsKvKey i.key) (walk_items exp)
  pub rules : All IsRuleOk (discovery_rules exp)

rule_keys-IsRuleOk : (dr : DiscoveryRule) → rule_keys dr ≡ [] → IsRuleOk dr
unfolding rule_keys
rule_keys-IsRuleOk dr e =
    let split =
      append_iff (unless (str_eq dr.key lld_key) dr.key) _
        (unless-empty_iff (str_eq dr.key lld_key) dr.key)
        (each-empty_iff (λ (p : Prototype). unless (is_in p.key prototype_keys) p.key)
          dr.item_prototypes) in
    let (key, protos) = split.0 e in
    (
      (str_eq_iff dr.key lld_key).0 key,
      (All-iff (λ (p : Prototype). unless-empty_iff (is_in p.key prototype_keys) p.key)
            dr.item_prototypes).0
          protos,
    )

bad_keys-OnSurface : (exp : Export) → bad_keys exp ≡ [] → OnSurface exp
unfolding bad_keys
bad_keys-OnSurface exp e =
    let split =
      append_iff (each (λ (i : Item). unless (item_key_ok i.key) i.key) (walk_items exp)) _
        (each-empty_iff (λ (i : Item). unless (item_key_ok i.key) i.key) (walk_items exp))
        (each-empty_iff rule_keys (discovery_rules exp)) in
    let (items, rules) = split.0 e in
    record {
      items =
          All-map
            (λ (i : Item) q.
              item_key_ok-IsKvKey i.key ((unless-empty_iff (item_key_ok i.key) i.key).0 q))
            (walk_items exp) items;
      rules = All-map rule_keys-IsRuleOk (discovery_rules exp) rules;
    }

-- If the key check counts no failure, then every item key is the master's or that of a documented
-- field, or of its rate twin, and every discovery rule and item prototype has a known key.
pub check_keys-OnSurface :
    (c : Checker) (exp : Export)
    → (check_keys c exp).failures ≡ 0
    → (c.failures ≡ 0) × OnSurface exp
unfolding check_keys
check_keys-OnSurface c exp e =
    let (z, n) = (report-failures "kv-surface" (bad_keys exp) c).0 e in
    (z, bad_keys-OnSurface exp n)
