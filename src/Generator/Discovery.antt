-- ===== src/Generator/Discovery.antt =====
-- `build_multi_item_triggers` and `build_discovery_rule` of zbx/gen-template.py.
use Prim.Native.String.{◌++◌ as ◌<>◌}
use nodeguard.Prelude.{String, List, [], ◌∷◌}
use nodeguard.Generator.Table.{
  Trig, trig, ref, iref, master_of, lld_key, frozen_kv_trigger, responder_down_trigger,
}

unfoldable pub build_multi_item_triggers : List Trig
build_multi_item_triggers =
    (record (trig "suricata alive but counters unreadable on {HOST.NAME}"
      ("nodata("
        <> (ref "kernel_drops")
        <> ",10m)=1 and last("
        <> (ref "suricata")
        <> ")=\"active\"")
      "WARNING"
      ("Live unit, dead socket: suricata reports active but kernel_drops is "
        <> "unsupported, which ng.suricata alone cannot catch.")) {
          depends_on = (master_of frozen_kv_trigger ∷ []);
        })
    ∷ (trig "nodeguard attached in degraded mode on {HOST.NAME}"
        ("last("
          <> (ref "attach_mode")
          <> ")<>\"native\" and last("
          <> (ref "attach_state")
          <> ")=\"attached\"")
        "WARNING"
        ("Attached but not in native driver mode; enforcement works with "
          <> "reduced performance headroom."))
    ∷ (trig "nodeguard watchdog approaching trip on {HOST.NAME}"
        ("last(" <> (ref "wd_canary_fail") <> ")>=2 or last(" <> (ref "wd_lifeline_fail") <> ")>=2")
        "WARNING"
        ("Two consecutive canary or lifeline failures; fires before the "
          <> "watchdog's soft-off trip. >= comparisons so the one-cycle export "
          <> "lag cannot mask a trip."))
    ∷ (trig "nodeguard responder dry-run divergence on {HOST.NAME}"
        ("(last("
          <> (ref "resp_dryrun_would_block")
          <> ")-last("
          <> (ref "resp_dryrun_would_block")
          <> ",#10))>0 and (last("
          <> (ref "resp_blocks_issued")
          <> ")-last("
          <> (ref "resp_blocks_issued")
          <> ",#10))=0")
        "INFO"
        ("Dry-run would-block is rising while issued blocks are flat: the "
          <> "responder wants to act and is configured not to."))
    ∷ (record (trig "nodeguard responder is not consuming alerts on {HOST.NAME}"
        ("(last("
          <> (ref "suricata_alerts")
          <> ")-last("
          <> (ref "suricata_alerts")
          <> ",#10))>0 and (last("
          <> (ref "resp_alerts_seen")
          <> ")-last("
          <> (ref "resp_alerts_seen")
          <> ",#10))=0")
        "WARNING"
        ("Suricata's alert counter is rising across the window while the "
          <> "responder's consumed count is flat: it is following the wrong file, "
          <> "or its tail is stuck. The heartbeat alone cannot see this, because "
          <> "a responder in this state is alive and still flushing. Suppressed "
          <> "while the unit is down, where it would only restate that fault.")) {
            depends_on = (master_of responder_down_trigger ∷ []);
          })
    ∷ []

unfoldable pub lld_js : String
lld_js =
    ("var out = [];\nvar re = "
      <> "/^ng\\.feeds_last_success_ts_(?!min=)([A-Za-z0-9_]+)=/gm;\nvar m;\n"
      <> "while ((m = re.exec(value)) !== null) {\n  out.push({\"{#FEED}\": "
      <> "m[1]});\n}\nreturn JSON.stringify(out);")

-- A preprocessing step.
pub record Stage : Type 0 where
  pub type : String
  pub parameters : List String

-- An item prototype of the rule.
pub record ProtoDef : Type 0 where
  pub key : String
  pub name : String
  pub value_type : String
  pub units : String
  pub description : String
  pub history : String
  pub trends : String
  pub regex : String

pub record RuleDef : Type 0 where
  pub key : String
  pub name : String
  pub description : String
  pub lifetime : String
  pub preprocessing : List Stage
  pub item_prototypes : List ProtoDef
  pub trigger_prototypes : List Trig

unfoldable pub succ_key : String
succ_key = "nodeguard.feed.success_ts[{#FEED}]"

unfoldable pub age_key : String
age_key = "nodeguard.feed.age[{#FEED}]"

-- The prototypes of items and of triggers.
unfoldable pub feed_items : List ProtoDef
feed_items =
    record {
      key = succ_key;
      name = "feed {#FEED} last success";
      value_type = "UNSIGNED";
      units = "unixtime";
      description = "epoch of {#FEED}'s last successful HTTP exchange (discovered)";
      history = "31d";
      trends = "180d";
      regex = "(?m)^ng\\.feeds_last_success_ts_{#FEED}=(.+)$";
    }
    ∷ record {
      key = age_key;
      name = "feed {#FEED} snapshot age";
      value_type = "UNSIGNED";
      units = "s";
      description = "seconds since {#FEED}'s content last changed (discovered)";
      history = "31d";
      trends = "180d";
      regex = "(?m)^ng\\.feeds_snapshot_age_{#FEED}=(.+)$";
    }
    ∷ []

unfoldable pub feed_triggers : List Trig
feed_triggers =
    let succ = iref succ_key in
    let age = iref age_key in
    (trig "nodeguard feed {#FEED} stale (discovered) on {HOST.NAME}"
      ("last(" <> succ <> ")>0 and fuzzytime(" <> succ <> ",46800)=0 and nodata(" <> succ
        <> ",2h)=0")
      "WARNING"
      ("Two full cycles plus margin without a successful exchange. The "
        <> "nodata guard silences a feed removed from feeds.conf once discovery " <> "drops it."))
    ∷ (trig "nodeguard feed {#FEED} failed open (discovered) on {HOST.NAME}"
        ("last(" <> succ <> ")>0 and fuzzytime(" <> succ <> ",93600)=0 and nodata(" <> succ
          <> ",2h)=0")
        "AVERAGE"
        ("Entries for this feed have expired in-kernel; designed decay, not "
          <> "an outage. Nodata-guarded."))
    ∷ (trig "nodeguard feed {#FEED} upstream frozen (discovered) on {HOST.NAME}"
        ("last(" <> age <> ")>604800 and nodata(" <> age <> ",2h)=0") "WARNING"
        ("Upstream unchanged for 7 days; re-stamp hard-stops at 14 days. " <> "Nodata-guarded."))
    ∷ []

unfoldable pub build_discovery_rule : RuleDef
build_discovery_rule = record {
  key = lld_key;
  name = "nodeguard feeds discovery";
  description =
      ("Discovers configured feed names from the feeds_last_success_ts_* "
        <> "keys in the kv export (excluding the _min aggregate). Prototype "
        <> "keys are distinct from the retired static per-feed keys, so "
        <> "discovery never collided with them during the parity window that "
        <> "preceded their removal.");
  lifetime = "30d";
  preprocessing =
      record { type = "JAVASCRIPT"; parameters = lld_js ∷ [] }
      ∷ record { type = "DISCARD_UNCHANGED_HEARTBEAT"; parameters = "1h" ∷ [] }
      ∷ [];
  item_prototypes = feed_items;
  trigger_prototypes = feed_triggers;
}
