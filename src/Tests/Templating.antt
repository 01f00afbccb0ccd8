-- ===== src/Tests/Templating.antt =====
-- A small template through the checks of zbx/check_template.py, and instances of their theorems.
use nodeguard.Prelude.{◌≡◌, refl, ◌↔◌, String, true, none, some, List, [], ◌∷◌, any}
use nodeguard.Prelude.Dict.{lookup, insert}
use nodeguard.Prelude.Text.{
  skip_spaces, drop_trailing, strip, split_by, skip_prefix, drop_suffix, replace_from, replace,
  span,
}
use nodeguard.Template.Export.{
  Export, each, walk_items, walk_triggers, discovery_rules, proto_pairs,
}
use nodeguard.Template.Checker.{
  Removed, item, new_checker, is_in, dict_of, ok, failed, report, insert_text, sort_set,
}
use nodeguard.Template.Names.{missing_of, changed_of, report_both, compare_names, check_names}
use nodeguard.Template.Uuids.{
  problems_of, cmp_map, uuid_problems, check_uuids, KeepsUuids, check_uuids_iff,
}
use nodeguard.Template.Sanctions.{
  present_identifiers, both, stale_of, check_sanctions, kind_of, entry_of, read_line, add_removal,
  load_lines, load_removed,
}
use nodeguard.Template.Surface.{kv_field, rate_source, item_key_ok, rule_keys, bad_keys, check_keys}
use nodeguard.Template.Regexes.{
  Re, group, line_feed, feeds_of, lld_feeds, has_duplicate, check_feeds, judge, patterns,
  item_checks, prototype_checks, check_each, regex_checks, check_regexes,
}
use nodeguard.Template.Removals.{
  entry_says, entry_is_bad, in_line, load_removed-records, load_removed-none,
}
use nodeguard.Template.Main.{later_checks, run_checks, exit_of, main, Accepted, main-Accepted}

-- What a run of the checks computes with.
runs : Unit {0}
unfolding skip_spaces drop_trailing strip split_by skip_prefix drop_suffix replace_from replace span
    each walk_items walk_triggers discovery_rules proto_pairs ok failed report insert_text sort_set
    dict_of lookup insert missing_of changed_of report_both compare_names check_names problems_of
    cmp_map uuid_problems check_uuids present_identifiers both stale_of check_sanctions kind_of
    entry_of read_line add_removal load_lines load_removed kv_field rate_source item_key_ok
    rule_keys bad_keys check_keys line_feed feeds_of lld_feeds has_duplicate check_feeds judge
    patterns item_checks prototype_checks check_each regex_checks check_regexes later_checks
    run_checks exit_of main
runs = tt

-- A regular expression engine that finds "1" everywhere.
abbrev finds : Re
finds = record { search = λ p t. group (some "1"); escape = λ t. t }

abbrev sample : String
sample = "ng.ts=1\nng.feeds_last_success_ts_min=1\nng.feeds_last_success_ts_drop=1\n"

abbrev small : Export
small = record {
  template_groups = record { name = "Templates/Nodeguard"; uuid = "g1" } ∷ [];
  templates =
      record {
        template = "Nodeguard";
        uuid = "t1";
        items =
            record {
              key = "nodeguard.kv[pass.rate]";
              name = "pass rate";
              uuid = "i1";
              preprocessing = record { kind = "REGEX"; parameter = "^ng.pass=(.+)$" } ∷ [];
              triggers = record { name = "low"; uuid = "r1" } ∷ [];
            }
            ∷ [];
        discovery_rules =
            record {
              key = "nodeguard.feeds.discovery";
              uuid = "d1";
              item_prototypes =
                  record {
                    key = "nodeguard.feed.age[{#FEED}]";
                    name = "feed {#FEED} snapshot age";
                    uuid = "p1";
                    preprocessing = record { kind = "REGEX"; parameter = "^ng.{#FEED}=(.+)$" } ∷ [];
                  }
                  ∷ [];
              trigger_prototypes = [];
            }
            ∷ [];
      }
      ∷ [];
  triggers = [];
}

abbrev removals : List String
removals = "# sanctioned" ∷ " item|nodeguard.kv[old]|superseded|2026-09-06\n" ∷ []

-- The baseline still had the old item, under the sanction.
abbrev older : Export
older = record small {
  templates =
      record {
        template = "Nodeguard";
        uuid = "t1";
        items =
            record {
              key = "nodeguard.kv[old]";
              name = "old";
              uuid = "i0";
              preprocessing = [];
              triggers = [];
            }
            ∷ [];
        discovery_rules = [];
      }
      ∷ [];
}

accepted : main finds (some small) sample (some older) (some removals) ≡ 0
unfolding runs
accepted = refl

-- Without the sanction the old item is missed, in its name and in its uuid.
missed : main finds (some small) sample (some older) none ≡ 1
unfolding runs
missed = refl

one_feed : lld_feeds sample ≡ "drop" ∷ []
unfolding runs
one_feed = refl

substituted : replace "{#FEED}" "drop" "a{#FEED}b{#FEED}" ≡ "adropbdrop"
unfolding runs
substituted = refl

abbrev none_removed : Removed
none_removed k = []

main-Accepted_example :
    (exp : Export) × (base : Export) × (removed : Removed) × (some small ≡ some exp)
    × (some older ≡ some base)
    × (load_removed (some removals) ≡ some removed)
    × Accepted finds exp base removed sample
main-Accepted_example =
    main-Accepted finds (some small) (some older) sample (some removals) accepted

check_uuids_iff_example :
    ((check_uuids new_checker small older none_removed).failures ≡ 0)
    ↔ ((new_checker.failures ≡ 0) × KeepsUuids small older none_removed)
check_uuids_iff_example = check_uuids_iff new_checker small older none_removed

abbrev old_removed : Removed
old_removed k = add_removal item "nodeguard.kv[old]" none_removed k

loaded : load_removed (some removals) ≡ some old_removed
unfolding runs
loaded = refl

load_removed-records_example :
    is_in "nodeguard.kv[old]" (old_removed item)
    ≡ any (in_line (entry_says item "nodeguard.kv[old]")) removals
load_removed-records_example =
    load_removed-records removals old_removed item "nodeguard.kv[old]" loaded

load_removed-none_example :
    (load_removed (some ("item|no reason" ∷ [])) ≡ none)
    ↔ (any (in_line entry_is_bad) ("item|no reason" ∷ []) ≡ true)
load_removed-none_example = load_removed-none ("item|no reason" ∷ [])
