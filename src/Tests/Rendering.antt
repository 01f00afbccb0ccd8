-- ===== src/Tests/Rendering.antt =====
-- Runs of the model of zbx/gen-template.py, and instances of its theorems.
use Prim.Native.String.{◌++◌ as ◌<>◌}
use nodeguard.Prelude.{
  ◌≡◌, ◌↔◌, refl, String, some, [], ◌∷◌, length, str_eq, str_eq_iff, false, arith,
}
use nodeguard.Prelude.Text.{count}
use nodeguard.Template.Export.{
  Export, Trigger, DiscoveryRule, each, walk_items, walk_triggers, discovery_rules,
}
use nodeguard.Template.Checker.{Removed, new_checker, ok}
use nodeguard.Template.Surface.{check_keys}
use nodeguard.Template.Uuids.{check_uuids}
use nodeguard.Generator.Uuid.{Uuid5, mint, nibbles, text_of}
use nodeguard.Generator.Render.{ExportOut, render}
use nodeguard.Generator.Reread.{reread}
use nodeguard.Generator.Carry.{SettledBase, KeepsObjects, check_uuids-render}
use nodeguard.Generator.Wiring.{Wired, render-Wired}
use nodeguard.Generator.Surface.{check_keys-render}
use nodeguard.Generator.Minted.{as_v4, mint-IsV4}
use nodeguard.Generator.Main.{main, main-render}

-- Sixteen bytes, the first by the length of the name.
abbrev sixteen : Uuid5
sixteen name =
    count name
    ∷ 17
    ∷ 34
    ∷ 51
    ∷ 68
    ∷ 85
    ∷ 102
    ∷ 119
    ∷ 136
    ∷ 153
    ∷ 170
    ∷ 187
    ∷ 204
    ∷ 221
    ∷ 238
    ∷ 255
    ∷ []

abbrev feeds_rule : DiscoveryRule
feeds_rule = record {
  key = "nodeguard.feeds.discovery";
  uuid = "c1";
  item_prototypes =
      record {
        key = "nodeguard.feed.age[{#FEED}]";
        name = "feed {#FEED} snapshot age";
        uuid = "d1";
        preprocessing = [];
      }
      ∷ [];
  trigger_prototypes = record { name = "nodeguard feed {#FEED} stale"; uuid = "e1" } ∷ [];
}

abbrev stale_trigger : Trigger
stale_trigger = record { name = "nodeguard XDP is not attached on {HOST.NAME}"; uuid = "b1" }

-- A small committed template.
abbrev committed : Export
committed = record {
  template_groups = record { name = "Templates/Nodeguard"; uuid = "f1" } ∷ [];
  templates =
      record {
        template = "Nodeguard by Zabbix agent";
        uuid = "f2";
        items =
            record {
              key = "nodeguard.kv[attach_state]";
              name = "nodeguard attach state";
              uuid = "a1";
              preprocessing = [];
              triggers = stale_trigger ∷ [];
            }
            ∷ record {
              key = "nodeguard.kv[retired]";
              name = "nodeguard retired";
              uuid = "a2";
              preprocessing = [];
              triggers = [];
            }
            ∷ [];
        discovery_rules = feeds_rule ∷ [];
      }
      ∷ [];
  triggers = record { name = "nodeguard capacity of the block map"; uuid = "b2" } ∷ [];
}

apart : {a b x y : String} → str_eq a b ≡ false → a ≡ b → x ≡ y
apart {a} {b} e q = absurd (ground (arith, e, str_eq_iff a b, q))

-- Of the two items and of the two triggers, one of which stands in no item.
committed-Settled : SettledBase committed
unfolding each walk_items walk_triggers discovery_rules
committed-Settled = record {
  groups = (((λ _. refl, tt), refl), tt);
  templates = (((λ _. refl, tt), refl), tt);
  items = (((λ _. refl, (apart refl, tt)), refl), (((apart refl, (λ _. refl, tt)), refl), tt));
  triggers = (((λ _. refl, (apart refl, tt)), refl), (((apart refl, (λ _. refl, tt)), refl), tt));
  rules = (((λ _. refl, tt), refl), tt);
  feeds = (refl, tt);
  item_protos = (((((λ _. refl, tt), tt), refl), tt), tt);
  trigger_protos = (((((λ _. refl, tt), tt), refl), tt), tt);
}

-- No removal is sanctioned.
abbrev nothing_removed : Removed
nothing_removed _ = []

check_uuids-render_example :
    ((check_uuids new_checker
        (reread (render sixteen committed))
        committed
        nothing_removed).failures
      ≡ 0)
    ↔ ((new_checker.failures ≡ 0)
        × KeepsObjects (reread (render sixteen committed)) committed nothing_removed)
check_uuids-render_example =
    check_uuids-render sixteen new_checker committed nothing_removed committed-Settled

-- A text for an export.
abbrev dumps : ExportOut → String
dumps exp = exp.version

main-render_example :
    main sixteen dumps (some (reread (render sixteen committed)))
    ≡ main sixteen dumps (some committed)
main-render_example = main-render sixteen dumps committed

render-Wired_example : Wired (render sixteen committed)
render-Wired_example = render-Wired sixteen committed

check_keys-render_example :
    check_keys new_checker (reread (render sixteen committed)) ≡ ok "kv-surface" [] new_checker
check_keys-render_example = check_keys-render sixteen new_checker committed

mint-IsV4_example :
    (mint sixteen "item" "a" ≡ text_of (as_v4 (nibbles (sixteen ("item" <> ":" <> "a")))))
    × (length (as_v4 (nibbles (sixteen ("item" <> ":" <> "a")))) ≡ 32)
mint-IsV4_example = mint-IsV4 sixteen "item" "a" refl
