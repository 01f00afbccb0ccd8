-- ===== src/Generator/Main.antt =====
-- `main` of zbx/gen-template.py. The text of an export, `json.dumps`, is a parameter.
use nodeguard.Prelude.{ℕ, ◌+◌, ◌≡◌, refl, String, Option, none, some, List, [], ◌∷◌, length}
use nodeguard.Template.Export.{Export}
use nodeguard.Generator.Uuid.{Uuid5}
use nodeguard.Generator.Render.{ItemOut, ExportOut, render}
use nodeguard.Generator.Reread.{or_empty, reread}
use nodeguard.Generator.Again.{render-render}

-- The numbers of the last printed line.
pub record Counts : Type 0 where
  pub items : ℕ
  pub triggers : ℕ
  pub item_prototypes : ℕ
  pub trigger_prototypes : ℕ

-- A run: the text written to the output file, the counts printed, and the exit code.
pub record Run : Type 0 where
  pub written : Option String
  pub counts : Option Counts
  pub code : ℕ

-- `sum(len(i.get("triggers", [])) for i in items)`
unfoldable pub item_triggers : List ItemOut → ℕ
item_triggers [] = 0
item_triggers (i ∷ is) = length (or_empty i.triggers) + item_triggers is

-- The counts of the first template; none where there is no template or no rule.
unfoldable pub count : ExportOut → Option Counts
unfolding item_triggers
count exp = elim exp.templates [
  | [] ↦ none
  | tpl ∷ _ ↦ elim tpl.discovery_rules [
    | [] ↦ none
    | dr ∷ _ ↦ some record {
      items = length tpl.items;
      triggers = item_triggers tpl.items + length exp.triggers;
      item_prototypes = length dr.item_prototypes;
      trigger_prototypes = length dr.trigger_prototypes;
    }
  ]
]

-- The committed template, if the file exists.
unfoldable pub main : Uuid5 → (ExportOut → String) → Option Export → Run
main uuid5 dumps none = record { written = none; counts = none; code = 1 }
main uuid5 dumps (some committed) =
    let export = render uuid5 committed in
    record { written = some (dumps export); counts = count export; code = 0 }

-- A run on the template that a run rendered writes the same text, prints the same counts and ends
-- with the same code.
pub main-render :
    (uuid5 : Uuid5) (dumps : ExportOut → String) (committed : Export)
    → main uuid5 dumps (some (reread (render uuid5 committed))) ≡ main uuid5 dumps (some committed)
unfolding main
main-render uuid5 dumps committed = rw (render-render uuid5 committed) refl
