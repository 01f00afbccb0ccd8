-- ===== src/Template/Main.antt =====
-- `main` of zbx/check_template.py: the five checks, and the exit code.
use nodeguard.Prelude.{
  ℕ, ◌≡◌, refl, String, false, Option, none, some, List, ◌==◌, if◌then◌else◌, arith, All,
  Option-cases, inl, inr,
}
use nodeguard.Template.Export.{Export}
use nodeguard.Template.Checker.{Checker, Removed, new_checker, kinds}
use nodeguard.Template.Names.{check_names, KeepsNames, check_names_iff}
use nodeguard.Template.Uuids.{check_uuids, KeepsUuids, check_uuids_iff}
use nodeguard.Template.Sanctions.{check_sanctions, load_removed, Retired, check_sanctions_iff}
use nodeguard.Template.Surface.{check_keys, OnSurface, check_keys-OnSurface}
use nodeguard.Template.Regexes.{
  Re, check_regexes, regex_checks, Extracts, lld_feeds, has_duplicate, is_empty,
  check_regexes-Extracts,
}

-- The checks after the first, on one tally.
unfoldable pub later_checks : Export → Export → Removed → Checker → Checker
later_checks exp base removed c =
    let c1 = check_names c exp base removed in
    let c2 = check_uuids c1 exp base removed in
    let c3 = check_sanctions c2 exp removed in check_keys c3 exp

unfoldable pub run_checks : Re → Export → Export → Removed → String → Option Checker
run_checks re exp base removed sample = elim (check_regexes re new_checker exp sample) [
  | none ↦ none
  | some c ↦ some (later_checks exp base removed c)
]

-- The code of a finished tally; an exception that nothing catches ends with 1.
unfoldable pub exit_of : Option Checker → ℕ
exit_of none = 1
exit_of (some c) = if c.failures == 0 then 0 else 1

-- The exit code, on the template and the baseline (if there is one that can be read), the sample,
-- and the lines of removed-objects.txt if the file exists.
unfoldable pub main : Re → Option Export → String → Option Export → Option (List String) → ℕ
main re none sample baseline removals = 2
main re (some exp) sample none removals = 2
main re (some exp) sample (some base) removals = elim (load_removed removals) [
  | none ↦ 2
  | some removed ↦ exit_of (run_checks re exp base removed sample)
]

-- What an accepted template satisfies.
pub record Accepted (re : Re) (exp base : Export) (removed : Removed) (sample : String)
    : Type 0 where
  pub distinct_feeds : has_duplicate (lld_feeds sample) ≡ false
  pub some_feed : is_empty (lld_feeds sample) ≡ false
  pub extracts : All (Extracts re sample) (regex_checks re exp sample)
  pub names : KeepsNames exp base removed
  pub uuids : KeepsUuids exp base removed
  pub retired : All (Retired removed exp) kinds
  pub surface : OnSurface exp

run_checks-Accepted :
    (re : Re) (exp base : Export) (removed : Removed) (sample : String)
    → exit_of (run_checks re exp base removed sample) ≡ 0
    → Accepted re exp base removed sample
unfolding run_checks exit_of later_checks
run_checks-Accepted re exp base removed sample e =
    elim (Option-cases (check_regexes re new_checker exp sample)) [
      | inl n ↦ ground (arith, n, e)
      | inr (c, y) ↦
          let (z4, surface) =
            check_keys-OnSurface
              (check_sanctions (check_uuids (check_names c exp base removed) exp base removed) exp
                removed)
              exp (ground (arith, y, e)) in
          let (z3, retired) = (check_sanctions_iff _ exp removed).0 z4 in
          let (z2, uuids) = (check_uuids_iff _ exp base removed).0 z3 in
          let (z1, names) = (check_names_iff c exp base removed).0 z2 in
          let (_, distinct, named, found) =
            check_regexes-Extracts re new_checker c exp sample y z1 in
          record {
            distinct_feeds = distinct;
            some_feed = named;
            extracts = found;
            names = names;
            uuids = uuids;
            retired = retired;
            surface = surface;
          }
    ]

-- If the program exits with 0, it read a template, a baseline and the removals, every extraction
-- finds a value, each name and uuid of the baseline is carried over or its absence is sanctioned, no
-- sanctioned object is emitted, and every key is on the documented surface.
pub main-Accepted :
    (re : Re) (template baseline : Option Export) (sample : String)
    (removals : Option (List String))
    → main re template sample baseline removals ≡ 0
    → (exp : Export) × (base : Export) × (removed : Removed) × (template ≡ some exp)
      × (baseline ≡ some base)
      × (load_removed removals ≡ some removed)
      × Accepted re exp base removed sample
unfolding main
main-Accepted re none baseline sample removals e = ground arith
main-Accepted re (some exp) none sample removals e = ground arith
main-Accepted re (some exp) (some base) sample removals e =
    elim (Option-cases (load_removed removals)) [
      | inl n ↦ ground (arith, n, e)
      | inr (removed, y) ↦ (
        exp,
        base,
        removed,
        refl,
        refl,
        y,
        run_checks-Accepted re exp base removed sample (ground (arith, y, e)),
      )
    ]
