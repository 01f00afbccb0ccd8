-- ===== src/Ngmap/Allow.antt =====
-- `cmd_allow_check` and `cmd_reconcile_allow` of bin/ngmap.py.
pub mod Check
pub mod Install
pub mod Removal
pub mod Wanted
pub mod Whole
pub mod Reading
pub mod Reconcile
use Prim.Native.String.{◌++◌ as ◌<>◌}
use nodeguard.Prelude.{
  ℕ, ◌+◌, String, Bool, true, false, not, ◌&&◌, ◌||◌, Option, none, some, List, [], ◌∷◌, ◌++◌,
  if◌then◌else◌, ◌==◌, str_eq, length,
}
use nodeguard.Net.{Version, v4, v6, Address, Network, same_version, contains}
use nodeguard.Ngmap.Pack.{Bytes}
use nodeguard.Ngmap.Keys.{key_bytes}
use nodeguard.Ngmap.Protect.{Reason, is_protected}
use nodeguard.Ngmap.Exec.{
  Result, ok, raised, system_exit, exit_code, Exec, Error, runtime, timeout, value_error, os_error,
  index_error, allow_check_failed, canary_allowed, pure, raise, die, die_if, or_raise, ◌>>=◌, ◌>>◌,
  attempt,
}
use nodeguard.Ngmap.Host.{Host}
use nodeguard.Ngmap.Maps.{pin, Value, plain, each_cpu, dump_map, update_map, delete_key}
use nodeguard.Ngmap.Live.{allow_entries_live, load_allow_files}

-- `except (RuntimeError, OSError, ValueError)`
abbrev pub is_caught : Error → Bool
is_caught (runtime _) = true
is_caught (timeout _) = true
is_caught value_error = true
is_caught os_error = true
is_caught _ = false

-- What the check finds if nothing raises: the reason, or that there is none.
pub data Checked : Type 0 where
  protected_by : Reason → Checked
  blockable : Checked

abbrev pub checked : Option Reason → Checked
checked (some r) = protected_by r
checked none = blockable

-- The status with which the process ends: that of `sys.exit`, and 1 after any exception that gets past
-- the command, from the handler of `main` or from Python itself.
abbrev pub exit_status : Result Checked → ℕ
exit_status (ok (protected_by _)) = 0
exit_status (ok blockable) = 1
exit_status (raised (system_exit r)) = exit_code r
exit_status (raised _) = 1

-- `a == b` of byte strings.
abbrev pub bytes_eq : Bytes → Bytes → Bool
bytes_eq [] [] = true
bytes_eq (a ∷ as') (b ∷ bs) = (a == b) && bytes_eq as' bs
bytes_eq _ _ = false

-- Keys of one map with their tags.
abbrev pub Tags : Type 0
Tags = List (Bytes × ℕ)

unfoldable pub tag_at : Bytes → Tags → Option ℕ
tag_at k [] = none
tag_at k ((j, t) ∷ ts) = let rest = tag_at k ts in if bytes_eq j k then some t else rest

abbrev pub has_key : Bytes → Tags → Bool
has_key k ts = elim (tag_at k ts) [ none ↦ false | some _ ↦ true ]

-- `desired`, a dict by version and key, as a dict for each version.
pub record Desired : Type 0 where
  pub four : Tags
  pub six : Tags

abbrev pub for_version : Version → Desired → Tags
for_version v4 d = d.four
for_version v6 d = d.six

-- The first tag of a key stays: static entries are tagged first, and a generated one is added only
-- if its key is new.
abbrev pub add_tag : ℕ → Network → Desired → Desired
add_tag tag net d =
    if has_key (key_bytes net) (for_version net.version d) then d else elim net.version [
      | v4 ↦ record d { four = d.four ++ ((key_bytes net, tag) ∷ []) }
      | v6 ↦ record d { six = d.six ++ ((key_bytes net, tag) ∷ []) }
    ]

unfoldable pub add_tags : ℕ → List Network → Desired → Desired
add_tags tag [] d = d
add_tags tag (n ∷ ns) d = add_tags tag ns (add_tag tag n d)

unfoldable pub desired_of : List Network → List Network → Desired
unfolding add_tags
desired_of static generated =
    add_tags 2 generated (add_tags 1 static (record { four = []; six = [] }))

unfoldable pub first_containing : Address → List Network → Option Network
first_containing a [] = none
first_containing a (n ∷ ns) =
    let rest = first_containing a ns in if contains n a then some n else rest

pub record ReconcileArgs : Type 0 where
  pub static : List String
  pub generated : List String
  pub canary : Option String

pub record Reconciled : Type 0 where
  pub added : ℕ
  pub removed : ℕ
  pub total : ℕ

abbrev pub same_tag : ℕ → Option ℕ → Bool
same_tag t none = false
same_tag t (some u) = u == t

-- `current.get(kb) != tag`, negated.
unfoldable pub has_tag : Bytes → ℕ → List (Bytes × Option ℕ) → Bool
has_tag k t [] = false
has_tag k t ((j, b) ∷ cs) = let rest = has_tag k t cs in if bytes_eq j k then same_tag t b else rest

module _ (h : Host) where
  open h use {World, ip_address}

  -- `is_protected(a.target, allow_entries_live())`: the maps are read first.
  unfoldable pub reason_for : String → Exec World (Option Reason)
  reason_for target = do
    live ← allow_entries_live h
    addr ← or_raise value_error (ip_address target)
    pure (is_protected addr live)

  unfoldable pub cmd_allow_check : String → Exec World Checked
  cmd_allow_check target =
      attempt (reason_for target) (λ r. pure (checked r))
        (λ e. if is_caught e then die allow_check_failed else raise e)

  -- The status of `ngmap.py allow-check`.
  unfoldable pub allow_check_status : String → World → ℕ
  allow_check_status target w = exit_status (cmd_allow_check target w).0

  -- `v[0]`; that of a per-CPU value is no number, and differs from every tag.
  unfoldable pub first_byte : Value → Exec World (Option ℕ)
  first_byte (plain []) = raise index_error
  first_byte (plain (b ∷ bs)) = pure (some b)
  first_byte (each_cpu []) = raise index_error
  first_byte (each_cpu (v ∷ vs)) = pure none

  -- `{k: v[0] for k, v in ...}`, as keys with what was found.
  unfoldable pub current_of : List (Bytes × Value) → Exec World (List (Bytes × Option ℕ))
  current_of [] = pure []
  current_of ((k, v) ∷ es) = do b ← first_byte v; rest ← current_of es; pure ((k, b) ∷ rest)

  unfoldable pub update_each : String → List (Bytes × Option ℕ) → Tags → Exec World ℕ
  update_each path current [] = pure 0
  update_each path current ((k, t) ∷ want) = do
    here ← (if has_tag k t current then pure 0 else do update_map h path k (t ∷ []); pure 1)
    later ← update_each path current want
    pure (here + later)

  unfoldable pub remove_each : String → Tags → List (Bytes × Option ℕ) → Exec World ℕ
  remove_each path want [] = pure 0
  remove_each path want ((k, b) ∷ current) = do
    here ← (if has_key k want then pure 0 else do delete_key h path k; pure 1)
    later ← remove_each path want current
    pure (here + later)

  unfoldable pub reconcile_map : String → Tags → Exec World (ℕ × ℕ)
  reconcile_map path want = do
    es ← dump_map h path
    current ← current_of es
    added ← update_each path current want
    removed ← remove_each path want current
    pure (added, removed)

  -- `if a.canary:`, then the refusal of an allow source that contains it.
  unfoldable pub check_canary : Option String → List Network → Exec World (Unit {0})
  check_canary none nets = pure tt
  check_canary (some text) nets = if str_eq text "" then pure tt else do
    canary ← or_raise value_error (ip_address text)
    elim (first_containing canary nets) [ none ↦ pure tt | some n ↦ die (canary_allowed n) ]

  unfoldable pub cmd_reconcile_allow : ReconcileArgs → Exec World Reconciled
  cmd_reconcile_allow a = do
    static ← load_allow_files h a.static
    generated ← load_allow_files h a.generated
    check_canary a.canary (static ++ generated)
    let desired = desired_of static generated
    (added4, removed4) ← reconcile_map (pin <> "/allow4") desired.four
    (added6, removed6) ← reconcile_map (pin <> "/allow6") desired.six
    pure (record {
      added = added4 + added6;
      removed = removed4 + removed6;
      total = length desired.four + length desired.six;
    })
