-- ===== src/Ngmap/Create.antt =====
-- `cmd_create_maps` of bin/ngmap.py: pinned maps from the spec file, or their verification.
use Prim.Native.String.{◌++◌ as ◌<>◌}
use nodeguard.Prelude.{
  ℕ, String, Bool, true, false, ◌&&◌, Option, none, some, List, [], ◌∷◌, ◌++◌, if◌then◌else◌, ◌==◌,
  str_eq, any,
}
use nodeguard.Prelude.Text.{fields}
use nodeguard.Ngmap.Pack.{pack_u32, pack_u64}
use nodeguard.Ngmap.Exec.{
  Exec, value_error, os_error, type_error, struct_error, spec_empty, spec_mismatch, pure, raise,
  die, die_if, or_raise, ◌>>=◌, ◌>>◌, attempt,
}
use nodeguard.Ngmap.Host.{Host, MapInfo, Reply, info, map_show, map_create}
use nodeguard.Ngmap.Maps.{pin, runtime_message, bpftool, update_map}
use nodeguard.Ngmap.Live.{uncomment}

-- A line of the spec: name, type, key and value size, capacity and flags.
pub record MapSpec : Type 0 where
  pub name : String
  pub map_type : String
  pub key_size : ℕ
  pub value_size : ℕ
  pub max_entries : ℕ
  pub flags : ℕ

-- What the host adds: `int(text)`, `str(number)`, and `mkdir -p` of the pin directory, which may fail.
pub record Shell (h : Host) : Type 0 where
  pub int : String → Option ℕ
  pub text : ℕ → String
  pub mkdir : Exec h.World (Unit {0})

abbrev pub all_some :
    Option ℕ → Option ℕ → Option ℕ → Option ℕ → (ℕ → ℕ → ℕ → ℕ → MapSpec) → Option MapSpec
all_some (some k) (some v) (some n) (some f) make = some (make k v n f)
all_some _ _ _ _ make = none

-- Six fields, four of them numbers; anything else is a ValueError.
unfoldable pub spec_of : (String → Option ℕ) → List String → Option MapSpec
spec_of int (name ∷ mtype ∷ ksize ∷ vsize ∷ entries ∷ flags ∷ []) =
    all_some (int ksize) (int vsize) (int entries) (int flags) λ k v n f. record {
      name = name;
      map_type = mtype;
      key_size = k;
      value_size = v;
      max_entries = n;
      flags = f;
    }
spec_of int _ = none

unfoldable pub read_spec : (String → Option ℕ) → List String → Option (List MapSpec)
unfolding spec_of
read_spec int [] = some []
read_spec int (line ∷ ls) =
    let rest = read_spec int ls in
    if str_eq (uncomment line) "" then rest else elim (spec_of int (fields (uncomment line))) [
      | none ↦ none
      | some s ↦ elim rest [ none ↦ none | some ss ↦ some (s ∷ ss) ]
    ]

-- `not spec`
abbrev pub no_spec : List MapSpec → Bool
no_spec [] = true
no_spec (_ ∷ _) = false

-- `got == want`
unfoldable pub matches : MapSpec → MapInfo → Bool
matches s i =
    str_eq i.map_type s.map_type
    && i.bytes_key == s.key_size
    && i.bytes_value == s.value_size
    && i.max_entries == s.max_entries
    && i.flags == s.flags

abbrev pub is_name : String → List String → Bool
is_name n = any (λ m. str_eq m n)

module _ (h : Host) (sh : Shell h) where
  open h use {World, read_lines}

  -- A reply that is no object has no `get`.
  unfoldable pub shown : Reply → Exec World (Option MapInfo)
  shown (info i) = pure (some i)
  shown _ = raise type_error

  -- `except RuntimeError: info = None`
  unfoldable pub map_info : String → Exec World (Option MapInfo)
  map_info path =
      attempt (bpftool h (map_show path)) shown
        (λ e. elim (runtime_message e) [ none ↦ raise e | some _ ↦ pure none ])

  abbrev pub options : MapSpec → List String
  options s =
      "type"
      ∷ s.map_type
      ∷ "key"
      ∷ sh.text s.key_size
      ∷ "value"
      ∷ sh.text s.value_size
      ∷ "entries"
      ∷ sh.text s.max_entries
      ∷ "name"
      ∷ s.name
      ∷ "flags"
      ∷ sh.text s.flags
      ∷ []

  -- The name, if the map was created.
  unfoldable pub create_or_verify : MapSpec → Option MapInfo → Exec World (List String)
  create_or_verify s none = do
    bpftool h (map_create (pin <> "/" <> s.name) (options s))
    pure (s.name ∷ [])
  create_or_verify s (some i) = if matches s i then pure [] else die (spec_mismatch s.name)

  unfoldable pub create_each : List MapSpec → Exec World (List String)
  create_each [] = pure []
  create_each (s ∷ ss) = do
    found ← map_info (pin <> "/" <> s.name)
    here ← create_or_verify s found
    later ← create_each ss
    pure (here ++ later)

  unfoldable pub init_kill_switch : Exec World (Unit {0})
  init_kill_switch = do
    k ← or_raise struct_error (pack_u32 1)
    v ← or_raise struct_error (pack_u64 0)
    update_map h (pin <> "/config") k v

  -- The lines of a file that has to be there; FileNotFoundError is an OSError.
  unfoldable pub lines_of : String → Exec World (List String)
  lines_of path w = or_raise os_error (read_lines w path) w

  -- The names of the maps created.
  unfoldable pub cmd_create_maps : String → Exec World (List String)
  cmd_create_maps spec_file = do
    lines ← lines_of spec_file
    spec ← or_raise value_error (read_spec sh.int lines)
    die_if (no_spec spec) spec_empty
    sh.mkdir
    created ← create_each spec
    if is_name "config" created then init_kill_switch else pure tt
    pure created
