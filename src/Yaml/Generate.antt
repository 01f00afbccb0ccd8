-- ===== src/Yaml/Generate.antt =====
-- `main` of build/mkyaml.py: the overlay of a host's parameters on the stock configuration.
use Prim.Native.String.{◌++◌ as ◌<>◌}
use text.Mathlib.Text.{find?}
use nodeguard.Prelude.{
  ℕ, String, Bool, true, false, ◌||◌, Option, none, some, List, [], ◌∷◌, str_eq, if◌then◌else◌,
  ◌==◌, any,
}
use nodeguard.Prelude.Text.{strip}
use nodeguard.Yaml.Value.{
  Value, Values, Entries, null, bool, num, str, seq, dict, end, item, empty, entry, get, set, has,
  truthy, Gen, made, stopped, no_stock_version, empty_stock_version, missing_key,
  duplicate_cluster_id, exception, fetch, as_dict, ◌>>=◌, ◌>>◌,
}

-- `stock_version`, on the sidecar's text if it can be read.
unfoldable pub stock_version : Option String → Gen String
stock_version none = stopped no_stock_version
stock_version (some content) =
    if str_eq (strip content) "" then stopped empty_stock_version else made (strip content)

unfoldable pub header_lines : String → String → List String
header_lines params_path version =
    "%YAML 1.1"
    ∷ "---"
    ∷ ("# Generated by nodeguard build/mkyaml.py from " <> params_path)
    ∷ ("# and the stock " <> version <> " suricata.yaml.")
    ∷ "# Do not hand-edit on the host; regenerate and redeploy."
    ∷ []

-- The keys that a parameter file must have.
abbrev pub required : Entries → List String
required h =
    "home_net"
    ∷ "management_cpus"
    ∷ "worker_cpus"
    ∷ (if has "interfaces" h then [] else "iface" ∷ "threads" ∷ "ring_size" ∷ [])

unfoldable pub check_required : List String → Entries → Gen (Unit {0})
check_required [] h = made tt
check_required (k ∷ ks) h = if has k h then check_required ks h else stopped (missing_key k)

-- `cfg["vars"]["address-groups"]["HOME_NET"] = home_net`
unfoldable pub set_home_net : Value → Entries → Gen Entries
set_home_net home_net cfg = do
  vars ← fetch "vars" cfg
  vars' ← as_dict vars
  groups ← fetch "address-groups" vars'
  groups' ← as_dict groups
  made (set "vars" (dict (set "address-groups" (dict (set "HOME_NET" home_net groups')) vars')) cfg)

-- `d.get(k, default)`
unfoldable pub get_or : Value → String → Entries → Value
get_or default k d = elim (get k d) [ none ↦ default | some v ↦ v ]

-- The interface of a legacy parameter file.
unfoldable pub legacy_interface : Entries → Gen Values
legacy_interface h = do
  iface ← fetch "iface" h
  threads ← fetch "threads" h
  ring ← fetch "ring_size" h
  made (
      item
        (dict (
          entry "iface" iface (
            entry "threads" threads (
              entry "cluster_id" (get_or (num 99) "cluster_id" h)
                (entry "ring_size" ring (entry "bpf_filter" (get_or null "bpf_filter" h) empty))))))
        end)

-- `h.get("interfaces") or [...]`; what is no list does not get through the loop.
unfoldable pub interfaces : Entries → Gen Values
interfaces h =
    if truthy (get_or null "interfaces" h)
    then elim (get_or null "interfaces" h) [ seq vs ↦ made vs | _ ↦ stopped exception ]
    else legacy_interface h

-- A cluster id as a member of a set: True is 1 there, and a list or a mapping is a TypeError.
pub data ClusterId : Type 0 where
  nothing : ClusterId
  number : ℕ → ClusterId
  word : String → ClusterId

unfoldable pub id_of : Value → Gen ClusterId
id_of null = made nothing
id_of (bool b) = made (number (if b then 1 else 0))
id_of (num n) = made (number n)
id_of (str t) = made (word t)
id_of _ = stopped exception

abbrev pub same_id : ClusterId → ClusterId → Bool
same_id nothing nothing = true
same_id (number m) (number n) = m == n
same_id (word s) (word t) = str_eq s t
same_id _ _ = false

abbrev pub seen : ClusterId → List ClusterId → Bool
seen i = any (λ j. same_id j i)

-- The section of one interface; a filter that is null or empty is left out.
abbrev pub capture_of : Value → Value → Value → Value → Value → Entries
capture_of iface threads cid ring filter =
    let afp = entry "interface" iface (
      entry "threads" threads (
        entry "cluster-id" cid (
          entry "cluster-type" (str "cluster_flow") (
            entry "defrag" (bool true)
              (entry "tpacket-v3" (bool true) (entry "ring-size" ring empty)))))) in
    if truthy filter then set "bpf-filter" filter afp else afp

unfoldable pub capture : Value → Entries → Gen Entries
capture cid i = do
  iface ← fetch "iface" i
  threads ← fetch "threads" i
  ring ← fetch "ring_size" i
  made (capture_of iface threads cid ring (get_or null "bpf_filter" i))

-- The loop over the interfaces, with the ids seen.
unfoldable pub captures : List ClusterId → Values → Gen Values
captures ids end = made end
captures ids (item v vs) = do
  i ← as_dict v
  id ← id_of (get_or (num 99) "cluster_id" i)
  if seen id ids then stopped duplicate_cluster_id else do
    afp ← capture (get_or (num 99) "cluster_id" i) i
    rest ← captures (id ∷ ids) vs
    made (item (dict afp) rest)

unfoldable pub threading : Value → Value → Value
threading management worker = dict (
    entry "set-cpu-affinity" (bool true) (
      entry "cpu-affinity"
        (dict (
          entry "management-cpu-set" (dict (entry "cpu" management empty)) (
            entry "worker-cpu-set"
              (dict (
                entry "cpu" worker (
                  entry "mode" (str "exclusive")
                    (entry "prio" (dict (entry "default" (str "medium") empty)) empty))))
              empty)))
        empty))

-- Alerts only.
abbrev pub alert_types : Value
alert_types = seq (
    item
      (dict (
        entry "alert"
          (dict (entry "metadata" (bool true) (entry "tagged-packets" (bool false) empty))) empty))
      end)

abbrev pub eve_settings : Entries → Entries
eve_settings eve = set "types" alert_types (
    set "filename" (str "eve.json")
      (set "filetype" (str "regular") (set "enabled" (bool true) eve)))

-- `out[name]` with a change of the mapping there.
unfoldable pub change : String → (Entries → Entries) → Entries → Gen Entries
change name f out = do v ← fetch name out; d ← as_dict v; made (set name (dict (f d)) out)

abbrev pub disabled : Entries → Entries
disabled = set "enabled" (bool false)

unfoldable pub output : Entries → Gen Entries
output out =
    if has "eve-log" out
    then change "eve-log" eve_settings out
    else if has "fast" out
    then change "fast" disabled out
    else if has "stats" out
    then change "stats" disabled out
    else made out

abbrev pub mentions : String → String → Bool
mentions t part = elim (find? t part) [ none ↦ false | some _ ↦ true ]

-- `name in xs` of a list.
unfoldable pub lists : String → Values → Bool
lists name end = false
lists name (item (str t) vs) = str_eq t name || lists name vs
lists name (item v vs) = lists name vs

abbrev pub names_output : String → Bool
names_output t = mentions t "eve-log" || mentions t "fast" || mentions t "stats"

unfoldable pub any_key : (String → Bool) → Entries → Bool
any_key p empty = false
any_key p (entry k v d) = p k || any_key p d

-- An output that is no mapping: `in` means another thing there, and indexing by a name fails.
unfoldable pub other_output : Value → Gen Value
other_output (str t) = if names_output t then stopped exception else made (str t)
other_output (seq vs) =
    if lists "eve-log" vs || lists "fast" vs || lists "stats" vs
    then stopped exception
    else made (seq vs)
other_output _ = stopped exception

unfoldable pub output_value : Value → Gen Value
output_value (dict out) = do d ← output out; made (dict d)
output_value v = other_output v

unfoldable pub outputs : Values → Gen Values
outputs end = made end
outputs (item v vs) = do v' ← output_value v; vs' ← outputs vs; made (item v' vs')

-- What `for out in cfg["outputs"]` goes through: iterating over a mapping or a text gives texts.
unfoldable pub set_outputs : Value → Gen Value
set_outputs (seq vs) = do vs' ← outputs vs; made (seq vs')
set_outputs (dict d) = if any_key names_output d then stopped exception else made (dict d)
set_outputs (str t) = made (str t)
set_outputs _ = stopped exception

-- `cfg.setdefault(name, {})[key] = True`
unfoldable pub switch_on : String → String → Entries → Gen Entries
switch_on name key cfg = do
  d ← as_dict (get_or (dict empty) name cfg)
  made (set name (dict (set key (bool true) d)) cfg)

-- The overlay of the parameters on the parsed stock file.
unfoldable pub overlay : Entries → Entries → Gen Entries
overlay h cfg = do
  check_required (required h) h
  home_net ← fetch "home_net" h
  cfg1 ← set_home_net home_net cfg
  ifaces ← interfaces h
  afp ← captures [] ifaces
  management ← fetch "management_cpus" h
  worker ← fetch "worker_cpus" h
  let cfg2 =
      set "runmode" (str "workers")
        (set "threading" (threading management worker) (set "af-packet" (seq afp) cfg1))
  outs ← fetch "outputs" cfg2
  outs' ← set_outputs outs
  cfg3 ← switch_on "stream" "bypass" (set "outputs" outs' cfg2)
  switch_on "unix-command" "enabled" cfg3

-- What is written: the header, and the configuration that `yaml.safe_dump` prints below it.
unfoldable pub generate : String → Option String → Entries → Value → Gen (List String × Entries)
generate params_path sidecar h stock = do
  version ← stock_version sidecar
  cfg ← as_dict stock
  out ← overlay h cfg
  made (header_lines params_path version, out)
