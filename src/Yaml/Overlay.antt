-- ===== src/Yaml/Overlay.antt =====
-- What the overlay of build/mkyaml.py sets, and what it leaves as in the stock configuration.
use nodeguard.Prelude.{
  ◌≡◌, refl, ap, ◌∙◌, String, true, false, Option, none, some, List, [], ◌∷◌, str_eq, str_eq_iff,
  if◌then◌else◌, any, arith, Option-cases, inl, inr,
}
use nodeguard.Yaml.Value.{
  Value, Values, Entries, bool, str, seq, dict, get, set, get-set, made, fetch, >>=-makes,
  made_path,
}
use nodeguard.Yaml.Generate.{set_home_net, interfaces, captures, threading, switch_on, overlay}
use nodeguard.Yaml.Captures.{ids_in, Distinct, captures-Distinct}

-- The configuration after all assignments.
abbrev pub assigned : Entries → Value → Value → Value → Value → Value → Value → Value → Entries
assigned cfg vars afp threads runmode outs stream unix = set "unix-command" unix (
    set "stream" stream (
      set "outputs" outs (
        set "runmode" runmode
          (set "threading" threads (set "af-packet" afp (set "vars" vars cfg))))))

-- How the result is composed.
pub record Shape (h cfg out : Entries) : Type 0 where
  pub home_net : Value
  pub management : Value
  pub worker : Value
  pub outs : Value
  pub vars : Entries
  pub groups : Entries
  pub stream : Entries
  pub unix : Entries
  pub ifaces : Values
  pub afp : Values
  pub is_home_net : get "home_net" h ≡ some home_net
  pub is_afp : captures [] ifaces ≡ made afp
  pub is_ifaces : interfaces h ≡ made ifaces
  pub is_out :
      out
      ≡ assigned cfg
          (dict (set "address-groups" (dict (set "HOME_NET" home_net groups)) vars))
          (seq afp)
          (threading management worker)
          (str "workers")
          outs
          (dict (set "bypass" (bool true) stream))
          (dict (set "enabled" (bool true) unix))

fetch-made : (k : String) (d : Entries) (v : Value) → fetch k d ≡ made v → get k d ≡ some v
unfolding fetch
fetch-made k d v e = elim (Option-cases (get k d)) [
  | inl n ↦ ground (arith, n, e)
  | inr (w, y) ↦ ground (arith, y, e)
]

home_net-shape :
    (v : Value) (cfg out : Entries)
    → set_home_net v cfg ≡ made out
    → (vars : Entries) × (groups : Entries) × (out
        ≡ set "vars" (dict (set "address-groups" (dict (set "HOME_NET" v groups)) vars)) cfg)
unfolding set_home_net
home_net-shape v cfg = >>=-makes Q _ _ λ _ _. >>=-makes Q _ _ λ vars _.
    >>=-makes Q _ _
      λ _ _. >>=-makes Q _ _ λ groups _ out e. made_path Q _ out e (vars, groups, refl)
  where
    Q : Entries → Type 0
    Q out =
        (vars : Entries) × (groups : Entries) × (out
          ≡ set "vars" (dict (set "address-groups" (dict (set "HOME_NET" v groups)) vars)) cfg)

switch_on-shape :
    (name key : String) (cfg out : Entries)
    → switch_on name key cfg ≡ made out
    → (d : Entries) × (out ≡ set name (dict (set key (bool true) d)) cfg)
unfolding switch_on
switch_on-shape name key cfg = >>=-makes Q _ _ λ d _ out e. made_path Q _ out e (d, refl)
  where
    Q : Entries → Type 0
    Q out = (d : Entries) × (out ≡ set name (dict (set key (bool true) d)) cfg)

overlay-Shape : (h cfg out : Entries) → overlay h cfg ≡ made out → Shape h cfg out
unfolding overlay
overlay-Shape h cfg = >>=-makes (Shape h cfg) _ _ λ _ _.
    >>=-makes (Shape h cfg) _ _ λ home_net is_home. >>=-makes (Shape h cfg) _ _ λ cfg1 is_cfg1.
      >>=-makes (Shape h cfg) _ _ λ ifaces is_ifaces. >>=-makes (Shape h cfg) _ _ λ afp is_afp.
        >>=-makes (Shape h cfg) _ _ λ management _. >>=-makes (Shape h cfg) _ _ λ worker _.
          >>=-makes (Shape h cfg) _ _ λ _ _. >>=-makes (Shape h cfg) _ _ λ outs _.
            >>=-makes (Shape h cfg) _ _ λ cfg3 is_cfg3 out is_out.
              let (vars, groups, v) = home_net-shape home_net cfg cfg1 is_cfg1 in
              let (stream, s) = switch_on-shape "stream" "bypass" _ cfg3 is_cfg3 in
              let (unix, u) = switch_on-shape "unix-command" "enabled" cfg3 out is_out in
              record {
                home_net = home_net;
                management = management;
                worker = worker;
                outs = outs;
                vars = vars;
                groups = groups;
                stream = stream;
                unix = unix;
                ifaces = ifaces;
                afp = afp;
                is_home_net = fetch-made "home_net" h home_net is_home;
                is_afp = is_afp;
                is_ifaces = is_ifaces;
                is_out =
                    u
                    ∙ ap (set "unix-command" (dict (set "enabled" (bool true) unix))) (
                        s
                        ∙ ap
                            (λ c. set "stream" (dict (set "bypass" (bool true) stream)) (
                              set "outputs" outs (
                                set "runmode" (str "workers") (
                                  set "threading" (threading management worker)
                                    (set "af-packet" (seq afp) c)))))
                            v);
              }

-- The value at the end of a chain of keys.
pub at : List String → Value → Option Value
at [] v = some v
at (k ∷ ks) (dict d) = elim (get k d) [ none ↦ none | some v ↦ at ks v ]
at (k ∷ ks) _ = none

-- What a generated configuration promises of the sensor it runs.
pub record Promised (h out : Entries) : Type 0 where
  pub afp : Values
  pub home_net : Value
  pub is_home_net : get "home_net" h ≡ some home_net
  pub has_home_net : at ("vars" ∷ "address-groups" ∷ "HOME_NET" ∷ []) (dict out) ≡ some home_net
  pub has_captures : at ("af-packet" ∷ []) (dict out) ≡ some (seq afp)
  pub is_distinct : Distinct (ids_in afp)
  pub is_workers : at ("runmode" ∷ []) (dict out) ≡ some (str "workers")
  pub is_exclusive :
      at ("threading" ∷ "cpu-affinity" ∷ "worker-cpu-set" ∷ "mode" ∷ []) (dict out)
      ≡ some (str "exclusive")
  pub has_bypass : at ("stream" ∷ "bypass" ∷ []) (dict out) ≡ some (bool true)
  pub has_command : at ("unix-command" ∷ "enabled" ∷ []) (dict out) ≡ some (bool true)

at-here :
    (k : String) (ks : List String) (d : Entries) (v : Value) (w : Option Value)
    → get k d ≡ some v
    → at ks v ≡ w
    → at (k ∷ ks) (dict d) ≡ w
unfolding at
at-here k ks d v w e f = ap (λ o. elim o [ none ↦ none | some u ↦ at ks u ]) e ∙ f

at-one : (k : String) (d : Entries) (v : Value) → get k d ≡ some v → at (k ∷ []) (dict d) ≡ some v
unfolding at
at-one k d v e = at-here k [] d v (some v) e refl

at-mode :
    (management worker : Value)
    → at ("cpu-affinity" ∷ "worker-cpu-set" ∷ "mode" ∷ []) (threading management worker)
      ≡ some (str "exclusive")
unfolding at get threading
at-mode management worker = refl

-- Assignments, the last one first.
abbrev puts : List (String × Value) → Entries → Entries
puts [] d = d
puts ((k, v) ∷ kvs) d = set k v (puts kvs d)

abbrev put_value : String → List (String × Value) → Option Value → Option Value
put_value j [] o = o
put_value j ((k, v) ∷ kvs) o = let rest = put_value j kvs o in if str_eq k j then some v else rest

get-puts :
    (j : String) (kvs : List (String × Value)) (d : Entries)
    → get j (puts kvs d) ≡ put_value j kvs (get j d)
get-puts j [] d = refl
get-puts j ((k, v) ∷ kvs) d =
    get-set k j v (puts kvs d) ∙ ap (λ o. if str_eq k j then some v else o) (get-puts j kvs d)

get-set-same : (k : String) (v : Value) (d : Entries) → get k (set k v d) ≡ some v
get-set-same k v d = ground (arith, get-set k k v d, str_eq_iff k k)

module _ (cfg : Entries) (vars afp threads runmode outs stream unix : Value) where
  abbrev written : List (String × Value)
  written =
      ("unix-command", unix)
      ∷ ("stream", stream)
      ∷ ("outputs", outs)
      ∷ ("runmode", runmode)
      ∷ ("threading", threads)
      ∷ ("af-packet", afp)
      ∷ ("vars", vars)
      ∷ []

  get-assigned :
      (k : String)
      → get k (assigned cfg vars afp threads runmode outs stream unix)
        ≡ put_value k written (get k cfg)
  get-assigned k = get-puts k written cfg

-- The keys that the overlay assigns.
abbrev pub overlaid : List String
overlaid =
    "unix-command" ∷ "stream" ∷ "outputs" ∷ "runmode" ∷ "threading" ∷ "af-packet" ∷ "vars" ∷ []

put_value-other :
    (k : String) (kvs : List (String × Value)) (o : Option Value)
    → any (λ kv. str_eq kv.0 k) kvs ≡ false
    → put_value k kvs o ≡ o
put_value-other k [] o n = refl
put_value-other k ((j, v) ∷ kvs) o n = ground (arith, n, put_value-other k kvs o)

module _ (h cfg out : Entries) (s : Shape h cfg out) where
  get-out :
      (k : String)
      → get k out
        ≡ put_value k
            (written cfg
              (dict (set "address-groups" (dict (set "HOME_NET" s.home_net s.groups)) s.vars))
              (seq s.afp)
              (threading s.management s.worker)
              (str "workers")
              s.outs
              (dict (set "bypass" (bool true) s.stream))
              (dict (set "enabled" (bool true) s.unix)))
            (get k cfg)
  get-out k = ap (get k) s.is_out ∙ get-assigned cfg _ _ _ _ _ _ _ k

  else_kept : (k : String) → any (λ j. str_eq j k) overlaid ≡ false → get k out ≡ get k cfg
  else_kept k n = get-out k ∙ put_value-other k (written cfg _ _ _ _ _ _ _) (get k cfg) n

  promised : Promised h out
  promised = record {
    afp = s.afp;
    home_net = s.home_net;
    is_home_net = s.is_home_net;
    has_home_net = at-here _ _ out _ _ (get-out "vars") (
        at-here _ _ _ _ _ (get-set-same "address-groups" _ s.vars)
          (at-one _ _ _ (get-set-same "HOME_NET" _ s.groups)));
    has_captures = at-one _ out _ (get-out "af-packet");
    is_distinct = captures-Distinct s.ifaces s.afp s.is_afp;
    is_workers = at-one _ out _ (get-out "runmode");
    is_exclusive = at-here _ _ out _ _ (get-out "threading") (at-mode s.management s.worker);
    has_bypass =
        at-here _ _ out _ _ (get-out "stream") (at-one _ _ _ (get-set-same "bypass" _ s.stream));
    has_command =
        at-here _ _ out _ _ (get-out "unix-command")
          (at-one _ _ _ (get-set-same "enabled" _ s.unix));
  }

-- If the overlay of the parameters h on a stock configuration is made, then in the result HOME_NET is the
-- home_net of h, af-packet is a list of captures no two of which have one cluster id, the run mode is
-- workers, the worker threads are exclusive, and stream.bypass and unix-command.enabled are true.
pub overlay-Promised : (h cfg out : Entries) → overlay h cfg ≡ made out → Promised h out
overlay-Promised h cfg out e = promised h cfg out (overlay-Shape h cfg out e)

-- If the overlay is made, every key that it does not assign has the value of the stock configuration.
pub overlay-frame :
    (h cfg out : Entries) (k : String)
    → overlay h cfg ≡ made out
    → any (λ j. str_eq j k) overlaid ≡ false
    → get k out ≡ get k cfg
overlay-frame h cfg out k e n = else_kept h cfg out (overlay-Shape h cfg out e) k n
