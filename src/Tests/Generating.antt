-- ===== src/Tests/Generating.antt =====
-- A small configuration through the overlay of build/mkyaml.py, and instances of its theorems.
use nodeguard.Prelude.{◌≡◌, refl, String, true, false, []}
use nodeguard.Yaml.Value.{
  Value, Values, Entries, bool, num, str, seq, dict, end, item, empty, entry, get, set, made,
  stopped, missing_key, duplicate_cluster_id, fetch, as_dict, ◌>>=◌,
}
use nodeguard.Yaml.Generate.{
  get_or, check_required, set_home_net, interfaces, legacy_interface, id_of, capture, captures,
  threading, change, output, output_value, outputs, set_outputs, switch_on, overlay,
}
use nodeguard.Yaml.Captures.{ids_in, Distinct, captures-Distinct}
use nodeguard.Yaml.Overlay.{Promised, overlay-Promised, overlay-frame}

-- What a run of the overlay computes with.
runs : Unit {0}
unfolding get set fetch as_dict ◌>>=◌ get_or check_required set_home_net interfaces legacy_interface
    id_of capture captures threading change output output_value outputs set_outputs switch_on
    overlay
runs = tt

abbrev iface : String → Value → Entries
iface name cid =
    entry "iface" (str name)
      (entry "threads" (num 4) (entry "cluster_id" cid (entry "ring_size" (num 2048) empty)))

abbrev two : Values
two = item (dict (iface "eth0" (num 99))) (item (dict (iface "eth1" (num 98))) end)

abbrev afp_of : String → Value → Value
afp_of name cid = dict (
    entry "interface" (str name) (
      entry "threads" (num 4) (
        entry "cluster-id" cid (
          entry "cluster-type" (str "cluster_flow") (
            entry "defrag" (bool true)
              (entry "tpacket-v3" (bool true) (entry "ring-size" (num 2048) empty)))))))

abbrev two_captures : Values
two_captures = item (afp_of "eth0" (num 99)) (item (afp_of "eth1" (num 98)) end)

captured : captures [] two ≡ made two_captures
unfolding runs
captured = refl

captures-Distinct_example : Distinct (ids_in two_captures)
captures-Distinct_example = captures-Distinct two two_captures captured

-- The id of one interface, and the default of another: one fanout group.
shared_group :
    captures []
      (item (dict (iface "eth0" (num 99))) (item (dict (entry "iface" (str "eth1") empty)) end))
    ≡ stopped duplicate_cluster_id
unfolding runs
shared_group = refl

abbrev params : Entries
params = entry "home_net" (str "[192.0.2.0/24]") (
    entry "management_cpus" (seq (item (num 0) end))
      (entry "worker_cpus" (seq (item (num 1) end)) (entry "interfaces" (seq two) empty)))

abbrev stock : Entries
stock =
    entry "vars" (dict (entry "address-groups" (dict (entry "HOME_NET" (str "any") empty)) empty)) (
      entry "outputs" (seq (item (dict (entry "fast" (dict empty) empty)) end))
        (entry "default-log-dir" (str "/var/log/suricata/") empty))

abbrev result : Entries
result =
    entry "vars"
      (dict (entry "address-groups" (dict (entry "HOME_NET" (str "[192.0.2.0/24]") empty)) empty))
      (entry "outputs"
        (seq (item (dict (entry "fast" (dict (entry "enabled" (bool false) empty)) empty)) end))
        (entry "default-log-dir" (str "/var/log/suricata/") (
          entry "af-packet" (seq two_captures) (
            entry "threading" (threading (seq (item (num 0) end)) (seq (item (num 1) end))) (
              entry "runmode" (str "workers") (
                entry "stream" (dict (entry "bypass" (bool true) empty))
                  (entry "unix-command" (dict (entry "enabled" (bool true) empty)) empty)))))))

overlaid_stock : overlay params stock ≡ made result
unfolding runs
overlaid_stock = refl

overlay-Promised_example : Promised params result
overlay-Promised_example = overlay-Promised params stock result overlaid_stock

overlay-frame_example : get "default-log-dir" result ≡ get "default-log-dir" stock
overlay-frame_example = overlay-frame params stock result "default-log-dir" overlaid_stock refl

missing :
    overlay (entry "home_net" (str "any") empty) stock ≡ stopped (missing_key "management_cpus")
unfolding runs
missing = refl
