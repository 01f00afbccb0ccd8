-- ===== src/Lib.antt =====
-- nodeguard: an XDP firewall with Suricata wiring for small gateways.
--
-- The program is a set of tools round pinned BPF maps that an XDP program (src/nodeguard_kern.c)
-- reads for each packet. bin/ngmap.py is the one place that encodes, decodes and changes the maps;
-- the other tools shell into it or import it.
--
-- Files:
--   Prelude and below: library names passed on, Boolean tests, lists, powers of two.
--   Net: addresses and networks of Python's `ipaddress` as numbers. Net/Ranges reads membership and
--     containment as orders, Net/Nesting shows that two networks are nested or disjoint.
--   Ngmap/Pack, Ngmap/Hex, Ngmap/Keys: `struct` formats, hex tokens of bpftool and the LPM keys of
--     bin/ngmap.py (`key_bytes`, `decode_key`, `bytes_to_args`, `args_to_bytes`).
--   Ngmap/Protect: NEVER_BLOCK, `contains_protected`, `is_protected`.
--   Ngmap/Exec: Python's exceptions and `die` as a result beside the host's state, with rules for
--     postconditions (Exec/Ensures), for relations that a run respects (Exec/Respects) and for
--     taking a successful run apart (Exec/Inversion).
--   Ngmap/Host: what the tool asks of the host, as a parameter with laws: `bpftool`, the clock, the
--     lock, the file system, Python's parser of addresses.
--   Ngmap/Maps, Ngmap/Live: `bpftool` to `delete_key`, and the operations over whole maps.
--   Ngmap/Block: `cmd_block` and `cmd_unblock`.
--   Ngmap/Sweep: `cmd_sweep` with `_spec_max_entries`; Sweep/Tally is about its counts, Sweep/Ranking
--     about its leaderboard.
--   Ngmap/Report: `cmd_list`, `cmd_flush`, `cmd_stats`, `cmd_stats2`, `_percpu_totals`,
--     `cmd_get_config`, `cmd_set_config` (Report/Config), `cmd_allow_dump`.
--   Ngmap/Allow: `cmd_allow_check` (Allow/Check) and `cmd_reconcile_allow`: Allow/Install is
--     about its loop of updates, Allow/Removal about its loop of deletions, Allow/Reading about what it
--     reads, Allow/Wanted about what it wants, Allow/Reconcile about what it leaves in an allow map, and
--     Allow/Whole about the map and the lists of networks.
--   Ngmap/Create: `cmd_create_maps`.
--   Prelude/Dict: a Python dict as an association list in insertion order.
--   Responder/State: configuration, journal (`save`, `flush`, `prune`, `expire_windows`, `_rec`,
--     `sighting`, `offense`, the constructor as `load`), allow cache and telemetry of
--     bin/nodeguard-responder.
--   Responder/Handler: `handle_event`, split where its sections are: `count_alert`, `screen`,
--     `on_addresses`, `on_protected`, `attempt`, `age`, `suppress`, `account`, `act`.
--   Responder/Gates: what an attempt passed. Responder/Rates and Responder/Window: the rate caps,
--     by a step relation. Responder/Offenses, Responder/Escalation, Responder/Repeat: the journal,
--     by a step relation. Responder/Boot: the journal over a restart. Responder/Loop: `run_loop` with
--     its housekeeping, and the shutdown of `main`. Responder/Rehearsal: dry-run beside enforcement.
--   Template and below: zbx/check_template.py. Template/Export: the template's data and its walks.
--     Template/Checker: the tally. Template/Names, Template/Uuids, Template/Sanctions,
--     Template/Surface, Template/Regexes: the five checks. Template/Removals: the file of removals.
--     Template/Main: `main`.
--   Yaml and below: build/mkyaml.py. Yaml/Value: documents as PyYAML and `json` give them.
--     Yaml/Generate: the steps of `main` in their order, up to what is written. Yaml/Captures: the
--     cluster ids. Yaml/Overlay: the whole result.
--   Generator and below: zbx/gen-template.py. Generator/Table: `trig`, `row`, `rate_twin` and the names.
--     Generator/Rows and below: `build_rows`, a file for each part of the table. Generator/Discovery:
--     `build_multi_item_triggers`, `build_discovery_rule`. Generator/Uuid: `load_uuid_maps`,
--     `make_uuid`. Generator/Render: `render` and its parts. Generator/Main: `main`. Generator/Reread:
--     the rendered export as zbx/check_template.py reads it; Generator/Lookup, Generator/Made,
--     Generator/Scoped and Generator/Carry are about the uuids that the checker then finds,
--     Generator/Same and Generator/Again about a second rendering, Generator/Wiring about names and
--     references, Generator/Surface about the keys, Generator/Minted about the minted uuids.
--   Dashboard and below: zbx/lib.py and zbx/dashboards.py. Dashboard/Widget: fields and widgets.
--     Dashboard/Builders: the builders, `itemvalue` to `url_widget`. Dashboard/Grid:
--     `split_columns`, `host_color`, `RefSeq`. Dashboard/Fleet: `Api.call` from the answer on,
--     `resolve_group`, `resolve_items`, `resolve_itemids`, before them the constructor of `Api`;
--     Fleet/Items is about the ids. Dashboard/Sizes: `desc_size_for`, `value_size_for`,
--     `header_chars`. Dashboard/Canvas: `Ctx` and what the builders add to. Dashboard/Tiles: the
--     colour rules, `rendered_chars` to `leaderboard`. Dashboard/Boards: `build_overview`,
--     `build_security`, `build_capacity`; Dashboard/Fits, Dashboard/Within and Dashboard/Laid
--     are about the places of the widgets and the warnings. Dashboard/Plans: BUILDERS and the
--     plans. Dashboard/Apply: `print_plan` to `main`; Dashboard/Reads is about the requests
--     without confirm, Dashboard/Upsert about those of `apply_dashboards`.
--   Prelude/Decimal: `str` of a number. Prelude/Text: the methods of Python's `str` that the tools use.
--   Tests: a concrete host that meets the laws, runs, and instances of the theorems.
--
-- Every function of ngmap.py has the name of the source. A state-changing function is a function
-- from the host's state to a result (a value, or an exception) and the new state. Time passes and
-- other processes act where the host's operations let them: `lock` has no law, so nothing is
-- assumed of what happened before the lock was granted; between two calls under the lock only the
-- calls change the maps, and the kernel's own counting of hits in that time is left out. Printed
-- text is returned as data. Texts of addresses are parsed by the host. All loops are over lists but
-- that of the decimals of a number, whose fuel is the number itself: it has no more digits than that.
--
-- The responder's events are typed: each field has the type that Suricata gives it, and the default
-- of the source's `get` if it is absent; what `eve_lag` makes of the timestamp is part of the event.
-- Its times are ticks of a microsecond. Each reading of the clock in one call has its own number.
-- The text that it logs is the outcome of the event. Every write of its files succeeds: an OSError of
-- `save` is not modelled, nor the handler of `run_loop` that swallows it.
--
-- The numbers of a map spec, a YAML document or a JSON document are natural, and two sections of a
-- document are never one object. The two time stamps of the sweep's statistics are left out, and its
-- files can be written. `re`, `int`, `str` of a network and `mkdir` are parameters, and so is
-- the digest of a host's name.
--
-- In zbx/gen-template.py `uuid5` and `json.dumps` are parameters, and a key that an object of the
-- export lacks is `none`. In zbx/lib.py floats are a parameter: their operations, and for each literal
-- the double nearest to it. A board builder is a function from what was drawn to a result and what is
-- drawn then, or to nothing where Python raises: a `next` of a used-up supply, an index out of range.
-- The answers of the monitoring API are given for each request, and a run logs the requests it makes
-- and the lines it prints, as data.
--
-- Not modelled: the responder's reading of its configuration, its tail of the log (the loop
-- takes what it yields) and exceptions that one event raises; argparse, shell scripts, deployment, and the tools named so in the manifest.
pub mod Prelude
pub mod Net
pub mod Ngmap
pub mod Responder
pub mod Template
pub mod Yaml
pub mod Dashboard
pub mod Generator
mod Tests
