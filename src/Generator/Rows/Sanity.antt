-- ===== src/Generator/Rows/Sanity.antt =====
-- Rows of `build_rows` of zbx/gen-template.py: the sanity counters, from a table of their own.
use Prim.Native.String.{◌++◌ as ◌<>◌}
use nodeguard.Prelude.{ℕ, String, List, [], ◌∷◌}
use nodeguard.Prelude.Decimal.{decimal}
use nodeguard.Generator.Table.{Row, row, rate_twin, trig, ref}

-- An entry of `stats2`, with its floor of `stats2_floor`.
pub record Counter : Type 0 where
  pub field : String
  pub label : String
  pub desc : String
  pub floor : ℕ

unfoldable pub stats2 : List Counter
stats2 =
    record {
      field = "tcp_synfin";
      label = "TCP SYN+FIN";
      desc =
          ("SYN and FIN set together; classic scanner fingerprint, counted "
            <> "statelessly before any verdict");
      floor = 100;
    }
    ∷ record {
      field = "tcp_synrst";
      label = "TCP SYN+RST";
      desc = "SYN and RST set together; impossible combination, counted statelessly";
      floor = 100;
    }
    ∷ record {
      field = "tcp_null";
      label = "TCP NULL";
      desc = "no TCP flags set; NULL scan fingerprint, counted statelessly";
      floor = 100;
    }
    ∷ record {
      field = "tcp_xmas";
      label = "TCP XMAS";
      desc = ("FIN, PSH, and URG set together; XMAS scan fingerprint, counted " <> "statelessly");
      floor = 100;
    }
    ∷ record {
      field = "ttl_low";
      label = "low TTL";
      desc =
          ("TTL or hop limit below the build-time floor (default 5); traceroute "
            <> "noise or evasion probing");
      floor = 1000;
    }
    ∷ record {
      field = "frag_v4";
      label = "IPv4 fragment";
      desc = "IPv4 packets with a nonzero fragment offset";
      floor = 1000;
    }
    ∷ record {
      field = "frag_v6";
      label = "IPv6 fragment";
      desc = "IPv6 packets carrying a fragment header";
      floor = 1000;
    }
    ∷ []

-- The loop over `stats2`: the cumulative row and its twin with the floor.
unfoldable pub counter_rows : List Counter → List Row
counter_rows [] = []
counter_rows (c ∷ cs) =
    let field = c.field in
    let label = c.label in
    let desc = c.desc in
    let floor = decimal c.floor in
    (row field ("nodeguard " <> label <> " packets") "UNSIGNED" (desc <> " (cumulative)"))
    ∷ (record (rate_twin field ("nodeguard " <> label <> " rate") (desc <> " (per second)")) {
      triggers =
          ((trig ("nodeguard " <> label <> " rate above static floor on {HOST.NAME}")
              ("min(" <> (ref (field <> ".rate")) <> ",5m)>" <> floor) "INFO"
              ("Generous static rate floor, the sanity counters' first alerting "
                <> "layer per design section 6; placeholder value retuned from phase 5 "
                <> "shadow data (tasks.md 5.4). A baselinedev variant is added only "
                <> "after a demonstrated quiet baseline."))
            ∷ []);
    })
    ∷ counter_rows cs
