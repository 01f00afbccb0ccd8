-- ===== src/Generator/Rows/Geography.antt =====
-- Rows of `build_rows` of zbx/gen-template.py: the sources.
use Prim.Native.String.{◌++◌ as ◌<>◌}
use nodeguard.Prelude.{some, List, [], ◌∷◌}
use nodeguard.Generator.Table.{Row, row, trig, ref}

unfoldable pub geography_rows : List Row
geography_rows =
    (row "geo_summary" "attacker geography summary" "CHAR" (
      "top attacker countries and hit counts (nodeguard-geo), e.g. NL:272 "
      <> "US:131; empty until the geoip index is installed"))
    ∷ (row "geo_sources_hitting" "attacker sources hitting" "UNSIGNED"
        "distinct blocked sources that have dropped a packet")
    ∷ (row "geo_located" "attacker sources geolocated" "UNSIGNED"
        "of the hitting sources, how many resolved to a country")
    ∷ (row "geo_countries" "attacker countries" "UNSIGNED"
        "distinct countries among the geolocated attacker sources")
    ∷ (record (row "geo_age" "attacker geography age" "UNSIGNED" (
        "seconds since the last SUCCESSFUL geo run; the run swallows its "
        <> "failures and exits zero, so nothing else distinguishes a live "
        <> "picture from a week-old one")) {
          units = some "s";
          triggers =
              ((trig "nodeguard attacker geography is stale on {HOST.NAME}"
                  ("last(" <> (ref "geo_age") <> ")>1800") "WARNING"
                  ("Six 5-minute timer periods without a successful run, generous "
                    <> "against timer jitter. Value-based, so it carries no dependency on "
                    <> "the frozen-kv trigger."))
                ∷ []);
        })
    ∷ (row "top_blocked_1" "top blocked source #1" "CHAR"
        "rank 1 blocked source by hits since the last sweep walk")
    ∷ (row "top_blocked_2" "top blocked source #2" "CHAR"
        "rank 2 blocked source by hits since the last sweep walk")
    ∷ (row "top_blocked_3" "top blocked source #3" "CHAR"
        "rank 3 blocked source by hits since the last sweep walk")
    ∷ (row "top_blocked_4" "top blocked source #4" "CHAR"
        "rank 4 blocked source by hits since the last sweep walk")
    ∷ (row "top_blocked_5" "top blocked source #5" "CHAR"
        "rank 5 blocked source by hits since the last sweep walk")
    ∷ (row "geo_country_1" "top attacker country #1" "CHAR"
        "rank 1 attacker country by dropped-packet volume")
    ∷ (row "geo_country_2" "top attacker country #2" "CHAR"
        "rank 2 attacker country by dropped-packet volume")
    ∷ (row "geo_country_3" "top attacker country #3" "CHAR"
        "rank 3 attacker country by dropped-packet volume")
    ∷ (row "geo_country_4" "top attacker country #4" "CHAR"
        "rank 4 attacker country by dropped-packet volume")
    ∷ (row "geo_country_5" "top attacker country #5" "CHAR"
        "rank 5 attacker country by dropped-packet volume")
    ∷ []
