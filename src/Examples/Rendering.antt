-- ===== src/Examples/Rendering.antt =====
-- The theorem on the text of src/metrics.rs, at a build and a configuration.
use psst_rs.Prelude.{String, ◌≡◌, Option, none, some, arith}
use psst_rs.Prelude.Text.{codes}
use psst_rs.Metrics.{zeroed}
use psst_rs.Metrics.Render.{render}
use psst_rs.Metrics.Render.Scrape.{scrape}
use psst_rs.Metrics.Render.Samples.{exposed}
use psst_rs.Metrics.Render.RoundTrip.{scrape-render}
use psst_rs.Examples.Data.{config}

abbrev build_version : Option String
build_version = some "0.3.1"

scrape-render_example :
    scrape (codes (render build_version none "0.1.0" zeroed config))
    ≡ some (exposed "0.3.1" "unknown" zeroed config)
scrape-render_example =
    scrape-render build_version none "0.1.0" zeroed config (ground arith) (ground arith)
