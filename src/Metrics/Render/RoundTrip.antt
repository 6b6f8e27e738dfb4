-- ===== src/Metrics/Render/RoundTrip.antt =====
-- The text of src/metrics.rs is read back by a scraper.
use Prim.Native.String.{◌++◌}
use mathlib.Core.List
use psst_rs.Prelude.{ℕ, String, ◌≡◌, refl, sym, subst, ap, ◌∙◌, Option, some, List, [], ◌∷◌, All}
use psst_rs.Prelude.Text.{codes, codes-append}
use psst_rs.Config.{AppConfig}
use psst_rs.Metrics.{AppMetrics}
use psst_rs.Metrics.Render.{
  ◌>>>◌, write_build_info, write_secret_counters, write_create_rejected, write_rate_limited,
  write_db_errors, write_purge_counters, write_secret_gauges, write_config_gauges, version, commit,
  render,
}
use psst_rs.Metrics.Render.Samples.{info_samples, exposed}
use psst_rs.Metrics.Render.Scrape.{
  start, next, ended, run, samples_of, reads, scrape, Reads, Reads-append, scrape-Reads,
}
use psst_rs.Metrics.Render.Writers.{Writes, Writes-◌>>>◌, Writes-writeln}
use psst_rs.Metrics.Render.Lines.{
  Writes-write_secret_counters, Writes-write_create_rejected, Writes-write_rate_limited,
  Writes-write_db_errors, Writes-write_purge_counters, Writes-write_secret_gauges,
  Writes-write_config_gauges,
}
use psst_rs.Metrics.Render.Labels.{IsLabel, Reads-label, between, closing}

module _ (version commit : String) where
  abbrev series : List ℕ
  series =
      List.◌++◌
        (List.◌++◌ (List.◌++◌ (codes "psst_build_info{version=\"") (codes version))
          (codes "\",commit=\""))
        (codes commit)

  info_line : String
  info_line = "psst_build_info{version=\"" ++ (version ++ ("\",commit=\"" ++ (commit ++ "\"} 1")))

  abbrev pieces : List ℕ
  pieces = List.◌++◌ (codes "psst_build_info{version=\"") (
      List.◌++◌ (codes version)
        (List.◌++◌ (codes "\",commit=\"") (List.◌++◌ (codes commit) (codes "\"} 1\n"))))

  flat : List.◌++◌ (codes info_line) (10 ∷ []) ≡ pieces
  unfolding info_line
  flat = simp (codes-append, List.append_assoc)

  labelled :
      List.◌++◌ series (codes "\"}")
      ≡ codes ("psst_build_info{version=\"" ++ (version ++ ("\",commit=\"" ++ (commit ++ "\"}"))))
  labelled = simp (codes-append, List.append_assoc)

  Reads-info_line :
      All IsLabel (codes version)
      → All IsLabel (codes commit)
      → Reads start (List.◌++◌ (codes info_line) (10 ∷ [])) (info_samples version commit) start
  unfolding run samples_of next ended
  Reads-info_line hv hc =
      subst (λ s. Reads start s (info_samples version commit) start) (sym flat)
        (subst (λ name. Reads start pieces ((name, 1) ∷ []) start) labelled
          (Reads-append (codes "psst_build_info{version=\"") _ (reads refl) (
            Reads-append (codes version) _ (Reads-label _ (codes version) hv) (
              Reads-append (codes "\",commit=\"") _ (between _) (
                Reads-append (codes commit) _ (Reads-label _ (codes commit) hc)
                  (closing series))))))

  Writes-write_build_info :
      All IsLabel (codes version)
      → All IsLabel (codes commit)
      → Writes (write_build_info version commit) (info_samples version commit)
  unfolding write_build_info info_line run samples_of next ended
  Writes-write_build_info hv hc =
      Writes-◌>>>◌ _ _
        (Writes-◌>>>◌ _ _ (Writes-writeln "# HELP psst_build_info Build information." (reads refl))
          (Writes-writeln "# TYPE psst_build_info gauge" (reads refl)))
        (Writes-writeln info_line (Reads-info_line hv hc))

module _ (build_version build_commit : Option String) (package_version : String) where
  -- As long as neither the version nor the commit has a quote, a backslash or a line break, a scraper
  -- reads the rendered text to its end, and it gets every counter, gauge and setting under its own
  -- series, with the value that it has, a gauge below zero as zero.
  pub scrape-render :
      (m : AppMetrics) (config : AppConfig)
      → All IsLabel (codes (version build_version build_commit package_version))
      → All IsLabel (codes (commit build_version build_commit package_version))
      → scrape (codes (render build_version build_commit package_version m config))
        ≡ some (
            exposed
              (version build_version build_commit package_version)
              (commit build_version build_commit package_version)
              m
              config)
  unfolding render
  scrape-render m config hv hc = ap scrape (all.adds "") ∙ scrape-Reads all.text _ all.reads
    where
      v : String
      v = version build_version build_commit package_version

      c : String
      c = commit build_version build_commit package_version

      all :
          Writes
            (write_build_info v c
              >>> write_secret_counters m
              >>> write_create_rejected m
              >>> write_rate_limited m
              >>> write_db_errors m
              >>> write_purge_counters m
              >>> write_secret_gauges m
              >>> write_config_gauges config)
            (exposed v c m config)
      all =
          Writes-◌>>>◌ _ _
            (Writes-◌>>>◌ _ _
              (Writes-◌>>>◌ _ _
                (Writes-◌>>>◌ _ _
                  (Writes-◌>>>◌ _ _
                    (Writes-◌>>>◌ _ _
                      (Writes-◌>>>◌ _ _ (Writes-write_build_info v c hv hc)
                        (Writes-write_secret_counters m))
                      (Writes-write_create_rejected m))
                    (Writes-write_rate_limited m))
                  (Writes-write_db_errors m))
                (Writes-write_purge_counters m))
              (Writes-write_secret_gauges m))
            (Writes-write_config_gauges config)
