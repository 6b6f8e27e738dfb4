-- ===== src/Metrics/Render/Samples.antt =====
-- The samples that src/metrics.rs exposes: each series with the counter, gauge or setting it shows.
use Prim.Native.String.{◌++◌}
use mathlib.Core.List
use psst_rs.Prelude.{String, List, [], ◌∷◌}
use psst_rs.Prelude.Int.{pos_part}
use psst_rs.Prelude.Text.{codes}
use psst_rs.Config.{AppConfig}
use psst_rs.Metrics.{AppMetrics}
use psst_rs.Metrics.Render.{u64_from}
use psst_rs.Metrics.Render.Scrape.{Sample}

abbrev pub info_samples : String → String → List Sample
info_samples version commit =
    (codes ("psst_build_info{version=\"" ++ (version ++ ("\",commit=\"" ++ (commit ++ "\"}")))), 1)
    ∷ []

abbrev pub secret_samples : AppMetrics → List Sample
secret_samples m =
    (codes "psst_secrets_created_total", m.secrets_created)
    ∷ (codes "psst_secrets_read_total", m.secrets_read)
    ∷ (codes "psst_secrets_expired_total", m.secrets_expired)
    ∷ (codes "psst_secrets_deleted_total", m.secrets_deleted)
    ∷ (codes "psst_abuse_reports_total", m.abuse_reports)
    ∷ []

abbrev pub rejected_samples : AppMetrics → List Sample
rejected_samples m =
    (codes "psst_create_rejected_total{reason=\"too_large\"}", m.create_rejected_too_large)
    ∷ (codes "psst_create_rejected_total{reason=\"invalid_ttl\"}", m.create_rejected_invalid_ttl)
    ∷ (
      codes "psst_create_rejected_total{reason=\"turnstile_failed\"}",
      m.create_rejected_turnstile_failed,
    )
    ∷ (codes "psst_create_rejected_total{reason=\"rate_limited\"}", m.create_rejected_rate_limited)
    ∷ (
      codes "psst_create_rejected_total{reason=\"storage_limit\"}",
      m.create_rejected_storage_limit,
    )
    ∷ (
      codes "psst_create_rejected_total{reason=\"invalid_payload\"}",
      m.create_rejected_invalid_payload,
    )
    ∷ []

abbrev pub limited_samples : AppMetrics → List Sample
limited_samples m =
    (codes "psst_rate_limited_total{operation=\"create\"}", m.rate_limited_create)
    ∷ (codes "psst_rate_limited_total{operation=\"read\"}", m.rate_limited_read)
    ∷ (codes "psst_rate_limited_total{operation=\"report\"}", m.rate_limited_report)
    ∷ []

abbrev pub error_samples : AppMetrics → List Sample
error_samples m =
    (codes "psst_db_errors_total{operation=\"create\"}", m.db_errors_create)
    ∷ (codes "psst_db_errors_total{operation=\"read\"}", m.db_errors_read)
    ∷ (codes "psst_db_errors_total{operation=\"delete\"}", m.db_errors_delete)
    ∷ (codes "psst_db_errors_total{operation=\"purge\"}", m.db_errors_purge)
    ∷ (codes "psst_db_errors_total{operation=\"metrics\"}", m.db_errors_metrics)
    ∷ []

abbrev pub purge_samples : AppMetrics → List Sample
purge_samples m =
    (codes "psst_purge_runs_total", m.purge_runs)
    ∷ (codes "psst_purge_deleted_total", m.purge_deleted)
    ∷ []

abbrev pub gauge_samples : AppMetrics → List Sample
gauge_samples m =
    (codes "psst_active_secrets", pos_part m.active_secrets)
    ∷ (codes "psst_storage_bytes", pos_part m.storage_bytes)
    ∷ []

abbrev pub config_samples : AppConfig → List Sample
config_samples config =
    (codes "psst_config_max_secret_bytes", config.max_secret_bytes)
    ∷ (codes "psst_config_max_ttl_seconds", config.max_ttl_seconds)
    ∷ (codes "psst_config_create_enabled", u64_from config.enable_create)
    ∷ []

-- All of them, in order. A gauge below zero is shown as zero.
abbrev pub exposed : String → String → AppMetrics → AppConfig → List Sample
exposed version commit m config = List.◌++◌ (info_samples version commit) (
    List.◌++◌ (secret_samples m) (
      List.◌++◌ (rejected_samples m) (
        List.◌++◌ (limited_samples m) (
          List.◌++◌ (error_samples m)
            (List.◌++◌ (purge_samples m) (List.◌++◌ (gauge_samples m) (config_samples config)))))))
