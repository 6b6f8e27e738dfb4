-- ===== src/Metrics/Render/Lines.antt =====
-- The parts of the text of src/metrics.rs, as a scraper reads them.
use psst_rs.Prelude.{refl}
use psst_rs.Prelude.Text.{codes}
use psst_rs.Config.{AppConfig}
use psst_rs.Metrics.{AppMetrics}
use psst_rs.Metrics.Render.{
  write_secret_counters, write_create_rejected, write_rate_limited, write_db_errors,
  write_purge_counters, write_secret_gauges, write_config_gauges, u64_from,
}
use psst_rs.Metrics.Render.Samples.{
  secret_samples, rejected_samples, limited_samples, error_samples, purge_samples, gauge_samples,
  config_samples,
}
use psst_rs.Metrics.Render.Scrape.{next, ended, run, samples_of, reads}
use psst_rs.Metrics.Render.Writers.{
  Writes, Writes-◌>>>◌, Writes-writeln, Writes-write_value, clean, Writes-write_counter,
  Writes-write_gauge, Writes-write_gauge_i64,
}

pub Writes-write_secret_counters :
    (m : AppMetrics) → Writes (write_secret_counters m) (secret_samples m)
unfolding write_secret_counters run samples_of next ended
Writes-write_secret_counters m =
    Writes-◌>>>◌ _ _
      (Writes-◌>>>◌ _ _
        (Writes-◌>>>◌ _ _
          (Writes-◌>>>◌ _ _
            (Writes-write_counter "psst_secrets_created_total" "Total secrets created."
              m.secrets_created (clean refl refl refl))
            (Writes-write_counter "psst_secrets_read_total" "Total secrets read." m.secrets_read
              (clean refl refl refl)))
          (Writes-write_counter "psst_secrets_expired_total"
            "Total secrets deleted by expiry maintenance." m.secrets_expired
            (clean refl refl refl)))
        (Writes-write_counter "psst_secrets_deleted_total" "Total secrets deleted by owner."
          m.secrets_deleted (clean refl refl refl)))
      (Writes-write_counter "psst_abuse_reports_total" "Total abuse reports submitted."
        m.abuse_reports (clean refl refl refl))

pub Writes-write_create_rejected :
    (m : AppMetrics) → Writes (write_create_rejected m) (rejected_samples m)
unfolding write_create_rejected run samples_of next ended
Writes-write_create_rejected m =
    Writes-◌>>>◌ _ _
      (Writes-◌>>>◌ _ _
        (Writes-◌>>>◌ _ _
          (Writes-◌>>>◌ _ _
            (Writes-◌>>>◌ _ _
              (Writes-◌>>>◌ _ _
                (Writes-◌>>>◌ _ _
                  (Writes-writeln
                    "# HELP psst_create_rejected_total Total create requests rejected by reason."
                    (reads refl))
                  (Writes-writeln "# TYPE psst_create_rejected_total counter" (reads refl)))
                (Writes-write_value "psst_create_rejected_total{reason=\"too_large\"} "
                  (codes "psst_create_rejected_total{reason=\"too_large\"}")
                  m.create_rejected_too_large (reads refl)))
              (Writes-write_value "psst_create_rejected_total{reason=\"invalid_ttl\"} "
                (codes "psst_create_rejected_total{reason=\"invalid_ttl\"}")
                m.create_rejected_invalid_ttl (reads refl)))
            (Writes-write_value "psst_create_rejected_total{reason=\"turnstile_failed\"} "
              (codes "psst_create_rejected_total{reason=\"turnstile_failed\"}")
              m.create_rejected_turnstile_failed (reads refl)))
          (Writes-write_value "psst_create_rejected_total{reason=\"rate_limited\"} "
            (codes "psst_create_rejected_total{reason=\"rate_limited\"}")
            m.create_rejected_rate_limited (reads refl)))
        (Writes-write_value "psst_create_rejected_total{reason=\"storage_limit\"} "
          (codes "psst_create_rejected_total{reason=\"storage_limit\"}")
          m.create_rejected_storage_limit (reads refl)))
      (Writes-write_value "psst_create_rejected_total{reason=\"invalid_payload\"} "
        (codes "psst_create_rejected_total{reason=\"invalid_payload\"}")
        m.create_rejected_invalid_payload (reads refl))

pub Writes-write_rate_limited : (m : AppMetrics) → Writes (write_rate_limited m) (limited_samples m)
unfolding write_rate_limited run samples_of next ended
Writes-write_rate_limited m =
    Writes-◌>>>◌ _ _
      (Writes-◌>>>◌ _ _
        (Writes-◌>>>◌ _ _
          (Writes-◌>>>◌ _ _
            (Writes-writeln
              "# HELP psst_rate_limited_total Total requests rejected by rate limiter."
              (reads refl))
            (Writes-writeln "# TYPE psst_rate_limited_total counter" (reads refl)))
          (Writes-write_value "psst_rate_limited_total{operation=\"create\"} "
            (codes "psst_rate_limited_total{operation=\"create\"}") m.rate_limited_create
            (reads refl)))
        (Writes-write_value "psst_rate_limited_total{operation=\"read\"} "
          (codes "psst_rate_limited_total{operation=\"read\"}") m.rate_limited_read (reads refl)))
      (Writes-write_value "psst_rate_limited_total{operation=\"report\"} "
        (codes "psst_rate_limited_total{operation=\"report\"}") m.rate_limited_report (reads refl))

pub Writes-write_db_errors : (m : AppMetrics) → Writes (write_db_errors m) (error_samples m)
unfolding write_db_errors run samples_of next ended
Writes-write_db_errors m =
    Writes-◌>>>◌ _ _
      (Writes-◌>>>◌ _ _
        (Writes-◌>>>◌ _ _
          (Writes-◌>>>◌ _ _
            (Writes-◌>>>◌ _ _
              (Writes-◌>>>◌ _ _
                (Writes-writeln "# HELP psst_db_errors_total Total database errors by operation."
                  (reads refl))
                (Writes-writeln "# TYPE psst_db_errors_total counter" (reads refl)))
              (Writes-write_value "psst_db_errors_total{operation=\"create\"} "
                (codes "psst_db_errors_total{operation=\"create\"}") m.db_errors_create
                (reads refl)))
            (Writes-write_value "psst_db_errors_total{operation=\"read\"} "
              (codes "psst_db_errors_total{operation=\"read\"}") m.db_errors_read (reads refl)))
          (Writes-write_value "psst_db_errors_total{operation=\"delete\"} "
            (codes "psst_db_errors_total{operation=\"delete\"}") m.db_errors_delete (reads refl)))
        (Writes-write_value "psst_db_errors_total{operation=\"purge\"} "
          (codes "psst_db_errors_total{operation=\"purge\"}") m.db_errors_purge (reads refl)))
      (Writes-write_value "psst_db_errors_total{operation=\"metrics\"} "
        (codes "psst_db_errors_total{operation=\"metrics\"}") m.db_errors_metrics (reads refl))

pub Writes-write_purge_counters :
    (m : AppMetrics) → Writes (write_purge_counters m) (purge_samples m)
unfolding write_purge_counters run samples_of next ended
Writes-write_purge_counters m =
    Writes-◌>>>◌ _ _
      (Writes-write_counter "psst_purge_runs_total" "Total maintenance purge runs." m.purge_runs
        (clean refl refl refl))
      (Writes-write_counter "psst_purge_deleted_total"
        "Total expired secrets deleted by purge runs." m.purge_deleted (clean refl refl refl))

pub Writes-write_secret_gauges : (m : AppMetrics) → Writes (write_secret_gauges m) (gauge_samples m)
unfolding write_secret_gauges run samples_of next ended
Writes-write_secret_gauges m =
    Writes-◌>>>◌ _ _
      (Writes-write_gauge_i64 "psst_active_secrets"
        "Number of currently active (unexpired, unconsumed) secrets." m.active_secrets
        (clean refl refl refl))
      (Writes-write_gauge_i64 "psst_storage_bytes" "Total storage bytes used by active secrets."
        m.storage_bytes (clean refl refl refl))

pub Writes-write_config_gauges :
    (config : AppConfig) → Writes (write_config_gauges config) (config_samples config)
unfolding write_config_gauges run samples_of next ended
Writes-write_config_gauges config =
    Writes-◌>>>◌ _ _
      (Writes-◌>>>◌ _ _
        (Writes-write_gauge "psst_config_max_secret_bytes"
          "Configured maximum secret size in bytes." config.max_secret_bytes (clean refl refl refl))
        (Writes-write_gauge "psst_config_max_ttl_seconds" "Configured maximum TTL in seconds."
          config.max_ttl_seconds (clean refl refl refl)))
      (Writes-write_gauge "psst_config_create_enabled"
        "Whether secret creation is enabled (1=yes, 0=no)." (u64_from config.enable_create)
        (clean refl refl refl))
