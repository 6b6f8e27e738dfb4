-- ===== src/Metrics/Render.antt =====
-- src/metrics.rs: the text of the metrics that Prometheus scrapes, `AppMetrics::render`.
pub mod Scrape
pub mod Samples
pub mod Writers
pub mod Lines
pub mod Labels
pub mod RoundTrip
use Prim.Native.String.{◌++◌}
use psst_rs.Prelude.{ℕ, String, Bool, true, false, Option, none, some}
use psst_rs.Prelude.Int.{ℤ, pos, max_ℤ}
use psst_rs.Prelude.Show.{show_u64, show_i64}
use psst_rs.Config.{AppConfig}
use psst_rs.Metrics.{AppMetrics}

-- One statement that writes to the buffer, and two in sequence.
abbrev pub Writer : Type 0
Writer = String → String

infixl 10 ◌>>>◌
abbrev pub ◌>>>◌ : Writer → Writer → Writer
(f >>> g) buf = g (f buf)

-- `writeln!(buf, …)`
unfoldable pub writeln : String → Writer
writeln text buf = buf ++ (text ++ "\n")

-- `writeln!(buf, "… {}", value)`
unfoldable pub write_value : String → ℕ → Writer
unfolding writeln
write_value text value = writeln (text ++ show_u64 value)

unfoldable pub write_counter : String → String → ℕ → Writer
unfolding writeln write_value
write_counter name help value =
    writeln ("# HELP " ++ (name ++ (" " ++ help)))
    >>> writeln ("# TYPE " ++ (name ++ " counter"))
    >>> write_value (name ++ " ") value

unfoldable pub write_gauge : String → String → ℕ → Writer
unfolding writeln write_value
write_gauge name help value =
    writeln ("# HELP " ++ (name ++ (" " ++ help)))
    >>> writeln ("# TYPE " ++ (name ++ " gauge"))
    >>> write_value (name ++ " ") value

unfoldable pub write_gauge_i64 : String → String → ℤ → Writer
unfolding writeln
write_gauge_i64 name help value =
    writeln ("# HELP " ++ (name ++ (" " ++ help)))
    >>> writeln ("# TYPE " ++ (name ++ " gauge"))
    >>> writeln ((name ++ " ") ++ show_i64 (max_ℤ value (pos 0)))

-- `u64::from`
abbrev pub u64_from : Bool → ℕ
u64_from true = 1
u64_from false = 0

-- `unwrap_or`
abbrev pub unwrap_or : Option String → String → String
unwrap_or none default = default
unwrap_or (some value) default = value

unfoldable pub write_build_info : String → String → Writer
unfolding writeln
write_build_info version commit =
    writeln "# HELP psst_build_info Build information."
    >>> writeln "# TYPE psst_build_info gauge"
    >>> writeln
        ("psst_build_info{version=\"" ++ (version ++ ("\",commit=\"" ++ (commit ++ "\"} 1"))))

unfoldable pub write_secret_counters : AppMetrics → Writer
unfolding write_counter
write_secret_counters m =
    write_counter "psst_secrets_created_total" "Total secrets created." m.secrets_created
    >>> write_counter "psst_secrets_read_total" "Total secrets read." m.secrets_read
    >>> write_counter "psst_secrets_expired_total" "Total secrets deleted by expiry maintenance."
        m.secrets_expired
    >>> write_counter "psst_secrets_deleted_total" "Total secrets deleted by owner."
        m.secrets_deleted
    >>> write_counter "psst_abuse_reports_total" "Total abuse reports submitted." m.abuse_reports

unfoldable pub write_create_rejected : AppMetrics → Writer
unfolding write_value writeln
write_create_rejected m =
    writeln "# HELP psst_create_rejected_total Total create requests rejected by reason."
    >>> writeln "# TYPE psst_create_rejected_total counter"
    >>> write_value "psst_create_rejected_total{reason=\"too_large\"} " m.create_rejected_too_large
    >>> write_value "psst_create_rejected_total{reason=\"invalid_ttl\"} "
        m.create_rejected_invalid_ttl
    >>> write_value "psst_create_rejected_total{reason=\"turnstile_failed\"} "
        m.create_rejected_turnstile_failed
    >>> write_value "psst_create_rejected_total{reason=\"rate_limited\"} "
        m.create_rejected_rate_limited
    >>> write_value "psst_create_rejected_total{reason=\"storage_limit\"} "
        m.create_rejected_storage_limit
    >>> write_value "psst_create_rejected_total{reason=\"invalid_payload\"} "
        m.create_rejected_invalid_payload

unfoldable pub write_rate_limited : AppMetrics → Writer
unfolding write_value writeln
write_rate_limited m =
    writeln "# HELP psst_rate_limited_total Total requests rejected by rate limiter."
    >>> writeln "# TYPE psst_rate_limited_total counter"
    >>> write_value "psst_rate_limited_total{operation=\"create\"} " m.rate_limited_create
    >>> write_value "psst_rate_limited_total{operation=\"read\"} " m.rate_limited_read
    >>> write_value "psst_rate_limited_total{operation=\"report\"} " m.rate_limited_report

unfoldable pub write_db_errors : AppMetrics → Writer
unfolding write_value writeln
write_db_errors m =
    writeln "# HELP psst_db_errors_total Total database errors by operation."
    >>> writeln "# TYPE psst_db_errors_total counter"
    >>> write_value "psst_db_errors_total{operation=\"create\"} " m.db_errors_create
    >>> write_value "psst_db_errors_total{operation=\"read\"} " m.db_errors_read
    >>> write_value "psst_db_errors_total{operation=\"delete\"} " m.db_errors_delete
    >>> write_value "psst_db_errors_total{operation=\"purge\"} " m.db_errors_purge
    >>> write_value "psst_db_errors_total{operation=\"metrics\"} " m.db_errors_metrics

unfoldable pub write_purge_counters : AppMetrics → Writer
unfolding write_counter
write_purge_counters m =
    write_counter "psst_purge_runs_total" "Total maintenance purge runs." m.purge_runs
    >>> write_counter "psst_purge_deleted_total" "Total expired secrets deleted by purge runs."
        m.purge_deleted

unfoldable pub write_secret_gauges : AppMetrics → Writer
unfolding write_gauge_i64
write_secret_gauges m =
    write_gauge_i64 "psst_active_secrets"
      "Number of currently active (unexpired, unconsumed) secrets." m.active_secrets
    >>> write_gauge_i64 "psst_storage_bytes" "Total storage bytes used by active secrets."
        m.storage_bytes

unfoldable pub write_config_gauges : AppConfig → Writer
unfolding write_gauge
write_config_gauges config =
    write_gauge "psst_config_max_secret_bytes" "Configured maximum secret size in bytes."
      config.max_secret_bytes
    >>> write_gauge "psst_config_max_ttl_seconds" "Configured maximum TTL in seconds."
        config.max_ttl_seconds
    >>> write_gauge "psst_config_create_enabled" "Whether secret creation is enabled (1=yes, 0=no)."
        (u64_from config.enable_create)

-- The build's version and commit and the package's version are fixed when the program is compiled.
module _ (build_version build_commit : Option String) (package_version : String) where
  abbrev pub version : String
  version = unwrap_or build_version package_version

  abbrev pub commit : String
  commit = unwrap_or build_commit "unknown"

  unfoldable pub render : AppMetrics → AppConfig → String
  unfolding write_build_info write_secret_counters write_create_rejected write_rate_limited
      write_db_errors write_purge_counters write_secret_gauges write_config_gauges
  render m config =
      (write_build_info version commit
          >>> write_secret_counters m
          >>> write_create_rejected m
          >>> write_rate_limited m
          >>> write_db_errors m
          >>> write_purge_counters m
          >>> write_secret_gauges m
          >>> write_config_gauges config)
        ""
