-- ===== src/Metrics.antt =====
-- src/metrics.rs: the counters and gauges. An atomic counter wraps at 64 bits.
pub mod Render
use psst_rs.Prelude.{ℕ, ◌+◌, ◌%◌, none, some}
use psst_rs.Prelude.Int.{ℤ, pos, ◌+ℤ◌, ◌-ℤ◌, u64_mod, wrap_i64, i64_try_from}

pub record AppMetrics : Type 0 where
  pub secrets_created : ℕ
  pub secrets_read : ℕ
  pub secrets_expired : ℕ
  pub secrets_deleted : ℕ
  pub abuse_reports : ℕ
  pub create_rejected_too_large : ℕ
  pub create_rejected_invalid_ttl : ℕ
  pub create_rejected_turnstile_failed : ℕ
  pub create_rejected_rate_limited : ℕ
  pub create_rejected_storage_limit : ℕ
  pub create_rejected_invalid_payload : ℕ
  pub rate_limited_create : ℕ
  pub rate_limited_read : ℕ
  pub rate_limited_report : ℕ
  pub db_errors_create : ℕ
  pub db_errors_read : ℕ
  pub db_errors_delete : ℕ
  pub db_errors_purge : ℕ
  pub db_errors_metrics : ℕ
  pub purge_runs : ℕ
  pub purge_deleted : ℕ
  pub active_secrets : ℤ
  pub storage_bytes : ℤ

-- `AtomicU64::fetch_add`, `AtomicI64::fetch_add` and `fetch_sub`
unfoldable pub fetch_add : ℕ → ℕ → ℕ
fetch_add counter n = (counter + n) % u64_mod

unfoldable pub gauge_add : ℤ → ℤ → ℤ
gauge_add gauge z = wrap_i64 (gauge +ℤ z)

unfoldable pub gauge_sub : ℤ → ℤ → ℤ
gauge_sub gauge z = wrap_i64 (gauge -ℤ z)

-- `i64::try_from(n).unwrap_or(0)`
unfoldable pub i64_or_zero : ℕ → ℤ
i64_or_zero n = elim (i64_try_from n) [ none ↦ pos 0 | some z ↦ z ]

-- `AppMetrics::default()`
abbrev pub zeroed : AppMetrics
zeroed = record {
  secrets_created = 0;
  secrets_read = 0;
  secrets_expired = 0;
  secrets_deleted = 0;
  abuse_reports = 0;
  create_rejected_too_large = 0;
  create_rejected_invalid_ttl = 0;
  create_rejected_turnstile_failed = 0;
  create_rejected_rate_limited = 0;
  create_rejected_storage_limit = 0;
  create_rejected_invalid_payload = 0;
  rate_limited_create = 0;
  rate_limited_read = 0;
  rate_limited_report = 0;
  db_errors_create = 0;
  db_errors_read = 0;
  db_errors_delete = 0;
  db_errors_purge = 0;
  db_errors_metrics = 0;
  purge_runs = 0;
  purge_deleted = 0;
  active_secrets = pos 0;
  storage_bytes = pos 0;
}
