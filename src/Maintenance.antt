-- ===== src/Maintenance.antt =====
-- src/maintenance.rs: the periodic purge of expired secrets and old rate-limit counters.
pub mod Stale
pub mod Purge
pub mod Ticks
use psst_rs.Prelude.{ℕ, String, Bool, Option, none, some}
use psst_rs.Prelude.Int.{ℤ, pos, wrap_i64, i64_try_from}
use psst_rs.Prelude.Exec.{Result, ok, err, pure, ◌>>=◌}
use psst_rs.Metrics.{AppMetrics, fetch_add}
use psst_rs.RateLimit.{
  RateLimitBucket, create_minute, create_hour, read_minute, key_prefix, purge_cutoff_bucket,
}
use psst_rs.Db.Tables.{ActiveSecretStats}
use psst_rs.Db.Connection.{Sqlite, Db, Database}
use psst_rs.Db.Store.{delete_expired_secrets, delete_rate_limit_buckets_before, active_secret_stats}
use psst_rs.Http.Api.{World}

abbrev pub create_minute_buckets_to_keep : ℕ
create_minute_buckets_to_keep = 120

abbrev pub create_hour_buckets_to_keep : ℕ
create_hour_buckets_to_keep = 48

abbrev pub read_minute_buckets_to_keep : ℕ
read_minute_buckets_to_keep = 120

pub record MaintenanceRunStats : Type 0 where
  pub expired_secrets_deleted : ℕ
  pub create_minute_buckets_deleted : ℕ
  pub create_hour_buckets_deleted : ℕ
  pub read_minute_buckets_deleted : ℕ

-- What a turn counts, and how it sets the gauges.
abbrev pub count_pass : ℕ → AppMetrics → AppMetrics
count_pass expired_secrets_deleted m = record m {
  purge_runs = fetch_add m.purge_runs 1;
  purge_deleted = fetch_add m.purge_deleted expired_secrets_deleted;
  secrets_expired = fetch_add m.secrets_expired expired_secrets_deleted;
}

abbrev pub count_failed_pass : AppMetrics → AppMetrics
count_failed_pass m = record m { db_errors_purge = fetch_add m.db_errors_purge 1 }

abbrev pub set_active : ActiveSecretStats → AppMetrics → AppMetrics
set_active active m = record m {
  active_secrets = wrap_i64 (pos active.active_secret_count);
  storage_bytes = wrap_i64 (pos active.active_storage_bytes);
}

-- The seconds since the epoch, if the clock is not before it and they fit an `i64`.
unfoldable pub current_timestamp : Option ℕ → Option ℤ
current_timestamp none = none
current_timestamp (some seconds) = i64_try_from seconds

module _ (fault : ℕ → Bool) (database : Database) where
  unfoldable pub purge_rate_limit_buckets : RateLimitBucket → ℤ → ℕ → Db ℕ
  purge_rate_limit_buckets bucket_kind now_timestamp buckets_to_keep =
      delete_rate_limit_buckets_before fault database (key_prefix bucket_kind)
        (purge_cutoff_bucket bucket_kind now_timestamp (pos buckets_to_keep))

  unfoldable pub run_maintenance_pass : ℤ → Db MaintenanceRunStats
  run_maintenance_pass now_timestamp = do
    expired_secrets_deleted ← delete_expired_secrets fault database now_timestamp
    create_minute_buckets_deleted ←
        purge_rate_limit_buckets create_minute now_timestamp create_minute_buckets_to_keep
    create_hour_buckets_deleted ←
        purge_rate_limit_buckets create_hour now_timestamp create_hour_buckets_to_keep
    read_minute_buckets_deleted ←
        purge_rate_limit_buckets read_minute now_timestamp read_minute_buckets_to_keep
    pure (record {
      expired_secrets_deleted = expired_secrets_deleted;
      create_minute_buckets_deleted = create_minute_buckets_deleted;
      create_hour_buckets_deleted = create_hour_buckets_deleted;
      read_minute_buckets_deleted = read_minute_buckets_deleted;
    })

  -- The gauges follow the table, if it can be read.
  abbrev pub set_gauges : Result String ActiveSecretStats × Sqlite → AppMetrics → World
  set_gauges (ok active, s) m = record { sqlite = s; metrics = set_active active m }
  set_gauges (err e, s) m = record { sqlite = s; metrics = m }

  abbrev pub after_pass : ℤ → Result String MaintenanceRunStats × Sqlite → AppMetrics → World
  after_pass now_timestamp (ok stats, s) m =
      set_gauges (active_secret_stats fault database now_timestamp s)
        (count_pass stats.expired_secrets_deleted m)
  after_pass now_timestamp (err e, s) m = record { sqlite = s; metrics = count_failed_pass m }

  -- One turn of the loop, at the time that the clock gives.
  unfoldable pub maintenance_tick : Option ℤ → World → World
  maintenance_tick none w = w
  maintenance_tick (some now_timestamp) w =
      after_pass now_timestamp (run_maintenance_pass now_timestamp w.sqlite) w.metrics
