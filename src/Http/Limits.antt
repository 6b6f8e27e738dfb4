-- ===== src/Http/Limits.antt =====
-- The quotas and the rate limits of src/http.rs.
pub mod Quotas
pub mod Rates
pub mod Reads
use Prim.Native.String.{◌++◌}
use psst_rs.Prelude.{
  ℕ, ◌+◌, ◌-◌, ◌^◌, String, Bool, true, false, Option, none, some, ltb, leb, if◌then◌else◌,
}
use psst_rs.Prelude.Int.{ℤ, u64_mod}
use psst_rs.Prelude.Exec.{Result, ok, err, pure, raise_if, ok_or, ◌>>=◌, ◌>>◌}
use psst_rs.Config.{AppConfig}
use psst_rs.RateLimit.{
  RateLimitBucket, create_minute, create_hour, read_minute, bucket_for_timestamp, key,
}
use psst_rs.Db.Tables.{ActiveSecretStats}
use psst_rs.Db.Connection.{Database}
use psst_rs.Db.Store.{active_secret_stats, increment_rate_limit_counter}
use psst_rs.Http.Api.{
  ApiError, Handler, World, store_call, service_unavailable, too_many_requests, internal,
}

-- `u64::checked_add`
abbrev pub checked_add_u64 : ℕ → ℕ → Option ℕ
checked_add_u64 a b = if ltb (a + b) u64_mod then some (a + b) else none

module _ (fault : ℕ → Bool) (database : Database) (config : AppConfig) where
  unfoldable pub enforce_global_create_quotas : ℤ → ℕ → Handler Unit
  enforce_global_create_quotas now_timestamp new_secret_size_bytes = do
    stats ←
        store_call (active_secret_stats fault database now_timestamp)
          (λ error. internal ("failed to check global quotas: " ++ error))
    raise_if (leb config.global_max_active_secrets stats.active_secret_count)
        (service_unavailable "global active secret quota has been reached")
    projected_storage_bytes ←
        ok_or (checked_add_u64 stats.active_storage_bytes new_secret_size_bytes)
          (internal "global storage quota calculation overflowed")
    raise_if (ltb config.global_max_storage_bytes projected_storage_bytes)
        (service_unavailable "global storage quota has been reached")

  -- One counted attempt: the three checks below differ in the bucket, the limit and the message.
  unfoldable pub count_attempt : RateLimitBucket → String → ℕ → String → ℤ → Handler Unit
  count_attempt bucket_kind context limit requester_ip_hash now_timestamp = do
    count ←
        store_call
          (increment_rate_limit_counter fault database (key bucket_kind requester_ip_hash)
            (bucket_for_timestamp bucket_kind now_timestamp))
          (λ error. internal (context ++ error))
    raise_if (ltb limit count) too_many_requests

  unfoldable pub check_create_rate_limit_hook : Option String → ℤ → Handler Unit
  unfolding count_attempt
  check_create_rate_limit_hook none now_timestamp = pure tt
  check_create_rate_limit_hook (some requester_ip_hash) now_timestamp = do
    count_attempt create_minute "failed to update create rate limit: "
        config.create_rate_limit_per_minute requester_ip_hash now_timestamp
    count_attempt create_hour "failed to update create rate limit: "
        config.create_rate_limit_per_hour requester_ip_hash now_timestamp

  unfoldable pub check_read_rate_limit : Option String → ℤ → Handler Unit
  unfolding count_attempt
  check_read_rate_limit none now_timestamp = pure tt
  check_read_rate_limit (some requester_ip_hash) now_timestamp =
      count_attempt read_minute "failed to update read rate limit: "
        config.read_rate_limit_per_minute requester_ip_hash now_timestamp
