-- ===== src/RateLimit.antt =====
-- src/rate_limit.rs: the kinds of rate-limit buckets, their numbers and their keys.
pub mod Buckets
pub mod Keys
use Prim.Native.String.{◌++◌}
use psst_rs.Prelude.{ℕ, ◌*◌, String}
use psst_rs.Prelude.Int.{ℤ, pos, ◌-ℤ◌, div_euclid, saturating_sub_i64, max_ℤ}

pub data RateLimitBucket : Type 0 where
  create_minute create_hour read_minute : RateLimitBucket

unfoldable pub key_prefix : RateLimitBucket → String
key_prefix create_minute = "create-minute"
key_prefix create_hour = "create-hour"
key_prefix read_minute = "read-minute"

unfoldable pub bucket_size_seconds : RateLimitBucket → ℕ
bucket_size_seconds create_minute = 60
bucket_size_seconds read_minute = 60
bucket_size_seconds create_hour = 60 * 60

unfoldable pub bucket_for_timestamp : RateLimitBucket → ℤ → ℤ
unfolding bucket_size_seconds div_euclid
bucket_for_timestamp kind now_timestamp = div_euclid now_timestamp (bucket_size_seconds kind)

unfoldable pub key : RateLimitBucket → String → String
unfolding key_prefix
key kind requester_ip_hash = key_prefix kind ++ (":" ++ requester_ip_hash)

unfoldable pub purge_cutoff_bucket : RateLimitBucket → ℤ → ℤ → ℤ
unfolding bucket_for_timestamp saturating_sub_i64 ◌-ℤ◌
purge_cutoff_bucket kind now_timestamp buckets_to_keep =
    let kept = max_ℤ buckets_to_keep (pos 1) in
    saturating_sub_i64 (bucket_for_timestamp kind now_timestamp) (kept -ℤ pos 1)
