-- ===== src/RateLimit/Buckets.antt =====
-- The bucket numbers of src/rate_limit.rs: which seconds a bucket holds, and which buckets a purge
-- keeps.
use psst_rs.Prelude.{ℕ, ◌+◌, ◌*◌, ◌≤◌, ◌<◌, ◌^◌, ◌≡◌, arith}
use psst_rs.Prelude.Int.{ℤ, pos, negsuc, ◌+ℤ◌, pos_part, neg_part, IsI64}
use psst_rs.RateLimit.{
  RateLimitBucket, create_minute, create_hour, read_minute, bucket_size_seconds,
  bucket_for_timestamp, purge_cutoff_bucket,
}

-- `z * n`, through the parts of the integer.
pub record IsWithin (kind : RateLimitBucket) (t bucket : ℤ) : Type 0 where
  pub starts :
      pos_part bucket * bucket_size_seconds kind + neg_part t
      ≤ pos_part t + neg_part bucket * bucket_size_seconds kind
  pub ends :
      pos_part t + neg_part bucket * bucket_size_seconds kind
      < pos_part bucket * bucket_size_seconds kind + neg_part t + bucket_size_seconds kind

-- The bucket of a timestamp, before the epoch too, is the one whose `bucket_size_seconds` seconds
-- hold it: `bucket * size ≤ t < (bucket + 1) * size`.
pub bucket_for_timestamp-IsWithin :
    (kind : RateLimitBucket) (t : ℤ) → IsWithin kind t (bucket_for_timestamp kind t)
unfolding bucket_for_timestamp
bucket_for_timestamp-IsWithin create_minute t = ground arith
bucket_for_timestamp-IsWithin create_hour t = ground arith
bucket_for_timestamp-IsWithin read_minute t = ground arith

-- A purge that keeps `n` buckets, `1 ≤ n ≤ 2 ^ 62`, keeps the current one and the `n - 1` before
-- it: for a timestamp of an `i64` the subtraction does not saturate.
pub purge_cutoff_bucket-window :
    (kind : RateLimitBucket) (t : ℤ) (n : ℕ)
    → IsI64 t
    → 1 ≤ n
    → n ≤ 2 ^ 62
    → purge_cutoff_bucket kind t (pos n) +ℤ pos n ≡ bucket_for_timestamp kind t +ℤ pos 1
unfolding purge_cutoff_bucket ◌+ℤ◌
purge_cutoff_bucket-window create_minute (pos t) n range low high = ground (arith, range.high)
purge_cutoff_bucket-window create_minute (negsuc t) n range low high = ground (arith, range.low)
purge_cutoff_bucket-window create_hour (pos t) n range low high = ground (arith, range.high)
purge_cutoff_bucket-window create_hour (negsuc t) n range low high = ground (arith, range.low)
purge_cutoff_bucket-window read_minute (pos t) n range low high = ground (arith, range.high)
purge_cutoff_bucket-window read_minute (negsuc t) n range low high = ground (arith, range.low)
