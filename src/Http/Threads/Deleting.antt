-- ===== src/Http/Threads/Deleting.antt =====
-- What a deletion and a turn of the maintenance cost the threads of src/http.rs.
use psst_rs.Prelude.{ℕ, ◌≤◌, String, ◌≡◌, subst, sym, Bool, Option, none, some, arith, bit}
use psst_rs.Prelude.Int.{ℤ, pos, ◌<ℤ◌, i64_max}
use psst_rs.Prelude.Exec.{Result, ok, err}
use psst_rs.Crypto.{Crypto}
use psst_rs.Config.{AppConfig}
use psst_rs.Secret.{DeleteSecretRequest, DeleteSecretResponse, hash_delete_token}
use psst_rs.Db.Tables.{Tables, ActiveSecretStats}
use psst_rs.Db.Statements.{is_expired}
use psst_rs.Db.Connection.{Database}
use psst_rs.Db.Spec.{IsValid, delete_step}
use psst_rs.Db.Stats.{Counted, active_bytes, active_secret_stats-Outcome}
use psst_rs.Db.Validity.{without-IsValid, delete_step-IsValid}
use psst_rs.Db.Writes.{Purged, delete-Outcome, delete_expired_secrets-Outcome}
use psst_rs.Db.Store.{
  delete_secret_by_id_and_token_hash, delete_expired_secrets, active_secret_stats,
}
use psst_rs.RateLimit.{RateLimitBucket, create_minute, create_hour, read_minute}
use psst_rs.Maintenance.Stale.{buckets_to_keep}
use psst_rs.Http.Api.{ApiError}
use psst_rs.Http.Handlers.{answer_delete}
use psst_rs.Maintenance.{MaintenanceRunStats, count_pass, purge_rate_limit_buckets}
use psst_rs.Http.Program.{atomically, call}
use psst_rs.Http.Program.Costs.{
  Affords, Keeps, finished-Affords, finished-Keeps, and_then-Affords, bind-Affords, Keeps-Affords,
  bind-Keeps, counting-Affords, metered-Keeps, atomically-Affords, atomically-Keeps,
}
use psst_rs.Http.Program.Calls.{same-IsQuiet, store_call-Affords, outcome-Keeps}
use psst_rs.Http.Threads.{deleting, sweeping, setting_gauges, counting_pass, maintaining}
use psst_rs.Http.Threads.Tariff.{Tariff, removes, confirms, purge_rate_limit_buckets-Keeps}

-- The time of a turn of the maintenance, if it has one.
abbrev pub IsTimely : (ℤ → Type 0) → Option ℤ → Type 0
IsTimely Timely none = Unit
IsTimely Timely (some now) = Timely now

module _ (measure : Tables → ℕ) (Timely : ℤ → Type 0) (tariff : Tariff measure Timely)
    (crypto : Crypto) (fault : ℕ → Bool) (database : Database) (config : AppConfig) where
  -- A result of the store that is paid for.
  abbrev IsTaken : String → ℕ → Result ApiError (Option ℕ) → Type 0
  IsTaken id n (ok q) = bit (removes (tariff.owns id) q) ≤ n
  IsTaken id n (err e) = Unit

  abbrev IsConfirmed : String → ℕ → Result ApiError DeleteSecretResponse → Type 0
  IsConfirmed id n r = bit (confirms (tariff.owns id) r) ≤ n

  answer_delete-Affords :
      (id : String) (q : Option ℕ) (n : ℕ)
      → bit (removes (tariff.owns id) q) ≤ n
      → Affords IsValid measure (IsConfirmed id) n (atomically (answer_delete q))
  answer_delete-Affords id (some size) n h =
      atomically-Affords IsValid measure (answer_delete (some size)) _ n
        (λ w v. (n, (omega arith, v), h))
  answer_delete-Affords id none n h =
      atomically-Affords IsValid measure (answer_delete none) _ n
        (λ w v. (n, (omega arith, v), omega arith))

  pub deleting-Affords :
      (id : String) (payload : DeleteSecretRequest)
      → Affords IsValid measure
          (λ m r. bit (confirms (tariff.owns id) r) ≤ m)
          0
          (deleting crypto fault database config id payload)
  unfolding deleting
  deleting-Affords id payload =
      Keeps-Affords IsValid measure _ 0
        (atomically-Keeps IsValid measure _ 0 (λ w v. (omega arith, v))) (λ e. omega arith)
        λ _.
          bind-Affords IsValid measure (IsTaken id) _ 0
            (counting-Affords IsValid measure _ _ 0 (
              store_call-Affords IsValid measure fault (λ _. ⊥)
                (λ t q t'. (q, t') ≡ delete_step id hash t)
                (delete_secret_by_id_and_token_hash fault database id hash) 0
                (λ s v. delete-Outcome fault database id hash s) _ _
                (λ q t t' v h. (
                  bit (removes (tariff.owns id) q),
                  (
                    omega (arith, tariff.takes id hash q t t' v h),
                    subst IsValid (λ j. (sym h j).1) (delete_step-IsValid id hash t v),
                  ),
                  omega arith,
                ))
                (λ e. tt)))
            (λ m e _. omega arith) (λ m q h. answer_delete-Affords id q m h)
    where
      hash : String
      hash = hash_delete_token crypto payload.delete_token

  sweeping-Keeps :
      (now : ℤ) → Timely now → Keeps IsValid measure 0 (sweeping crypto fault database config now)
  unfolding sweeping
  sweeping-Keeps now timely =
      bind-Keeps IsValid measure 0
        (outcome-Keeps IsValid measure fault (λ _. ⊥) (Purged (is_expired now))
          (delete_expired_secrets fault database now) 0
          (λ s v. delete_expired_secrets-Outcome fault database now s)
          (λ n t t' v h. (
            subst (λ u. measure u ≤ measure t) (sym h.1) (tariff.expires now t),
            subst IsValid (sym h.1) (without-IsValid (is_expired now) t v),
          )))
        λ secrets. bind-Keeps IsValid measure 0 (purge create_minute) λ create_minutes.
          bind-Keeps IsValid measure 0 (purge create_hour) λ create_hours.
            bind-Keeps IsValid measure 0 (purge read_minute)
              (λ read_minutes. finished-Keeps IsValid measure 0)
    where
      purge :
          (kind : RateLimitBucket)
          → Keeps IsValid measure 0
              (call (purge_rate_limit_buckets fault database kind now (buckets_to_keep kind)))
      purge kind =
          purge_rate_limit_buckets-Keeps measure Timely tariff fault database kind now timely

  setting_gauges-Affords :
      (n : ℕ) (r : Result String ActiveSecretStats)
      → Affords IsValid measure (λ _ _. Unit) n (setting_gauges crypto fault database config r)
  setting_gauges-Affords n (ok active) = record { at = λ w v. (n, (omega arith, v), tt) }
  setting_gauges-Affords n (err e) = finished-Affords IsValid measure _ n tt tt

  counting_pass-Affords :
      (now : ℤ) (n : ℕ) (r : Result String MaintenanceRunStats)
      → Affords IsValid measure (λ _ _. Unit) n (counting_pass crypto fault database config now r)
  counting_pass-Affords now n (ok stats) =
      and_then-Affords IsValid measure _ _ n
        (metered-Keeps IsValid measure (count_pass stats.expired_secrets_deleted) n)
        λ m _ _.
          and_then-Affords IsValid measure _ _ m
            (outcome-Keeps IsValid measure fault (λ t. pos i64_max <ℤ active_bytes now t)
              (Counted now) (active_secret_stats fault database now) m
              (λ s v. active_secret_stats-Outcome fault database now s v)
              (λ a t t' v h. same-IsQuiet IsValid measure t t' v h.unchanged))
            (λ k r _. setting_gauges-Affords k r)
  counting_pass-Affords now n (err e) = record { at = λ w v. (n, (omega arith, v), tt) }

  pub maintaining-Affords :
      (clock : Option ℤ)
      → IsTimely Timely clock
      → Affords IsValid measure (λ _ _. Unit) 0 (maintaining crypto fault database config clock)
  unfolding maintaining
  maintaining-Affords none timely = finished-Affords IsValid measure _ 0 tt tt
  maintaining-Affords (some now) timely =
      and_then-Affords IsValid measure _ _ 0 (sweeping-Keeps now timely)
        (λ m r _. counting_pass-Affords now m r)
