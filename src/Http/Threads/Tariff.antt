-- ===== src/Http/Threads/Tariff.antt =====
-- What the calls of the store cost the threads of src/http.rs, in a measure of the tables, and which
-- answers are paid for: the interface of a theorem on any interleaving.
use psst_rs.Prelude.{
  ℕ, ◌+◌, ◌≤◌, String, ◌≡◌, subst, sym, inl, inr, Bool, false, Option, none, some, bit,
}
use psst_rs.Prelude.Int.{ℤ}
use psst_rs.Prelude.Exec.{Result, ok, err}
use psst_rs.Config.{AppConfig}
use psst_rs.RateLimit.{RateLimitBucket, key, bucket_for_timestamp}
use psst_rs.Secret.{CreateSecretResponse, DeleteSecretResponse}
use psst_rs.Db.Tables.{Tables, NewSecretRecord}
use psst_rs.Db.Statements.{upsert_counter, is_expired, remaining}
use psst_rs.Db.Connection.{Database}
use psst_rs.Db.Spec.{IsValid, without, delete_step}
use psst_rs.Db.Writes.{Inserted, PurgedCounters, delete_rate_limit_buckets_before-Outcome}
use psst_rs.Db.Validity.{PurgedCounters-IsValid}
use psst_rs.Maintenance.{purge_rate_limit_buckets}
use psst_rs.Maintenance.Stale.{stale, buckets_to_keep}
use psst_rs.Http.Api.{ApiError, World}
use psst_rs.Http.Ends.{tables}
use psst_rs.Http.Limits.{count_attempt}
use psst_rs.Http.Limits.Rates.{IsCounted, Refuses, counted-IsValid, count_attempt-Ends}
use psst_rs.Http.Program.{atomically, call}
use psst_rs.Http.Program.Costs.{Keeps, IsQuiet}
use psst_rs.Http.Program.Calls.{same-IsQuiet, Ends-Keeps, outcome-Keeps}
use psst_rs.Http.Threads.{Answer, created, was_deleted, maintained}

-- A deletion that found its secret.
abbrev pub removes : Bool → Option ℕ → Bool
removes b (some size) = b
removes b none = false

-- A deletion that is confirmed.
abbrev pub confirms : Bool → Result ApiError DeleteSecretResponse → Bool
confirms b (ok response) = b
confirms b (err e) = false

-- The tables with one more attempt.
abbrev pub counted : RateLimitBucket → String → ℤ → Tables → Tables
counted kind hash now t = record t {
  rate_limits = upsert_counter (key kind hash) (bucket_for_timestamp kind now) t.rate_limits;
}

-- The answers that `gives` selects are paid by a loss of the measure. `cost` is what the creation of
-- an id may add, `owns` says whether the deletion of an id is paid for, and `Timely` when a turn of
-- the maintenance may come.
pub record Tariff (measure : Tables → ℕ) (Timely : ℤ → Type 0) : Type 0 where
  pub gives : Answer → Bool
  pub cost : String → ℕ
  pub owns : String → Bool
  pub stores :
      (secret : NewSecretRecord) (t t' : Tables)
      → Inserted secret t t'
      → measure t' ≤ cost secret.id + measure t
  pub takes :
      (id hash : String) (q : Option ℕ) (t t' : Tables)
      → IsValid t
      → (q, t') ≡ delete_step id hash t
      → bit (removes (owns id) q) + measure t' ≤ measure t
  pub expires : (now : ℤ) (t : Tables) → measure (without (is_expired now) t) ≤ measure t
  pub counts :
      (kind : RateLimitBucket) (hash : String) (now : ℤ) (t : Tables)
      → measure (counted kind hash now t) ≤ measure t
  pub sweeps :
      (kind : RateLimitBucket) (now : ℤ) (t : Tables)
      → Timely now
      → measure (record t { rate_limits = remaining (stale kind now) t.rate_limits }) ≤ measure t
  pub creations : (r : Result ApiError CreateSecretResponse) → gives (created r) ≡ false
  pub deletions :
      (id : String) (r : Result ApiError DeleteSecretResponse)
      → gives (was_deleted id r) ≡ confirms (owns id) r
  pub turns : gives maintained ≡ false

module _ (measure : Tables → ℕ) (Timely : ℤ → Type 0) (tariff : Tariff measure Timely)
    (fault : ℕ → Bool) (database : Database) where
  pub count_attempt-Keeps :
      (config : AppConfig) (n : ℕ) (kind : RateLimitBucket) (context : String) (limit : ℕ)
      (hash : String) (now : ℤ)
      → Keeps IsValid measure n
          (atomically (count_attempt fault database config kind context limit hash now))
  count_attempt-Keeps config n kind context limit hash now =
      Ends-Keeps IsValid measure _ n
        (count_attempt-Ends fault database config kind context limit hash now)
        (λ w w' a v h. passed w w' v h.0) (λ w w' e v h. refused w w' e v h)
    where
      passed :
          (w w' : World)
          → IsValid (tables w)
          → IsCounted kind hash now w w'
          → IsQuiet IsValid measure (tables w) (tables w')
      passed w w' v h = (
        subst (λ t. measure t ≤ measure (tables w)) (sym h.0)
            (tariff.counts kind hash now (tables w)),
        counted-IsValid kind hash now w w' v h,
      )

      refused :
          (w w' : World) (e : ApiError)
          → IsValid (tables w)
          → Refuses fault kind limit hash now w e w'
          → IsQuiet IsValid measure (tables w) (tables w')
      refused w w' e v (inl (status, same, over)) = passed w w' v same
      refused w w' e v (inr (f, same, m)) =
          same-IsQuiet IsValid measure (tables w) (tables w') v same

  pub purge_rate_limit_buckets-Keeps :
      (kind : RateLimitBucket) (now : ℤ)
      → Timely now
      → Keeps IsValid measure 0
          (call (purge_rate_limit_buckets fault database kind now (buckets_to_keep kind)))
  unfolding purge_rate_limit_buckets
  purge_rate_limit_buckets-Keeps kind now timely =
      outcome-Keeps IsValid measure fault (λ _. ⊥) (PurgedCounters (stale kind now)) _ 0
        (λ s v. delete_rate_limit_buckets_before-Outcome fault database _ _ s)
        λ n t t' v h. (
          subst (λ u. measure u ≤ measure t) (sym h.1) (tariff.sweeps kind now t timely),
          PurgedCounters-IsValid _ t n t' h v,
        )
