-- ===== src/Http/Limits/Reads.antt =====
-- The rate limit of a read in src/http.rs.
use psst_rs.Prelude.{ℕ, String, ◌≡◌, refl, ◌⊎◌, inl, inr, Bool, Option, none, some}
use psst_rs.Prelude.Int.{ℤ, pos, ◌≤ℤ◌, ◌<ℤ◌}
use psst_rs.Config.{AppConfig}
use psst_rs.RateLimit.{read_minute}
use psst_rs.Db.Connection.{Database}
use psst_rs.Db.Spec.{IsValid}
use psst_rs.Db.Transactions.{Failed}
use psst_rs.Http.Api.{ApiError, World, too_many_requests}
use psst_rs.Http.Ends.{Ends, tables, Ends-imp}
use psst_rs.Http.Limits.{count_attempt, check_read_rate_limit}
use psst_rs.Http.Limits.Rates.{attempts, Refuses, counted-IsValid, count_attempt-Ends}

module _ (fault : ℕ → Bool) (database : Database) (config : AppConfig) where
  -- Fewer attempts than the limit of this minute, where there is an address to count for.
  abbrev pub IsAllowed : Option String → ℤ → World → Type 0
  IsAllowed none now w = Unit
  IsAllowed (some hash) now w =
      attempts read_minute hash now w <ℤ pos config.read_rate_limit_per_minute

  -- A refusal is the status 429 for an attempt past the limit, or a call of SQLite has failed.
  abbrev pub RefusesRead : Option String → ℤ → World → ApiError → Type 0
  RefusesRead none now w e = ⊥
  RefusesRead (some hash) now w e =
      ((e ≡ too_many_requests)
        × (pos config.read_rate_limit_per_minute ≤ℤ attempts read_minute hash now w))
      ⊎ Failed fault

  -- A read passes exactly if its requester has made fewer attempts than the limit in this minute;
  -- without an address there is no limit. Passing or not, neither a secret
  -- nor a metric is touched.
  pub check_read_rate_limit-Ends :
      (hash : Option String) (now : ℤ) (w : World)
      → IsValid (tables w)
      → Ends
          (λ _ w'.
            IsAllowed hash now w
            × ((tables w').secrets ≡ (tables w).secrets)
            × IsValid (tables w')
            × (w'.metrics ≡ w.metrics))
          (λ e w'.
            RefusesRead hash now w e
            × ((tables w').secrets ≡ (tables w).secrets)
            × (w'.metrics ≡ w.metrics))
          (check_read_rate_limit fault database config hash now w)
  unfolding check_read_rate_limit
  check_read_rate_limit-Ends none now w v = record { at = (tt, refl, v, refl) }
  check_read_rate_limit-Ends (some hash) now w v =
      Ends-imp
        (λ _ w'.
          IsAllowed (some hash) now w
          × ((tables w').secrets ≡ (tables w).secrets)
          × IsValid (tables w')
          × (w'.metrics ≡ w.metrics))
        (λ e w'.
          RefusesRead (some hash) now w e
          × ((tables w').secrets ≡ (tables w).secrets)
          × (w'.metrics ≡ w.metrics))
        (count_attempt fault database config read_minute "failed to update read rate limit: "
          config.read_rate_limit_per_minute hash now w)
        (count_attempt-Ends fault database config read_minute "failed to update read rate limit: "
          config.read_rate_limit_per_minute hash now w v)
        (λ _ w' h.
          (h.1, (λ i. (h.0.0 i).secrets), counted-IsValid read_minute hash now w w' v h.0, h.0.1))
        (λ e w' h. refused e w' h)
    where
      refused :
          (e : ApiError) (w' : World)
          → Refuses fault read_minute config.read_rate_limit_per_minute hash now w e w'
          → RefusesRead (some hash) now w e
            × ((tables w').secrets ≡ (tables w).secrets)
            × (w'.metrics ≡ w.metrics)
      refused e w' (inl (status, same, over)) =
          (inl (status, over), (λ i. (same.0 i).secrets), same.1)
      refused e w' (inr (f, same, m)) = (inr f, (λ i. (same i).secrets), m)
