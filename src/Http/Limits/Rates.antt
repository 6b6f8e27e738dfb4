-- ===== src/Http/Limits/Rates.antt =====
-- The rate limits of src/http.rs: an attempt is counted whether or not it passes, and passes exactly
-- while the count is within the limit.
use Prim.Native.String.{◌++◌}
use psst_rs.Prelude.{
  ℕ, ◌≤◌, ◌<◌, String, ◌≡◌, refl, subst, sym, ap, ◌∙◌, ◌==◌, eq_iff, ◌⊎◌, inl, inr, Bool, false,
  Option, none, some, arith, Bool-cases, ltb, ltb→lt,
}
use psst_rs.Prelude.Int.{ℤ, pos, ◌+ℤ◌, ◌≤ℤ◌, ◌<ℤ◌, int_laws, pos_part, neg_part}
use psst_rs.Prelude.Exec.{raise_if}
use psst_rs.Config.{AppConfig}
use psst_rs.RateLimit.{RateLimitBucket, create_minute, create_hour, bucket_for_timestamp, key}
use psst_rs.Db.Tables.{Tables}
use psst_rs.Db.Statements.{upsert_counter}
use psst_rs.Db.Connection.{Database}
use psst_rs.Db.Store.{increment_rate_limit_counter}
use psst_rs.Db.Spec.{IsValid, counter}
use psst_rs.Db.Transactions.{Failed}
use psst_rs.Db.Counters.{Incremented, increment-Outcome, counter-upsert_counter}
use psst_rs.RateLimit.Keys.{key_injective}
use psst_rs.Db.Validity.{upsert_counter-IsValid}
use psst_rs.Http.Api.{ApiError, World, store_call, too_many_requests, internal}
use psst_rs.Http.Ends.{Ends, tables, Ends-bind, Ends-imp, Ends-store_call, never}
use psst_rs.Http.Limits.{count_attempt, check_create_rate_limit_hook}

-- How often a requester has tried in the bucket of `now`.
abbrev pub attempts : RateLimitBucket → String → ℤ → World → ℤ
attempts kind hash now w =
    counter (key kind hash) (bucket_for_timestamp kind now) (tables w).rate_limits

-- One more attempt is counted, and nothing else changes.
abbrev pub IsCounted : RateLimitBucket → String → ℤ → World → World → Type 0
IsCounted kind hash now w w' =
    (tables w' ≡ record (tables w) {
      rate_limits =
          upsert_counter (key kind hash) (bucket_for_timestamp kind now) (tables w).rate_limits;
    })
    × (w'.metrics ≡ w.metrics)

-- Passing means that this attempt is within the limit.
abbrev pub Passes : RateLimitBucket → ℕ → String → ℤ → World → World → Type 0
Passes kind limit hash now w w' =
    IsCounted kind hash now w w' × (attempts kind hash now w <ℤ pos limit)

-- A refusal is the status 429 and means that this attempt passes the limit, which it counts
-- against, or a call of SQLite has failed and nothing is counted.
abbrev pub Refuses :
    (ℕ → Bool) → RateLimitBucket → ℕ → String → ℤ → World → ApiError → World → Type 0
Refuses fault kind limit hash now w e w' =
    ((e ≡ too_many_requests)
      × IsCounted kind hash now w w'
      × (pos limit ≤ℤ attempts kind hash now w))
    ⊎ (Failed fault × (tables w' ≡ tables w) × (w'.metrics ≡ w.metrics))

pub counted-IsValid :
    (kind : RateLimitBucket) (hash : String) (now : ℤ) (w w' : World)
    → IsValid (tables w)
    → IsCounted kind hash now w w'
    → IsValid (tables w')
counted-IsValid kind hash now w w' v h =
    subst IsValid (sym h.0)
      (upsert_counter-IsValid (key kind hash) (bucket_for_timestamp kind now) (tables w) v)

within_limit : (n limit : ℕ) (z : ℤ) → pos n ≡ z +ℤ pos 1 → n ≤ limit → z <ℤ pos limit
within_limit n limit z h le = omega (int_laws, ap pos_part h, ap neg_part h)

over_limit : (n limit : ℕ) (z : ℤ) → pos n ≡ z +ℤ pos 1 → limit < n → pos limit ≤ℤ z
over_limit n limit z h lt = omega (int_laws, ap pos_part h, ap neg_part h)

keys_apart : (hash : String) → (key create_minute hash == key create_hour hash) ≡ false
keys_apart hash = elim (Bool-cases (key create_minute hash == key create_hour hash)) [
  | inr e ↦ e
  | inl e ↦
      let clash : create_minute ≡ create_hour =
        (key_injective create_minute create_hour hash hash ((eq_iff _ _).0 e)).0 in
      cc clash
]

module _ (fault : ℕ → Bool) (database : Database) (config : AppConfig) where
  -- On valid tables, an attempt is counted exactly once, and passes exactly if the requester has
  -- made fewer than `limit` attempts in the bucket before; if a call of SQLite fails, it is
  -- refused and not counted.
  pub count_attempt-Ends :
      (kind : RateLimitBucket) (context : String) (limit : ℕ) (hash : String) (now : ℤ) (w : World)
      → IsValid (tables w)
      → Ends
          (λ _ w'. Passes kind limit hash now w w')
          (Refuses fault kind limit hash now w)
          (count_attempt fault database config kind context limit hash now w)
  unfolding count_attempt
  count_attempt-Ends kind context limit hash now w v =
      Ends-bind _ (Refuses fault kind limit hash now w)
        (store_call
          (increment_rate_limit_counter fault database (key kind hash)
            (bucket_for_timestamp kind now))
          (λ error. internal (context ++ error)))
        (λ count. raise_if (ltb limit count) too_many_requests) w
        (Ends-store_call fault ⊥
          (Incremented (key kind hash) (bucket_for_timestamp kind now) (tables w))
          (λ error. internal (context ++ error))
          (increment_rate_limit_counter fault database (key kind hash)
            (bucket_for_timestamp kind now))
          w
          (increment-Outcome fault database (key kind hash) (bucket_for_timestamp kind now) w.sqlite
            v))
        (λ e w' h. inr (never h.2, h.0, h.1)) (λ n w' h. decide n w' h.0 h.1)
    where
      decide :
          (n : ℕ) (w' : World)
          → Incremented (key kind hash) (bucket_for_timestamp kind now) (tables w) n (tables w')
          → w'.metrics ≡ w.metrics
          → Ends
              (λ _ w''. Passes kind limit hash now w w'')
              (Refuses fault kind limit hash now w)
              (raise_if (ltb limit n) too_many_requests w')
      decide n w' h same = elim (Bool-cases (ltb limit n)) [
        | inl over ↦ rw over (record {
          at = inl (refl, (h.tables, same), over_limit n limit _ h.value (ltb→lt limit n over));
        })
        | inr within ↦
            rw within
              (record { at = ((h.tables, same), within_limit n limit _ h.value (ground arith)) })
      ]

  -- Fewer attempts than the limits of this minute and this hour; no client address, no limit.
  abbrev pub IsWithinRates : Option String → ℤ → World → Type 0
  IsWithinRates none now w = Unit
  IsWithinRates (some hash) now w =
      (attempts create_minute hash now w <ℤ pos config.create_rate_limit_per_minute)
      × (attempts create_hour hash now w <ℤ pos config.create_rate_limit_per_hour)

  pub IsWithinRates-tables :
      (hash : Option String) (now : ℤ) (w w' : World)
      → tables w' ≡ tables w
      → IsWithinRates hash now w'
      → IsWithinRates hash now w
  IsWithinRates-tables none now w w' same h = tt
  IsWithinRates-tables (some hash) now w w' same h =
      subst
        (λ (t : Tables).
          IsWithinRates (some hash) now (record w { sqlite = record w.sqlite { tables = t } }))
        same h

  abbrev pub PassesCreate : Option String → ℤ → World → World → Type 0
  PassesCreate hash now w w' =
      IsWithinRates hash now w
      × ((tables w').secrets ≡ (tables w).secrets)
      × (w'.metrics ≡ w.metrics)

  hour_apart :
      (hash : String) (now : ℤ) (w w' : World)
      → IsCounted create_minute hash now w w'
      → attempts create_hour hash now w' ≡ attempts create_hour hash now w
  hour_apart hash now w w' h =
      ap
        (λ (t : Tables).
          counter (key create_hour hash) (bucket_for_timestamp create_hour now) t.rate_limits)
        h.0
      ∙ counter-upsert_counter (key create_minute hash) (key create_hour hash) _ _ _
      ∙ (rw (keys_apart hash))

  -- A refusal is the status 429 for an attempt past one of the limits, or a call of SQLite failed.
  abbrev pub RefusesCreate : Option String → ℤ → World → ApiError → Type 0
  RefusesCreate none now w e = ⊥
  RefusesCreate (some hash) now w e =
      ((e ≡ too_many_requests)
        × ((pos config.create_rate_limit_per_minute ≤ℤ attempts create_minute hash now w)
            ⊎ (pos config.create_rate_limit_per_hour ≤ℤ attempts create_hour hash now w)))
      ⊎ Failed fault

  pub RefusesCreate-tables :
      (hash : Option String) (now : ℤ) (w w' : World) (e : ApiError)
      → tables w' ≡ tables w
      → RefusesCreate hash now w' e
      → RefusesCreate hash now w e
  RefusesCreate-tables none now w w' e same h = h
  RefusesCreate-tables (some hash) now w w' e same h =
      subst
        (λ (t : Tables).
          RefusesCreate (some hash) now (record w { sqlite = record w.sqlite { tables = t } }) e)
        same h

  -- On valid tables, a creation passes only if its requester has made fewer attempts than the
  -- limit in this minute and in this hour, and is refused only if one of them is not so or a call
  -- of SQLite fails; without an address there is no limit. Passing or not, neither a secret
  -- nor a metric is touched.
  pub check_create_rate_limit_hook-Ends :
      (hash : Option String) (now : ℤ) (w : World)
      → IsValid (tables w)
      → Ends
          (λ _ w'. PassesCreate hash now w w')
          (λ e w'.
            RefusesCreate hash now w e
            × ((tables w').secrets ≡ (tables w).secrets)
            × (w'.metrics ≡ w.metrics))
          (check_create_rate_limit_hook fault database config hash now w)
  unfolding check_create_rate_limit_hook
  check_create_rate_limit_hook-Ends none now w v = record { at = (tt, refl, refl) }
  check_create_rate_limit_hook-Ends (some hash) now w v =
      Ends-bind _ Untouched
        (count_attempt fault database config create_minute context
          config.create_rate_limit_per_minute hash now)
        (λ _.
          count_attempt fault database config create_hour context config.create_rate_limit_per_hour
            hash now)
        w
        (count_attempt-Ends create_minute context config.create_rate_limit_per_minute hash now w v)
        (λ e w' h. first_refused w' e h)
        λ _ w' h.
          Ends-imp (λ _ w''. PassesCreate (some hash) now w w'') Untouched _
            (count_attempt-Ends create_hour context config.create_rate_limit_per_hour hash now w'
              (counted-IsValid create_minute hash now w w' v h.0))
            (λ _ w'' k. (
              (
                h.1,
                subst (λ z. z <ℤ pos config.create_rate_limit_per_hour)
                    (hour_apart hash now w w' h.0) k.1,
              ),
              (λ i. (k.0.0 i).secrets) ∙ (λ i. (h.0.0 i).secrets),
              k.0.1 ∙ h.0.1,
            ))
            (λ e w'' k. hour_refused w' w'' e h.0 k)
    where
      context : String
      context = "failed to update create rate limit: "

      Untouched : ApiError → World → Type 0
      Untouched e w' =
          RefusesCreate (some hash) now w e
          × ((tables w').secrets ≡ (tables w).secrets)
          × (w'.metrics ≡ w.metrics)

      first_refused :
          (u : World) (e : ApiError)
          → Refuses fault create_minute config.create_rate_limit_per_minute hash now w e u
          → Untouched e u
      first_refused u e (inl (status, same, over)) =
          (inl (status, inl over), (λ i. (same.0 i).secrets), same.1)
      first_refused u e (inr (f, same, m)) = (inr f, (λ i. (same i).secrets), m)

      hour_refused :
          (u u' : World) (e : ApiError)
          → IsCounted create_minute hash now w u
          → Refuses fault create_hour config.create_rate_limit_per_hour hash now u e u'
          → Untouched e u'
      hour_refused u u' e c (inl (status, same, over)) = (
        inl (
          status,
          inr (
              subst (λ z. pos config.create_rate_limit_per_hour ≤ℤ z) (hour_apart hash now w u c)
                over),
        ),
        (λ i. (same.0 i).secrets) ∙ (λ i. (c.0 i).secrets),
        same.1 ∙ c.1,
      )
      hour_refused u u' e c (inr (f, same, m)) =
          (inr f, (λ i. (same i).secrets) ∙ (λ i. (c.0 i).secrets), m ∙ c.1)
