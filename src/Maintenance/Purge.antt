-- ===== src/Maintenance/Purge.antt =====
-- What a pass of src/maintenance.rs deletes and what it keeps.
use psst_rs.Prelude.{
  ℕ, String, ◌≡◌, refl, ap, ◌∙◌, sym, subst, ◌⊎◌, inl, inr, Bool, if◌then◌else◌, count,
}
use psst_rs.Prelude.Int.{ℤ, pos}
use psst_rs.Prelude.Exec.{Result, ok, err, pure, continue, ◌>>=◌}
use psst_rs.RateLimit.{RateLimitBucket, create_minute, create_hour, read_minute, key, key_prefix}
use psst_rs.Db.Tables.{Tables}
use psst_rs.Db.Statements.{is_expired, remaining}
use psst_rs.Db.Connection.{Sqlite, Db, Database}
use psst_rs.Db.Spec.{counter, without, IsValid}
use psst_rs.Db.Validity.{without-IsValid, PurgedCounters-IsValid}
use psst_rs.Db.Store.{delete_expired_secrets}
use psst_rs.Db.Transactions.{Failed, Outcome}
use psst_rs.Db.Writes.{
  Purged, PurgedCounters, delete_expired_secrets-Outcome, delete_rate_limit_buckets_before-Outcome,
}
use psst_rs.Maintenance.Stale.{buckets_to_keep, is_old, stale, all_kinds}
use psst_rs.Maintenance.{MaintenanceRunStats, run_maintenance_pass, purge_rate_limit_buckets}

-- What a pass leaves: the secrets that have not expired, and every counter but the old ones.
pub record Purges (now : ℤ) (t : Tables) (stats : MaintenanceRunStats) (t' : Tables) : Type 0 where
  pub deleted : stats.expired_secrets_deleted ≡ count (is_expired now) t.secrets
  pub secrets : t'.secrets ≡ remaining (is_expired now) t.secrets
  pub valid : IsValid t → IsValid t'
  pub counters :
      (kind : RateLimitBucket) (hash : String) (bucket : ℤ)
      → counter (key kind hash) bucket t'.rate_limits
        ≡ (if is_old kind now bucket then pos 0 else counter (key kind hash) bucket t.rate_limits)

-- What a failed pass leaves of the secrets.
abbrev pub IsPartial : (ℕ → Bool) → ℤ → Tables → Tables → Type 0
IsPartial fault now t t' =
    Failed fault × ((t'.secrets ≡ t.secrets) ⊎ (t'.secrets ≡ remaining (is_expired now) t.secrets))

abbrev pub Leaves :
    {A : Type 0} → (A → Tables → Type 0) → (Tables → Type 0) → Result String A × Sqlite → Type 0
Leaves good bad (ok a, s) = good a s.tables
Leaves good bad (err e, s) = bad s.tables

Leaves-bind :
    {A B : Type 0} (fault : ℕ → Bool) (good : A → Tables → Type 0) (R : B → Tables → Type 0)
    (bad : Tables → Type 0) (m : Db A) (f : A → Db B) (s : Sqlite)
    → Outcome fault s.tables ⊥ good (m s)
    → (Failed fault → bad s.tables)
    → ((a : A) (s' : Sqlite) → good a s'.tables → Leaves R bad (f a s'))
    → Leaves R bad ((m >>= f) s)
Leaves-bind {A} {B} fault good R bad m f s h kept rest = go (m s) h
  where
    go :
        (r : Result String A × Sqlite)
        → Outcome fault s.tables ⊥ good r
        → Leaves R bad (continue f r)
    go (ok a, s') k = rest a s' k
    go (err e, s') (same, inl f) = subst bad (sym same) (kept f)
    go (err e, s') (same, inr never) = absurd never

-- A pass deletes exactly the secrets that have expired, and reports how many; of the counters it
-- deletes exactly those whose bucket is before the window that it keeps of their kind. The tables
-- stay valid. A pass fails only where a call of SQLite does, and then it has deleted all the expired
-- secrets or none.
pub run_maintenance_pass-Purges :
    (fault : ℕ → Bool) (database : Database) (now : ℤ) (s : Sqlite)
    → Leaves
        (Purges now s.tables)
        (IsPartial fault now s.tables)
        (run_maintenance_pass fault database now s)
unfolding run_maintenance_pass purge_rate_limit_buckets
run_maintenance_pass-Purges fault database now s =
    Leaves-bind fault (Purged (is_expired now) s.tables) Good Bad
      (delete_expired_secrets fault database now) minutes s
      (delete_expired_secrets-Outcome fault database now s) (λ f. (f, inl refl))
      λ n s₁ h₁.
        purge create_minute s₁ (λ f. (f, inr (λ i. (h₁.1 i).secrets))) (hours n)
          λ n₂ s₂ h₂.
            purge create_hour s₂ (λ f. (f, inr (swept s₁ h₁.1 s₂.tables h₂.1))) (reads n n₂)
              λ n₃ s₃ h₃.
                let kept : s₃.tables.secrets ≡ remaining (is_expired now) s.tables.secrets =
                  (λ i. (h₃.1 i).secrets) ∙ swept s₁ h₁.1 s₂.tables h₂.1 in
                purge read_minute s₃ (λ f. (f, inr kept)) (finish n n₂ n₃)
                  λ n₄ s₄ h₄. record {
                    deleted = h₁.0;
                    secrets = (λ i. (h₄.1 i).secrets) ∙ kept;
                    valid = λ v. PurgedCounters-IsValid (stale read_minute now) _ _ _ h₄ (
                        PurgedCounters-IsValid (stale create_hour now) _ _ _ h₃ (
                          PurgedCounters-IsValid (stale create_minute now) _ _ _ h₂ (
                            subst IsValid (sym h₁.1)
                              (without-IsValid (is_expired now) s.tables v))));
                    counters = λ kind hash bucket.
                        ap (counter (key kind hash) bucket) (
                          (λ i. (h₄.1 i).rate_limits)
                          ∙ ap (remaining (stale read_minute now)) (
                              (λ i. (h₃.1 i).rate_limits)
                              ∙ ap (remaining (stale create_hour now)) (
                                  (λ i. (h₂.1 i).rate_limits)
                                  ∙ ap (remaining (stale create_minute now))
                                      (λ i. (h₁.1 i).rate_limits))))
                        ∙ all_kinds now s.tables.rate_limits kind hash bucket;
                  }
  where
    Good : MaintenanceRunStats → Tables → Type 0
    Good = Purges now s.tables

    Bad : Tables → Type 0
    Bad = IsPartial fault now s.tables

    finish : ℕ → ℕ → ℕ → ℕ → Db MaintenanceRunStats
    finish n minutes hours reads = pure (record {
      expired_secrets_deleted = n;
      create_minute_buckets_deleted = minutes;
      create_hour_buckets_deleted = hours;
      read_minute_buckets_deleted = reads;
    })

    purged : RateLimitBucket → Db ℕ
    purged kind = purge_rate_limit_buckets fault database kind now (buckets_to_keep kind)

    reads : ℕ → ℕ → ℕ → Db MaintenanceRunStats
    reads n m k = purged read_minute >>= finish n m k

    hours : ℕ → ℕ → Db MaintenanceRunStats
    hours n m = purged create_hour >>= reads n m

    minutes : ℕ → Db MaintenanceRunStats
    minutes n = purged create_minute >>= hours n

    swept :
        (u : Sqlite)
        → u.tables ≡ without (is_expired now) s.tables
        → (t : Tables)
        → t ≡ record u.tables {
          rate_limits = remaining (stale create_minute now) u.tables.rate_limits;
        }
        → t.secrets ≡ remaining (is_expired now) s.tables.secrets
    swept u h t k = (λ i. (k i).secrets) ∙ (λ i. (h i).secrets)

    purge :
        (kind : RateLimitBucket) (u : Sqlite)
        → (Failed fault → Bad u.tables)
        → (f : ℕ → Db MaintenanceRunStats)
        → ((n : ℕ) (u' : Sqlite)
            → PurgedCounters (stale kind now) u.tables n u'.tables
            → Leaves Good Bad (f n u'))
        → Leaves Good Bad
            ((purge_rate_limit_buckets fault database kind now (buckets_to_keep kind) >>= f) u)
    purge kind u bad f rest =
        Leaves-bind fault (PurgedCounters (stale kind now) u.tables) Good Bad
          (purge_rate_limit_buckets fault database kind now (buckets_to_keep kind)) f u
          (delete_rate_limit_buckets_before-Outcome fault database (key_prefix kind) _ u) bad rest
