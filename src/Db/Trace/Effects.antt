-- ===== src/Db/Trace/Effects.antt =====
-- What one call of the store of src/db.rs may do to the tables.
use Prim.Native.String.{◌++◌}
use psst_rs.Prelude.{ℕ, String, ◌≡◌, refl, subst, sym, inl, inr, Bool, Option}
use psst_rs.Prelude.Exec.{Result, ok, err, pure, continue}
use psst_rs.Db.Tables.{Tables, SecretRecord, ConsumeSecretResult}
use psst_rs.Db.Statements.{is_expired, is_stale}
use psst_rs.Db.Connection.{Sqlite, Database}
use psst_rs.Db.Spec.{IsValid, read_step, delete_step, take_step, without}
use psst_rs.Db.Transactions.{Outcome}
use psst_rs.Db.Reads.{consume-Outcome, take-Outcome}
use psst_rs.Db.Writes.{
  Inserted, PurgedCounters, insert_secret-Outcome, get_secret_by_id-Outcome, delete-Outcome,
  delete_expired_secrets-Outcome, delete_rate_limit_buckets_before-Outcome,
}
use psst_rs.Db.Counters.{Incremented, increment-Outcome}
use psst_rs.Db.Stats.{active_secret_stats-Outcome, rate_limit_count-Outcome}
use psst_rs.Db.Validity.{
  Outcome-tables, without-IsValid, Inserted-IsValid, Incremented-IsValid, PurgedCounters-IsValid,
  read_step-IsValid, delete_step-IsValid, take_step-IsValid,
}
use psst_rs.Db.Trace.{
  Call, insert, get, read, take, delete, purge, stats, hit, peek, sweep, Reply, done, outcome,
  taken, deleted, perform,
}

abbrev pub Effect : Call → Tables → Reply → Tables → Type 0
Effect (insert secret) t r t' = (r ≡ done) × Inserted secret t t'
Effect (read id digest now) t r t' =
    (q : ConsumeSecretResult) × (r ≡ outcome q) × ((q, t') ≡ read_step id digest now t)
Effect (take id now) t r t' =
    (q : Option SecretRecord) × (r ≡ taken q) × ((q, t') ≡ take_step id now t)
Effect (delete id hash) t r t' =
    (q : Option ℕ) × (r ≡ deleted q) × ((q, t') ≡ delete_step id hash t)
Effect (purge now) t r t' = t' ≡ without (is_expired now) t
Effect (hit key bucket) t r t' = (n : ℕ) × Incremented key bucket t n t'
Effect (sweep prefix cutoff) t r t' =
    (n : ℕ) × PurgedCounters (is_stale (prefix ++ ":%") cutoff) t n t'
Effect _ t r t' = t' ≡ t

reply_with :
    {A : Type 0} (f : A → Reply) (fault : ℕ → Bool) (t : Tables) (why : Type 0)
    (good : A → Tables → Type 0) (effect : Reply → Tables → Type 0) (r : Result String A × Sqlite)
    → Outcome fault t why good r
    → ((a : A) (t' : Tables) → good a t' → effect (f a) t')
    → Outcome fault t Unit effect (continue (λ a. pure (f a)) r)
reply_with f fault t why good effect (ok a, s) h keep = keep a s.tables h
reply_with f fault t why good effect (err e, s) (same, inl x) keep = (same, inl x)
reply_with f fault t why good effect (err e, s) (same, inr w) keep = (same, inr tt)

module _ (fault : ℕ → Bool) (database : Database) where
  -- A call has its effect, or returns an error and changes no table.
  pub perform-Outcome :
      (call : Call) (s : Sqlite)
      → IsValid s.tables
      → Outcome fault s.tables Unit (Effect call s.tables) (perform fault database call s)
  unfolding perform
  perform-Outcome (insert secret) s v =
      reply_with _ fault s.tables _ _ (Effect (insert secret) s.tables) _
        (insert_secret-Outcome fault database secret s) (λ a t' h. (refl, h))
  perform-Outcome (get id) s v =
      reply_with _ fault s.tables _ _ (Effect (get id) s.tables) _
        (get_secret_by_id-Outcome fault database id s v) (λ a t' h. h.1)
  perform-Outcome (read id digest now) s v =
      reply_with _ fault s.tables _ _ (Effect (read id digest now) s.tables) _
        (consume-Outcome fault database id digest now s v) (λ a t' h. (a, refl, h))
  perform-Outcome (take id now) s v =
      reply_with _ fault s.tables _ _ (Effect (take id now) s.tables) _
        (take-Outcome fault database id now s v) (λ a t' h. (a, refl, h))
  perform-Outcome (delete id hash) s v =
      reply_with _ fault s.tables _ _ (Effect (delete id hash) s.tables) _
        (delete-Outcome fault database id hash s) (λ a t' h. (a, refl, h))
  perform-Outcome (purge now) s v =
      reply_with _ fault s.tables _ _ (Effect (purge now) s.tables) _
        (delete_expired_secrets-Outcome fault database now s) (λ a t' h. h.1)
  perform-Outcome (stats now) s v =
      reply_with _ fault s.tables _ _ (Effect (stats now) s.tables) _
        (active_secret_stats-Outcome fault database now s v) (λ a t' h. h.unchanged)
  perform-Outcome (hit key bucket) s v =
      reply_with _ fault s.tables _ _ (Effect (hit key bucket) s.tables) _
        (increment-Outcome fault database key bucket s v) (λ a t' h. (a, h))
  perform-Outcome (peek key bucket) s v =
      reply_with _ fault s.tables _ _ (Effect (peek key bucket) s.tables) _
        (rate_limit_count-Outcome fault database key bucket s v) (λ a t' h. h.1)
  perform-Outcome (sweep prefix cutoff) s v =
      reply_with _ fault s.tables _ _ (Effect (sweep prefix cutoff) s.tables) _
        (delete_rate_limit_buckets_before-Outcome fault database prefix cutoff s) (λ a t' h. (a, h))

Effect-IsValid :
    (call : Call) (t : Tables) (r : Reply) (t' : Tables)
    → Effect call t r t'
    → IsValid t
    → IsValid t'
Effect-IsValid (insert secret) t r t' (_, h) v = Inserted-IsValid secret t t' h v
Effect-IsValid (get id) t r t' h v = subst IsValid (sym h) v
Effect-IsValid (stats now) t r t' h v = subst IsValid (sym h) v
Effect-IsValid (peek key bucket) t r t' h v = subst IsValid (sym h) v
Effect-IsValid (read id digest now) t r t' (q, _, h) v =
    subst IsValid (λ i. (sym h i).1) (read_step-IsValid id digest now t v)
Effect-IsValid (take id now) t r t' (q, _, h) v =
    subst IsValid (λ i. (sym h i).1) (take_step-IsValid id now t v)
Effect-IsValid (delete id hash) t r t' (q, _, h) v =
    subst IsValid (λ i. (sym h i).1) (delete_step-IsValid id hash t v)
Effect-IsValid (purge now) t r t' h v = subst IsValid (sym h) (without-IsValid (is_expired now) t v)
Effect-IsValid (hit key bucket) t r t' (n, h) v = Incremented-IsValid key bucket t n t' h v
Effect-IsValid (sweep prefix cutoff) t r t' (n, h) v =
    PurgedCounters-IsValid (is_stale (prefix ++ ":%") cutoff) t n t' h v

-- Every call, failing or not, keeps valid tables valid: unique ids and counters, no half-read
-- secret.
pub perform-IsValid :
    (fault : ℕ → Bool) (database : Database) (call : Call) (s : Sqlite)
    → IsValid s.tables
    → IsValid (perform fault database call s).1.tables
perform-IsValid fault database call s v =
    Outcome-tables IsValid fault s.tables Unit (Effect call s.tables)
      (perform fault database call s) (perform-Outcome fault database call s v)
      (λ r t' h. Effect-IsValid call s.tables r t' h v) v
