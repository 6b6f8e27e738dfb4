-- ===== src/Db/Writes.antt =====
-- `insert_secret`, `get_secret_by_id`, the owner's deletion and the purges of src/db.rs, whichever
-- calls of SQLite fail.
use Prim.Native.String.{◌++◌}
use psst_rs.Prelude.{
  ℕ, String, ◌≡◌, refl, ◌<◌, ◌≤◌, ◌⊎◌, inl, inr, Bool, true, false, Option, none, some, ◌∷◌, arith,
  first, count, any, first-All, Bool-cases, leb, leb→le,
}
use psst_rs.Prelude.Int.{ℤ, pos, i64_max}
use psst_rs.Prelude.Exec.{Result}
use psst_rs.Db.Tables.{SecretRow, RateLimitRow, Tables, SecretRecord, NewSecretRecord}
use psst_rs.Db.Statements.{has_id, is_owned, is_expired, is_stale, remaining}
use psst_rs.Db.Connection.{Sqlite, Database}
use psst_rs.Db.Store.{
  map_secret_row, new_row, read_row, insert_secret, get_secret_by_id, delete_owned,
  delete_secret_by_id_and_token_hash, delete_expired_secrets, delete_rate_limit_buckets_before,
}
use psst_rs.Db.Spec.{IsStored, IsValid, record_of, without, delete_found, delete_step}
use psst_rs.Db.Transactions.{
  Outcome, Inner, engine-step, open-step, statement-step, transaction-step,
}
use psst_rs.Db.Reads.{map_secret_row-eq, delete_secrets-step}

-- Why an insertion is refused by the tables or the record.
abbrev pub IsRefused : NewSecretRecord → Tables → Type 0
IsRefused secret t = (any (has_id secret.id) t.secrets ≡ true) ⊎ (i64_max < secret.size_bytes)

pub record Inserted (secret : NewSecretRecord) (t t' : Tables) : Type 0 where
  pub fits : secret.size_bytes ≤ i64_max
  pub fresh : any (has_id secret.id) t.secrets ≡ false
  pub added : t' ≡ record t { secrets = new_row secret (pos secret.size_bytes) ∷ t.secrets }

abbrev pub lookup : String → Tables → Option SecretRecord
lookup id t = elim (first (has_id id) t.secrets) [ none ↦ none | some row ↦ some (record_of row) ]

-- A purge: how many rows it deleted, and what it left.
abbrev pub Purged : (SecretRow → Bool) → Tables → ℕ → Tables → Type 0
Purged p t n t' = (n ≡ count p t.secrets) × (t' ≡ without p t)

abbrev pub PurgedCounters : (RateLimitRow → Bool) → Tables → ℕ → Tables → Type 0
PurgedCounters p t n t' =
    (n ≡ count p t.rate_limits) × (t' ≡ record t { rate_limits = remaining p t.rate_limits })

abbrev pub Found : String → Tables → Option SecretRecord → Tables → Type 0
Found id t r t' = (r ≡ lookup id t) × (t' ≡ t)

module _ (fault : ℕ → Bool) (database : Database) where
  -- An insertion writes the given secret as an unread row, or returns an error and changes nothing;
  -- it does so only after a failed call, for an id that is taken or for a size above an `i64`.
  pub insert_secret-Outcome :
      (secret : NewSecretRecord) (s : Sqlite)
      → Outcome fault s.tables
          (IsRefused secret s.tables)
          (λ _ t'. Inserted secret s.tables t')
          (insert_secret fault database secret s)
  unfolding insert_secret
  insert_secret-Outcome secret s =
      open-step fault database Inserts _ s (λ e m f. (refl, inl f))
        λ m. elim (Bool-cases (leb secret.size_bytes i64_max)) [
          | inr e ↦ rw e (refl, inr (inr (ground arith)))
          | inl fits ↦ rw fits (
              engine-step fault Inserts _ _ (record s { calls = m }) (λ n f. (refl, inl f))
                λ n. elim (Bool-cases (any (has_id secret.id) s.tables.secrets)) [
                  | inl e ↦ rw e (refl, inr (inl refl))
                  | inr e ↦ rw e (record { fits = leb→le _ _ fits; fresh = e; added = refl })
                ])
        ]
    where
      Inserts : Result String Unit × Sqlite → Type 0
      Inserts =
          Outcome fault s.tables (IsRefused secret s.tables) (λ _ t'. Inserted secret s.tables t')

  -- A lookup returns the row of its id, and changes nothing.
  pub get_secret_by_id-Outcome :
      (id : String) (s : Sqlite)
      → IsValid s.tables
      → Outcome fault s.tables ⊥ (Found id s.tables) (get_secret_by_id fault database id s)
  unfolding get_secret_by_id
  get_secret_by_id-Outcome id s v =
      statement-step fault database (Outcome fault s.tables ⊥ (Found id s.tables)) _ _ s
        (λ e m f. (refl, inl f))
        λ n. found (first (has_id id) s.tables.secrets) refl (record s { calls = n }) refl
    where
      found :
          (o : Option SecretRow)
          → first (has_id id) s.tables.secrets ≡ o
          → (s' : Sqlite) → s'.tables ≡ s.tables
          → Outcome fault s.tables ⊥
              (λ r t'.
                (r ≡ elim o [ none ↦ none | some row ↦ some (record_of row) ]) × (t' ≡ s.tables))
              (read_row "failed to load secret record" map_secret_row o s')
      found none e s' h = (refl, h)
      found (some row) e s' h =
          rw (map_secret_row-eq row (first-All IsStored _ s.tables.secrets row v.stored e))
            (refl, h)

  -- The owner's deletion is one atomic step: it deletes a row only for the id and the hash of the
  -- row's token, and answers with its size.
  pub delete-Outcome :
      (id hash : String) (s : Sqlite)
      → Outcome fault s.tables ⊥
          (λ r t'. (r, t') ≡ delete_step id hash s.tables)
          (delete_secret_by_id_and_token_hash fault database id hash s)
  unfolding delete_secret_by_id_and_token_hash delete_step
  delete-Outcome id hash s = transaction-step fault database ⊥ _ _ s λ m.
      engine-step fault (Inner fault ⊥ (λ r t'. (r, t') ≡ delete_step id hash s.tables)) _ _
        (record s { calls = m }) (λ n f. inl f)
        λ n. found (first (is_owned id hash) s.tables.secrets) (record s { calls = n })
    where
      found :
          (o : Option SecretRow) (s' : Sqlite)
          → Inner fault ⊥
              (λ r t'. (r, t') ≡ delete_found id hash s'.tables o)
              (delete_owned fault database id hash o s')
      found none s' = refl
      found (some row) s' =
          delete_secrets-step fault
            (Inner fault ⊥ (λ r t'. (r, t') ≡ delete_found id hash s'.tables (some row))) _ _ _ s'
            (λ m f. inl f) (λ m. refl)

  -- The purge of expired secrets deletes exactly the rows whose time has come, and counts them.
  pub delete_expired_secrets-Outcome :
      (now : ℤ) (s : Sqlite)
      → Outcome fault s.tables ⊥
          (Purged (is_expired now) s.tables)
          (delete_expired_secrets fault database now s)
  unfolding delete_expired_secrets
  delete_expired_secrets-Outcome now s =
      statement-step fault database (Outcome fault s.tables ⊥ (Purged (is_expired now) s.tables)) _
        _ s (λ e m f. (refl, inl f)) (λ n. (refl, refl))

  -- The purge of counters deletes exactly the rows of its prefix with an older bucket.
  pub delete_rate_limit_buckets_before-Outcome :
      (prefix : String) (cutoff : ℤ) (s : Sqlite)
      → Outcome fault s.tables ⊥
          (PurgedCounters (is_stale (prefix ++ ":%") cutoff) s.tables)
          (delete_rate_limit_buckets_before fault database prefix cutoff s)
  unfolding delete_rate_limit_buckets_before
  delete_rate_limit_buckets_before-Outcome prefix cutoff s =
      statement-step fault database
        (Outcome fault s.tables ⊥ (PurgedCounters (is_stale (prefix ++ ":%") cutoff) s.tables)) _ _
        s (λ e m f. (refl, inl f)) (λ n. (refl, refl))
