-- ===== src/Db/Migration/Steps.antt =====
-- Rules for the calls of SQLite in `initialize_schema` of src/db.rs, whichever of them fail.
use psst_rs.Db.Migration.Settled.{
  has_column, upgraded, is_indexable, has_index, with_index, both_indexes, created, with_secrets,
  upgraded-with_secrets, both_indexes-with_index, both_indexes-both_indexes,
}
use psst_rs.Db.Migration.Statements.{expires_refused, consumes_refused, accepted}
use psst_rs.Prelude.{
  ℕ, String, ◌≡◌, refl, ◌⊎◌, inl, inr, Bool, true, false, ◌||◌, List, [], ◌∷◌, ◌==◌, Bool-cases,
}
use psst_rs.Prelude.Exec.{Result, err, continue, ◌>>=◌}
use psst_rs.Db.Schema.{Schema, create_secrets_index, execute, schema_sql, table_columns, columns_of}
use psst_rs.Db.Connection.{
  Sqlite, Db, engine, execute_statement, execute_batch, find_column, table_has_column,
}
use psst_rs.Db.Transactions.{Failed, engine-step}

module _ (fault : ℕ → Bool) where
  find_column-step :
      {B : Type 0} (P : Result String B × Sqlite → Type 0) (column : String) (rows : List String)
      (k : Bool → Db B) (s : Sqlite)
      → ((e : String) (m : ℕ) → Failed fault → P (err e, record s { calls = m }))
      → ((m : ℕ) → P (k (has_column column rows) (record s { calls = m })))
      → P ((find_column fault column rows >>= k) s)
  unfolding find_column
  find_column-step P column [] k s fails goes =
      engine-step fault (λ r. P (continue k r)) _ _ s (fails _) goes
  find_column-step P column (name ∷ rows) k s fails goes =
      engine-step fault (λ r. P (continue k r)) _ _ s (fails _)
        λ m.
          engine-step fault (λ r. P (continue k r)) _ _ (record s { calls = m }) (fails _)
            λ n. elim (Bool-cases (name == column)) [
              | inl e ↦ rw e (rw e at goes n)
              | inr e ↦ rw e (
                  find_column-step P column rows k (record s { calls = n }) fails
                    (λ o. rw e at goes o))
            ]

  pub table_has_column-step :
      {B : Type 0} (P : Result String B × Sqlite → Type 0) (column : String) (k : Bool → Db B)
      (s : Sqlite)
      → ((e : String) (m : ℕ) → Failed fault → P (err e, record s { calls = m }))
      → ((m : ℕ) → P (k (has_column column (columns_of s.schema.secrets)) (record s { calls = m })))
      → P ((table_has_column fault "secrets" column >>= k) s)
  unfolding table_has_column table_columns
  table_has_column-step P column k s fails goes =
      engine-step fault (λ r. P (continue k r)) _ _ s (fails _)
        λ m.
          engine-step fault (λ r. P (continue k r)) _ _ (record s { calls = m }) (fails _)
            λ n.
              find_column-step P column (columns_of s.schema.secrets) k (record s { calls = n })
                fails goes

  index-step :
      {B : Type 0} (P : Result String B × Sqlite → Type 0) (context name column : String)
      (k : Unit → Db B) (s : Sqlite)
      → ((m : ℕ) → Failed fault → P (err context, record s { calls = m }))
      → ((m : ℕ)
          → has_index name s.schema.indexes ≡ false
          → has_column column (columns_of s.schema.secrets) ≡ false
          → P (err context, record s { calls = m }))
      → ((m : ℕ)
          → (has_index name s.schema.indexes || has_column column (columns_of s.schema.secrets))
            ≡ true
          → P (
              k tt (record s {
                calls = m;
                schema = record s.schema { indexes = with_index name s.schema.indexes };
              })))
      → P (
          (engine fault context >>= λ _.
          execute_statement context (create_secrets_index name column) >>= k)
            s)
  unfolding execute_statement execute
  index-step P context name column k s fails refused goes =
      engine-step fault P context _ s fails λ m.
        elim (Bool-cases (has_index name s.schema.indexes)) [
          | inl e ↦ rw e (rw e at goes m refl)
          | inr e ↦ elim (Bool-cases (has_column column (columns_of s.schema.secrets))) [
            | inl h ↦ rw (e, h) (rw e at goes m h)
            | inr h ↦ rw (e, h) (refused m e h)
          ]
        ]

  -- The batch ends early only of a failed call or for an index that has no column, and wherever it
  -- ends, an upgrade of what it leaves is one of what it found.
  pub schema_sql-step :
      {B : Type 0} (P : Result String B × Sqlite → Type 0) (context : String) (k : Unit → Db B)
      (s : Sqlite)
      → ((x : Schema) (m : ℕ)
          → upgraded x ≡ upgraded s.schema
          → Failed fault ⊎ (is_indexable s.schema ≡ false)
          → P (err context, record s { calls = m; schema = x }))
      → ((m : ℕ)
          → is_indexable s.schema ≡ true
          → P (k tt (record s { calls = m; schema = created s.schema })))
      → P ((execute_batch fault context schema_sql >>= k) s)
  unfolding execute_batch execute_statement execute
  schema_sql-step {B} P context k s stops goes =
      engine-step fault Q context _ s (λ m f. stops s.schema m refl (inl f))
        λ m.
          index-step Q context "idx_secrets_expires_at" "expires_at" _
            (record s { calls = m; schema = with_secrets indexes s.schema })
            (λ n f. stops (with_secrets indexes s.schema) n first (inl f))
            (λ n h c.
              stops (with_secrets indexes s.schema) n first (inr (expires_refused s.schema h c)))
            λ n h.
              index-step Q context "idx_secrets_consumed_at" "consumed_at" _
                (record s { calls = n; schema = with_secrets expires s.schema })
                (λ o f. stops (with_secrets expires s.schema) o second (inl f))
                (λ o h' c.
                  stops (with_secrets expires s.schema) o second
                    (inr (consumes_refused s.schema h' c)))
                λ o h'.
                  engine-step fault Q context _
                    (record s { calls = o; schema = with_secrets (both_indexes indexes) s.schema })
                    (λ q f. stops (with_secrets (both_indexes indexes) s.schema) q third (inl f))
                    λ q. goes q (accepted s.schema h h')
    where
      Q : Result String Unit × Sqlite → Type 0
      Q r = P (continue k r)

      indexes : List String
      indexes = s.schema.indexes

      expires : List String
      expires = with_index "idx_secrets_expires_at" indexes

      first : upgraded (with_secrets indexes s.schema) ≡ upgraded s.schema
      first = upgraded-with_secrets indexes s.schema refl

      second : upgraded (with_secrets expires s.schema) ≡ upgraded s.schema
      second = upgraded-with_secrets expires s.schema (both_indexes-with_index indexes)

      third : upgraded (with_secrets (both_indexes indexes) s.schema) ≡ upgraded s.schema
      third =
          upgraded-with_secrets (both_indexes indexes) s.schema (both_indexes-both_indexes indexes)
