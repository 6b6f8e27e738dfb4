-- ===== src/Db/Connection.antt =====
-- Connections and transactions of src/db.rs. SQLite and the file system are not modelled below the
-- statements: each call of them may fail, as the parameter `fault` says of the n-th call, and a
-- failed call has changed nothing. An error is the text of its outermost context.
use Prim.Native.String.{◌++◌}
use psst_rs.Prelude.{
  ℕ, suc, String, Bool, true, false, Option, none, some, List, [], ◌∷◌, ◌==◌, if◌then◌else◌,
}
use psst_rs.Prelude.Exec.{Result, ok, err, Exec, pure, gets, modify, ◌>>=◌, ◌>>◌}
use psst_rs.Prelude.Text.{is_empty}
use psst_rs.Db.Tables.{Tables}
use psst_rs.Db.Schema.{
  Schema, SchemaStatement, execute, schema_sql, table_columns, add_secrets_column,
}

pub record Sqlite : Type 0 where
  pub tables : Tables
  pub schema : Schema
  pub calls : ℕ

abbrev pub Db : Type 0 → Type 0
Db A = Exec Sqlite String A

-- A `PathBuf`: what `display` prints, and `parent`.
pub record FilePath : Type 0 where
  pub display : String
  pub parent : Option String

pub data OpenFlag : Type 0 where
  read_write create : OpenFlag

pub record Database : Type 0 where
  pub path : FilePath
  pub open_flags : List OpenFlag
  pub busy_timeout : ℕ

-- Seconds.
abbrev pub connection_busy_timeout : ℕ
connection_busy_timeout = 5

-- A failed statement or commit rolls back: the transaction is dropped without a commit.
abbrev pub rolled_back : {A : Type 0} → Tables → Result String A × Sqlite → Result String A × Sqlite
rolled_back tables (ok a, s) = (ok a, s)
rolled_back tables (err e, s) = (err e, record s { tables = tables })

-- A statement that SQLite accepts has changed the schema; one that it refuses has not.
abbrev pub changed_to : String → Option Schema → Db Unit
changed_to context (some schema) s = (ok tt, record s { schema = schema })
changed_to context none s = (err context, s)

unfoldable pub execute_statement : String → SchemaStatement → Db Unit
unfolding execute
execute_statement context statement s = changed_to context (execute statement s.schema) s

module _ (fault : ℕ → Bool) where
  -- One call of the engine or the file system, which fails with its context or succeeds.
  unfoldable pub engine : String → Db Unit
  engine context s =
      (if fault s.calls then err context else ok tt, record s { calls = suc s.calls })

  abbrev pub create_parent : Option String → Db Unit
  create_parent none = pure tt
  create_parent (some parent) =
      if is_empty parent
      then pure tt
      else engine ("failed to create parent directory for SQLite database: " ++ parent)

  -- The loop of `table_has_column` over the rows of `PRAGMA table_info`.
  unfoldable pub find_column : String → List String → Db Bool
  unfolding engine
  find_column column [] = do engine "failed to iterate schema rows"; pure false
  find_column column (name ∷ rows) =
      let rest = find_column column rows in
      do
        engine "failed to iterate schema rows"
        engine "failed to read schema column name"
        if name == column then pure true else rest

  unfoldable pub table_has_column : String → String → Db Bool
  unfolding engine find_column table_columns
  table_has_column table column = do
    engine ("failed to inspect schema for table " ++ table)
    engine ("failed to query schema for table " ++ table)
    columns ← gets (λ s. table_columns table s.schema)
    find_column column columns

  unfoldable pub ensure_secrets_key_digest_column : Db Unit
  unfolding table_has_column add_secrets_column
  ensure_secrets_key_digest_column = do
    present ← table_has_column "secrets" "key_digest"
    if present then pure tt else do
      engine "failed to add secrets.key_digest column"
      modify (λ s. record s { schema = add_secrets_column "key_digest" s.schema })

  unfoldable pub configure_connection : Database → Db Unit
  unfolding engine
  configure_connection database = do
    engine "failed to configure SQLite busy timeout"
    engine "failed to configure SQLite connection pragmas"

  unfoldable pub open_connection : Database → Db Unit
  unfolding configure_connection
  open_connection database = do
    engine ("failed to open SQLite database at " ++ database.path.display)
    configure_connection database

  unfoldable pub ensure_parent_directory : Database → Db Unit
  unfolding engine
  ensure_parent_directory database = create_parent database.path.parent

  -- The statements of a batch one by one. Each is committed on its own, and the first that fails ends
  -- the batch.
  unfoldable pub execute_batch : String → List SchemaStatement → Db Unit
  unfolding engine execute_statement
  execute_batch context [] = pure tt
  execute_batch context (statement ∷ rest) = do
    engine context
    execute_statement context statement
    execute_batch context rest

  unfoldable pub initialize_schema : Database → Db Unit
  unfolding open_connection execute_batch ensure_secrets_key_digest_column
  initialize_schema database = do
    open_connection database
    execute_batch "failed to initialize SQLite schema" schema_sql
    ensure_secrets_key_digest_column

  unfoldable pub with_immediate_transaction : {A : Type 0} → Database → Db A → Db A
  unfolding open_connection
  with_immediate_transaction database operation = do
    open_connection database
    engine "failed to open immediate SQLite transaction"
    λ s.
        rolled_back s.tables
          ((do result ← operation; engine "failed to commit SQLite transaction"; pure result) s)

  unfoldable pub connect : FilePath → Db Database
  unfolding ensure_parent_directory open_connection
  connect database_path = do
    let database : Database = record {
      path = database_path;
      open_flags = read_write ∷ create ∷ [];
      busy_timeout = connection_busy_timeout;
    }
    ensure_parent_directory database
    open_connection database
    pure database

  unfoldable pub bootstrap : FilePath → Db Database
  unfolding connect initialize_schema
  bootstrap database_path = do
    database ← connect database_path
    initialize_schema database
    pure database
