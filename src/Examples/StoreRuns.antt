-- ===== src/Examples/StoreRuns.antt =====
-- The theorems on the store of src/db.rs and on maintenance, at the tables of Examples/Data.antt.
use psst_rs.Prelude.{some, ◌≤◌, ◌≡◌, refl, List, [], ◌∷◌, count, none, false}
use psst_rs.Prelude.Int.{pos, ◌<ℤ◌, i64_max}
use psst_rs.Db.Store.{
  insert_secret, consume_unexpired_secret_by_id_and_key_digest, delete_secret_by_id_and_token_hash,
  active_secret_stats, increment_rate_limit_counter,
}
use psst_rs.Db.Spec.{IsValid, read_step, delete_step}
use psst_rs.Db.Transactions.{Outcome}
use psst_rs.Db.Reads.{consume-Outcome}
use psst_rs.Db.Writes.{Inserted, IsRefused, insert_secret-Outcome, delete-Outcome}
use psst_rs.Db.Counters.{Incremented, increment-Outcome}
use psst_rs.Db.Stats.{Counted, active_bytes, active_secret_stats-Outcome}
use psst_rs.Db.Trace.{Call, insert, read, delete, run, perform, ends}
use psst_rs.Db.Trace.Effects.{perform-IsValid}
use psst_rs.Db.Trace.Once.{present, run-at_most_once, run-absent}
use psst_rs.Prelude.Exec.{err}
use psst_rs.Db.Schema.{execute, table_columns, add_secrets_column}
use psst_rs.Db.Connection.{
  Sqlite, initialize_schema, open_connection, configure_connection, engine, execute_batch,
  execute_statement, ensure_secrets_key_digest_column, table_has_column, find_column,
}
use psst_rs.Maintenance.{run_maintenance_pass, maintenance_tick}
use psst_rs.Maintenance.Purge.{Leaves, Purges, IsPartial, run_maintenance_pass-Purges}
use psst_rs.Maintenance.Ticks.{Ticked, maintenance_tick-Ticked}
use psst_rs.Examples.Data.{
  world, no_fault, database, digest, sqlite, filled, filled-IsValid, fresh_record,
}

consume-Outcome_example :
    Outcome no_fault filled ⊥
      (λ r t'. (r, t') ≡ read_step "first" digest (pos 500) filled)
      (consume_unexpired_secret_by_id_and_key_digest no_fault database "first" digest
        (pos 500)
        sqlite)
consume-Outcome_example =
    consume-Outcome no_fault database "first" digest (pos 500) sqlite filled-IsValid

insert_secret-Outcome_example :
    Outcome no_fault filled
      (IsRefused fresh_record filled)
      (λ _ t'. Inserted fresh_record filled t')
      (insert_secret no_fault database fresh_record sqlite)
insert_secret-Outcome_example = insert_secret-Outcome no_fault database fresh_record sqlite

delete-Outcome_example :
    Outcome no_fault filled ⊥
      (λ r t'. (r, t') ≡ delete_step "first" digest filled)
      (delete_secret_by_id_and_token_hash no_fault database "first" digest sqlite)
delete-Outcome_example = delete-Outcome no_fault database "first" digest sqlite

increment-Outcome_example :
    Outcome no_fault filled ⊥
      (Incremented "read-minute:host" (pos 8) filled)
      (increment_rate_limit_counter no_fault database "read-minute:host" (pos 8) sqlite)
increment-Outcome_example =
    increment-Outcome no_fault database "read-minute:host" (pos 8) sqlite filled-IsValid

active_secret_stats-Outcome_example :
    Outcome no_fault filled
      (pos i64_max <ℤ active_bytes (pos 500) filled)
      (Counted (pos 500) filled)
      (active_secret_stats no_fault database (pos 500) sqlite)
active_secret_stats-Outcome_example =
    active_secret_stats-Outcome no_fault database (pos 500) sqlite filled-IsValid

-- Two readers and the owner race for one secret.
abbrev race : List Call
race = read "first" digest (pos 500) ∷ read "first" digest (pos 500) ∷ delete "first" digest ∷ []

perform-IsValid_example : IsValid (perform no_fault database (insert fresh_record) sqlite).1.tables
perform-IsValid_example =
    perform-IsValid no_fault database (insert fresh_record) sqlite filled-IsValid

run_maintenance_pass-Purges_example :
    Leaves
      (Purges (pos 500) filled)
      (IsPartial no_fault (pos 500) filled)
      (run_maintenance_pass no_fault database (pos 500) sqlite)
run_maintenance_pass-Purges_example = run_maintenance_pass-Purges no_fault database (pos 500) sqlite

run-at_most_once_example : count (ends "first") (run no_fault database race sqlite).0 ≤ 1
run-at_most_once_example =
    run-at_most_once "first" no_fault database race sqlite filled-IsValid (refl, (refl, (refl, tt)))

maintenance_tick-Ticked_example :
    Ticked no_fault (pos 500) world (maintenance_tick no_fault database (some (pos 500)) world)
maintenance_tick-Ticked_example =
    maintenance_tick-Ticked no_fault database (pos 500) world filled-IsValid

-- A database from before the column was added.
abbrev legacy : Sqlite
legacy = record sqlite {
  schema = record {
    secrets = some (
        "id" ∷ "ciphertext" ∷ "nonce" ∷ "created_at" ∷ "expires_at" ∷ "consumed_at"
        ∷ "delete_token_hash" ∷ "size_bytes" ∷ "requester_ip_hash" ∷ []);
    rate_limits = some ("key" ∷ "bucket" ∷ "count" ∷ []);
    indexes = "idx_secrets_expires_at" ∷ [];
  };
}

-- A table of that name that the program never made: its index cannot be created.
abbrev stranger : Sqlite
stranger = record sqlite {
  schema = record { secrets = some ("id" ∷ "ciphertext" ∷ []); rate_limits = none; indexes = [] };
}

legacy_columns :
    (initialize_schema no_fault database legacy).1.schema.secrets
    ≡ some (
        "id" ∷ "ciphertext" ∷ "nonce" ∷ "created_at" ∷ "expires_at" ∷ "consumed_at"
        ∷ "delete_token_hash" ∷ "size_bytes" ∷ "requester_ip_hash" ∷ "key_digest" ∷ [])
unfolding initialize_schema open_connection configure_connection engine execute_batch
    execute_statement execute ensure_secrets_key_digest_column table_has_column find_column
    table_columns add_secrets_column
legacy_columns = refl

stranger_refused :
    (initialize_schema no_fault database stranger).0 ≡ err "failed to initialize SQLite schema"
unfolding initialize_schema open_connection configure_connection engine execute_batch
    execute_statement execute
stranger_refused = refl

run-absent_example :
    (count (ends "third") (run no_fault database race sqlite).0 ≡ 0)
    × (present "third" (run no_fault database race sqlite).1.tables ≡ false)
run-absent_example =
    run-absent "third" no_fault database race sqlite filled-IsValid (refl, (refl, (refl, tt))) refl
