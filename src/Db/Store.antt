-- ===== src/Db/Store.antt =====
-- The methods of `SecretStore`, src/db.rs.
use Prim.Native.String.{◌++◌}
use psst_rs.Prelude.{
  ℕ, String, Bool, not, ◌&&◌, Option, none, some, List, ◌∷◌, ◌==◌, length, select, first, count,
  any, nat_eq, if◌then◌else◌,
}
use psst_rs.Prelude.Int.{ℤ, pos, ltb_ℤ, i64_max, i64_try_from, u64_try_from}
use psst_rs.Prelude.Text.{is_empty}
use psst_rs.Prelude.Exec.{pure, raise, raise_if, gets, modify, ok_or, ◌>>=◌, ◌>>◌}
use psst_rs.Db.Tables.{
  SecretRow, RateLimitRow, SecretRecord, NewSecretRecord, ActiveSecretStats, ConsumeSecretResult,
  consumed, not_found, key_mismatch,
}
use psst_rs.Db.Statements.{
  is_active, has_id, is_readable, is_owned, is_expired, is_counter, is_stale, remaining,
  sum_size_bytes, upsert_counter,
}
use psst_rs.Db.Connection.{
  Sqlite, Db, Database, engine, open_connection, with_immediate_transaction,
}

-- `map_secret_row`; `none` is a negative size, which the query reports as its error.
unfoldable pub map_secret_row : SecretRow → Option SecretRecord
map_secret_row row = elim (u64_try_from row.size_bytes) [
  | none ↦ none
  | some size_bytes ↦ some (record {
    id = row.id;
    ciphertext = row.ciphertext;
    nonce = row.nonce;
    created_at = row.created_at;
    expires_at = row.expires_at;
    consumed_at = row.consumed_at;
    delete_token_hash = row.delete_token_hash;
    key_digest = row.key_digest;
    size_bytes = size_bytes;
    requester_ip_hash = row.requester_ip_hash;
  })
]

-- The row that `insert_secret` writes.
abbrev pub new_row : NewSecretRecord → ℤ → SecretRow
new_row secret size_bytes = record {
  id = secret.id;
  ciphertext = secret.ciphertext;
  nonce = secret.nonce;
  created_at = secret.created_at;
  expires_at = secret.expires_at;
  consumed_at = none;
  delete_token_hash = secret.delete_token_hash;
  key_digest = secret.key_digest;
  size_bytes = size_bytes;
  requester_ip_hash = secret.requester_ip_hash;
}

abbrev pub with_secrets : List SecretRow → Sqlite → Sqlite
with_secrets rows s = record s { tables = record s.tables { secrets = rows } }

abbrev pub with_rate_limits : List RateLimitRow → Sqlite → Sqlite
with_rate_limits rows s = record s { tables = record s.tables { rate_limits = rows } }

-- `query_row(…).optional()`: the first row that passes, read by `f`, which may refuse it.
abbrev pub read_row : {R A : Type 0} → String → (R → Option A) → Option R → Db (Option A)
read_row context f none = pure none
read_row context f (some row) = do a ← ok_or (f row) context; pure (some a)

-- `DELETE FROM secrets WHERE p`, with the number of rows deleted.
abbrev pub delete_secrets : (ℕ → Bool) → String → (SecretRow → Bool) → Db ℕ
delete_secrets fault context p = do
  engine fault context
  deleted ← gets (λ s. count p s.tables.secrets)
  modify (λ s. with_secrets (remaining p s.tables.secrets) s)
  pure deleted

-- The query that `consume_…` opens with.
abbrev pub load_readable : (ℕ → Bool) → String → String → ℤ → Db (Option SecretRecord)
load_readable fault context secret_id now_timestamp = do
  engine fault context
  row ← gets (λ s. first (is_readable secret_id now_timestamp) s.tables.secrets)
  read_row context map_secret_row row

-- `Some(u64::try_from(size_bytes).unwrap_or(0))`
abbrev pub size_or_zero : ℤ → ℕ
size_or_zero (pos n) = n
size_or_zero _ = 0

module _ (fault : ℕ → Bool) (database : Database) where
  unfoldable pub insert_secret : NewSecretRecord → Db Unit
  unfolding open_connection
  insert_secret secret = do
    open_connection fault database
    size_bytes ← ok_or (i64_try_from secret.size_bytes) "secret size exceeds SQLite integer range"
    engine fault "failed to insert secret record"
    taken ← gets (λ s. any (has_id secret.id) s.tables.secrets)
    raise_if taken "failed to insert secret record"
    modify (λ s. with_secrets (new_row secret size_bytes ∷ s.tables.secrets) s)

  unfoldable pub get_secret_by_id : String → Db (Option SecretRecord)
  unfolding open_connection map_secret_row
  get_secret_by_id secret_id = do
    open_connection fault database
    engine fault "failed to load secret record"
    row ← gets (λ s. first (has_id secret_id) s.tables.secrets)
    read_row "failed to load secret record" map_secret_row row

  unfoldable pub delete_owned : String → String → Option SecretRow → Db (Option ℕ)
  delete_owned secret_id delete_token_hash none = pure none
  delete_owned secret_id delete_token_hash (some row) = do
    delete_secrets fault "failed to delete secret record" (is_owned secret_id delete_token_hash)
    pure (some (size_or_zero row.size_bytes))

  unfoldable pub delete_secret_by_id_and_token_hash : String → String → Db (Option ℕ)
  unfolding with_immediate_transaction delete_owned
  delete_secret_by_id_and_token_hash secret_id delete_token_hash =
      with_immediate_transaction fault database (do
        engine fault "failed to query secret before deletion"
        row ← gets (λ s. first (is_owned secret_id delete_token_hash) s.tables.secrets)
        delete_owned secret_id delete_token_hash row)

  unfoldable pub delete_expired_secrets : ℤ → Db ℕ
  unfolding open_connection
  delete_expired_secrets now_timestamp = do
    open_connection fault database
    delete_secrets fault "failed to purge expired secrets" (is_expired now_timestamp)

  -- `SUM` fails on an overflow of its 64 bits.
  unfoldable pub active_secret_stats : ℤ → Db ActiveSecretStats
  unfolding open_connection
  active_secret_stats now_timestamp = do
    open_connection fault database
    engine fault "failed to load active secret stats"
    rows ← gets (λ s. select (is_active now_timestamp) s.tables.secrets)
    let total : ℤ = sum_size_bytes rows
    raise_if (ltb_ℤ (pos i64_max) total) "failed to load active secret stats"
    bytes ← ok_or (u64_try_from total) "failed to load active secret stats"
    pure (record { active_secret_count = length rows; active_storage_bytes = bytes })

  unfoldable pub rate_limit_count : String → ℤ → Db ℕ
  unfolding open_connection
  rate_limit_count key bucket = do
    open_connection fault database
    engine fault "failed to load rate limit count"
    row ← gets (λ s. first (is_counter key bucket) s.tables.rate_limits)
    found ←
        read_row "failed to load rate limit count" (λ (r : RateLimitRow). u64_try_from r.count) row
    pure (elim found [ none ↦ 0 | some n ↦ n ])

  unfoldable pub read_counter : Option RateLimitRow → Db ℕ
  read_counter none = raise "failed to read incremented rate limit bucket"
  read_counter (some row) =
      ok_or (u64_try_from row.count) "rate limit count exceeds supported range"

  unfoldable pub increment_rate_limit_counter : String → ℤ → Db ℕ
  unfolding with_immediate_transaction read_counter upsert_counter
  increment_rate_limit_counter key bucket = with_immediate_transaction fault database (do
    engine fault "failed to increment rate limit bucket"
    modify (λ s. with_rate_limits (upsert_counter key bucket s.tables.rate_limits) s)
    engine fault "failed to read incremented rate limit bucket"
    row ← gets (λ s. first (is_counter key bucket) s.tables.rate_limits)
    read_counter row)

  unfoldable pub delete_rate_limit_buckets_before : String → ℤ → Db ℕ
  unfolding open_connection
  delete_rate_limit_buckets_before key_prefix cutoff_bucket = do
    open_connection fault database
    engine fault "failed to purge old rate limit buckets"
    let stale : RateLimitRow → Bool = is_stale (key_prefix ++ ":%") cutoff_bucket
    deleted ← gets (λ s. count stale s.tables.rate_limits)
    modify (λ s. with_rate_limits (remaining stale s.tables.rate_limits) s)
    pure deleted

  unfoldable pub consume_found : String → Option SecretRecord → Db (Option SecretRecord)
  consume_found secret_id none = pure none
  consume_found secret_id (some secret) = do
    deleted_rows ← delete_secrets fault "failed to delete consumed secret" (has_id secret_id)
    raise_if (not (nat_eq deleted_rows 1))
        "expected to delete exactly one secret during consumption"
    pure (some secret)

  unfoldable pub consume_unexpired_secret_by_id : String → ℤ → Db (Option SecretRecord)
  unfolding with_immediate_transaction map_secret_row consume_found
  consume_unexpired_secret_by_id secret_id now_timestamp =
      with_immediate_transaction fault database (do
        secret ← load_readable fault "failed to load secret for consumption" secret_id now_timestamp
        consume_found secret_id secret)

  -- The guard of a keyed read: `!secret.key_digest.is_empty() && secret.key_digest != key_digest`.
  unfoldable pub consume_keyed : String → String → Option SecretRecord → Db ConsumeSecretResult
  consume_keyed secret_id key_digest none = pure not_found
  consume_keyed secret_id key_digest (some secret) =
      if not (is_empty secret.key_digest) && not (secret.key_digest == key_digest)
      then pure key_mismatch
      else do
        deleted_rows ← delete_secrets fault "failed to delete consumed secret" (has_id secret_id)
        raise_if (not (nat_eq deleted_rows 1))
            "expected to delete exactly one secret during keyed consumption"
        pure (consumed secret)

  unfoldable pub consume_unexpired_secret_by_id_and_key_digest :
      String → String → ℤ → Db ConsumeSecretResult
  unfolding with_immediate_transaction map_secret_row consume_keyed
  consume_unexpired_secret_by_id_and_key_digest secret_id key_digest now_timestamp =
      with_immediate_transaction fault database (do
        secret ←
            load_readable fault "failed to load secret for keyed consumption" secret_id
              now_timestamp
        consume_keyed secret_id key_digest secret)
