-- ===== src/Db/Statements.antt =====
-- The SQL statements of src/db.rs, as functions on the tables.
use psst_rs.Prelude.{
  String, Bool, true, false, not, ◌&&◌, Option, none, some, List, [], ◌∷◌, ◌==◌, select,
  if◌then◌else◌,
}
use psst_rs.Prelude.Int.{ℤ, pos, ◌+ℤ◌, ltb_ℤ, eq_ℤ}
use psst_rs.Prelude.Text.{codes, like}
use psst_rs.Db.Tables.{SecretRow, RateLimitRow}

-- `consumed_at IS NULL`
abbrev pub is_null : Option ℤ → Bool
is_null none = true
is_null (some t) = false

-- `WHERE id = ?1`
abbrev pub has_id : String → SecretRow → Bool
has_id secret_id row = row.id == secret_id

-- `WHERE expires_at > ?1 AND consumed_at IS NULL`
abbrev pub is_active : ℤ → SecretRow → Bool
is_active now_timestamp row = ltb_ℤ now_timestamp row.expires_at && is_null row.consumed_at

-- `WHERE id = ?1 AND expires_at > ?2 AND consumed_at IS NULL`
abbrev pub is_readable : String → ℤ → SecretRow → Bool
is_readable secret_id now_timestamp row = has_id secret_id row && is_active now_timestamp row

-- `WHERE id = ?1 AND delete_token_hash = ?2`
abbrev pub is_owned : String → String → SecretRow → Bool
is_owned secret_id hash row = has_id secret_id row && row.delete_token_hash == hash

-- `WHERE expires_at <= ?1`
abbrev pub is_expired : ℤ → SecretRow → Bool
is_expired now_timestamp row = not (ltb_ℤ now_timestamp row.expires_at)

-- `WHERE key = ?1 AND bucket = ?2`
abbrev pub is_counter : String → ℤ → RateLimitRow → Bool
is_counter key bucket row = row.key == key && eq_ℤ row.bucket bucket

-- `WHERE key LIKE ?1 AND bucket < ?2`
abbrev pub is_stale : String → ℤ → RateLimitRow → Bool
is_stale pattern cutoff_bucket row =
    like (codes pattern) (codes row.key) && ltb_ℤ row.bucket cutoff_bucket

-- `DELETE FROM … WHERE p`: the rows that stay, and the number of deleted ones.
abbrev pub remaining {ℓ} : {A : Type ℓ} → (A → Bool) → List A → List A
remaining p = select (λ row. not (p row))

-- `COALESCE(SUM(size_bytes), 0)`
unfoldable pub sum_size_bytes : List SecretRow → ℤ
sum_size_bytes [] = pos 0
sum_size_bytes (row ∷ rows) = row.size_bytes +ℤ sum_size_bytes rows

-- `INSERT … ON CONFLICT(key, bucket) DO UPDATE SET count = count + 1`
unfoldable pub upsert_counter : String → ℤ → List RateLimitRow → List RateLimitRow
upsert_counter key bucket [] = record { key = key; bucket = bucket; count = pos 1 } ∷ []
upsert_counter key bucket (row ∷ rows) =
    if is_counter key bucket row
    then record row { count = row.count +ℤ pos 1 } ∷ rows
    else row ∷ upsert_counter key bucket rows
