-- ===== src/Db/Spec.antt =====
-- What the store of src/db.rs promises: each method as one atomic step on the tables, with no
-- connection, no transaction and no failure.
use psst_rs.Prelude.{
  ℕ, String, ◌≡◌, Bool, ◌||◌, Option, none, some, List, ◌==◌, first, All, Distinct, if◌then◌else◌,
}
use psst_rs.Prelude.Int.{ℤ, pos, ◌≤ℤ◌}
use psst_rs.Prelude.Text.{is_empty}
use psst_rs.Db.Tables.{
  SecretRow, RateLimitRow, Tables, SecretRecord, ConsumeSecretResult, consumed, not_found,
  key_mismatch,
}
use psst_rs.Db.Statements.{has_id, is_readable, is_owned, is_counter, remaining}
use psst_rs.Db.Store.{size_or_zero}

abbrev pub same_id : SecretRow → SecretRow → Bool
same_id row other = has_id row.id other

abbrev pub same_counter : RateLimitRow → RateLimitRow → Bool
same_counter row other = is_counter row.key row.bucket other

-- A row that no read has marked and whose size is not negative.
pub record IsStored (row : SecretRow) : Type 0 where
  pub unconsumed : row.consumed_at ≡ none
  pub sized : pos 0 ≤ℤ row.size_bytes

-- The tables that the program keeps: both primary keys hold, no secret is half consumed, and a
-- counter has counted something.
pub record IsValid (t : Tables) : Type 0 where
  pub ids : Distinct same_id t.secrets
  pub stored : All IsStored t.secrets
  pub counters : Distinct same_counter t.rate_limits
  pub counted : All (λ row. pos 1 ≤ℤ row.count) t.rate_limits

abbrev pub record_of : SecretRow → SecretRecord
record_of row = record {
  id = row.id;
  ciphertext = row.ciphertext;
  nonce = row.nonce;
  created_at = row.created_at;
  expires_at = row.expires_at;
  consumed_at = row.consumed_at;
  delete_token_hash = row.delete_token_hash;
  key_digest = row.key_digest;
  size_bytes = size_or_zero row.size_bytes;
  requester_ip_hash = row.requester_ip_hash;
}

abbrev pub without : (SecretRow → Bool) → Tables → Tables
without p t = record t { secrets = remaining p t.secrets }

-- A row without a digest, from before the column was added, opens with any.
abbrev pub opens : SecretRow → String → Bool
opens row digest = is_empty row.key_digest || row.key_digest == digest

-- A read: the secret is handed out and gone, or nothing changes.
abbrev pub read_found : String → String → Tables → Option SecretRow → ConsumeSecretResult × Tables
read_found id digest t none = (not_found, t)
read_found id digest t (some row) =
    if opens row digest
    then (consumed (record_of row), without (has_id id) t)
    else (key_mismatch, t)

unfoldable pub read_step : String → String → ℤ → Tables → ConsumeSecretResult × Tables
read_step id digest now t = read_found id digest t (first (is_readable id now) t.secrets)

-- The owner's deletion.
abbrev pub delete_found : String → String → Tables → Option SecretRow → Option ℕ × Tables
delete_found id hash t none = (none, t)
delete_found id hash t (some row) =
    (some (size_or_zero row.size_bytes), without (is_owned id hash) t)

unfoldable pub delete_step : String → String → Tables → Option ℕ × Tables
delete_step id hash t = delete_found id hash t (first (is_owned id hash) t.secrets)

-- The value of a counter, 0 where there is none.
abbrev pub count_in : Option RateLimitRow → ℤ
count_in none = pos 0
count_in (some row) = row.count

unfoldable pub counter : String → ℤ → List RateLimitRow → ℤ
counter key bucket rows = count_in (first (is_counter key bucket) rows)

-- A read that asks for no key.
abbrev pub take_found : String → Tables → Option SecretRow → Option SecretRecord × Tables
take_found id t none = (none, t)
take_found id t (some row) = (some (record_of row), without (has_id id) t)

unfoldable pub take_step : String → ℤ → Tables → Option SecretRecord × Tables
take_step id now t = take_found id t (first (is_readable id now) t.secrets)
