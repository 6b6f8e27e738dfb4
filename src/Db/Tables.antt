-- ===== src/Db/Tables.antt =====
-- The two tables of src/db.rs, their rows, and the records that the store takes and returns.
use psst_rs.Prelude.{ℕ, String, Option, List}
use psst_rs.Prelude.Int.{ℤ}

-- A row of `secrets`: INTEGER columns hold an `i64`, and a nullable column is an `Option`.
pub record SecretRow : Type 0 where
  pub id : String
  pub ciphertext : String
  pub nonce : String
  pub created_at : ℤ
  pub expires_at : ℤ
  pub consumed_at : Option ℤ
  pub delete_token_hash : String
  pub key_digest : String
  pub size_bytes : ℤ
  pub requester_ip_hash : Option String

-- A row of `rate_limits`.
pub record RateLimitRow : Type 0 where
  pub key : String
  pub bucket : ℤ
  pub count : ℤ

pub record Tables : Type 0 where
  pub secrets : List SecretRow
  pub rate_limits : List RateLimitRow

pub record SecretRecord : Type 0 where
  pub id : String
  pub ciphertext : String
  pub nonce : String
  pub created_at : ℤ
  pub expires_at : ℤ
  pub consumed_at : Option ℤ
  pub delete_token_hash : String
  pub key_digest : String
  pub size_bytes : ℕ
  pub requester_ip_hash : Option String

pub record NewSecretRecord : Type 0 where
  pub id : String
  pub ciphertext : String
  pub nonce : String
  pub created_at : ℤ
  pub expires_at : ℤ
  pub delete_token_hash : String
  pub key_digest : String
  pub size_bytes : ℕ
  pub requester_ip_hash : Option String

pub record ActiveSecretStats : Type 0 where
  pub active_secret_count : ℕ
  pub active_storage_bytes : ℕ

pub data ConsumeSecretResult : Type 0 where
  consumed : SecretRecord → ConsumeSecretResult
  not_found : ConsumeSecretResult
  key_mismatch : ConsumeSecretResult
