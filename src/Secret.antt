-- ===== src/Secret.antt =====
-- src/secret.rs: the requests and responses, the identifiers and tokens, the digests and the TTLs.
-- The generator is an argument: what `rand::random` returns for a number of bytes.
pub mod Digests
pub mod Ttl
use psst_rs.Prelude.{
  ℕ, ◌*◌, nat_eq, String, Bool, true, false, Option, none, some, List, [], ◌∷◌, length, any,
}
use psst_rs.Prelude.Text.{as_bytes}
use psst_rs.Crypto.{Crypto}

abbrev pub secret_id_bytes : ℕ
secret_id_bytes = 16

abbrev pub delete_token_bytes : ℕ
delete_token_bytes = 32

abbrev pub sha256_digest_bytes : ℕ
sha256_digest_bytes = 32

abbrev pub allowed_ttl_seconds : List ℕ
allowed_ttl_seconds = (15 * 60) ∷ (60 * 60) ∷ (24 * 60 * 60) ∷ (7 * 24 * 60 * 60) ∷ []

pub record CreateSecretRequest : Type 0 where
  pub ciphertext : String
  pub nonce : String
  pub key_digest : String
  pub expires_in_seconds : ℕ
  pub turnstile_token : String

pub record CreateSecretResponse : Type 0 where
  pub id : String
  pub delete_token : String

pub record ReadSecretResponse : Type 0 where
  pub ciphertext : String
  pub nonce : String

pub record DeleteSecretRequest : Type 0 where
  pub delete_token : String

pub record DeleteSecretResponse : Type 0 where
  pub deleted : Bool

pub record GeneratedSecretReference : Type 0 where
  pub secret_id : String
  pub delete_token : String
  pub delete_token_hash : String

unfoldable pub is_allowed_ttl : ℕ → Bool
is_allowed_ttl ttl_seconds = any (nat_eq ttl_seconds) allowed_ttl_seconds

module _ (crypto : Crypto) where
  open crypto use {encode, decode, sha256}

  unfoldable pub hash_delete_token : String → String
  hash_delete_token delete_token = encode (sha256 (as_bytes delete_token))

  unfoldable pub hash_read_key : List ℕ → String
  hash_read_key key_bytes = encode (sha256 key_bytes)

  unfoldable pub is_valid_read_key_digest : String → Bool
  is_valid_read_key_digest key_digest = elim (decode key_digest) [
    | some bytes ↦ nat_eq (length bytes) sha256_digest_bytes
    | none ↦ false
  ]

  -- `generate_random_token::<N>()`; `random` is what its call of `rand::random` returns.
  unfoldable pub generate_random_token : ℕ → (ℕ → List ℕ) → String
  generate_random_token n random = encode (random n)

  -- Each of the two calls of the generator has an argument of its own.
  unfoldable pub generate_secret_reference : (ℕ → List ℕ) → (ℕ → List ℕ) → GeneratedSecretReference
  unfolding generate_random_token
  generate_secret_reference id_bytes token_bytes =
      let delete_token = generate_random_token delete_token_bytes token_bytes in
      record {
        secret_id = generate_random_token secret_id_bytes id_bytes;
        delete_token = delete_token;
        delete_token_hash = hash_delete_token delete_token;
      }
