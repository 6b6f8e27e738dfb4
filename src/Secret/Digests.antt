-- ===== src/Secret/Digests.antt =====
-- The shapes of what src/secret.rs generates, and the digests that it accepts.
use psst_rs.Prelude.{
  ℕ, String, ◌≡◌, ◌↔◌, refl, true, some, List, length, arith, nat_eq_iff, Option-cases, inl, inr,
}
use psst_rs.Crypto.{Crypto, IsBytes}
use psst_rs.Secret.{
  GeneratedSecretReference, sha256_digest_bytes, generate_random_token, hash_delete_token,
  hash_read_key, is_valid_read_key_digest, generate_secret_reference,
}

-- What `rand::random` promises: as many bytes as the type of its result asks for.
pub record IsGenerator (random : ℕ → List ℕ) : Type 0 where
  pub bytes : (n : ℕ) → IsBytes (random n)
  pub size : (n : ℕ) → length (random n) ≡ n

module _ (crypto : Crypto) where
  open crypto use {encode, decode, sha256, decode-encode, sha256-length, sha256-IsBytes}

  -- A text whose base64url decoding is `n` bytes long.
  pub record Decodes (n : ℕ) (text : String) : Type 0 where
    pub bytes : List ℕ
    pub decoded : decode text ≡ some bytes
    pub size : length bytes ≡ n

  -- An id of 128 bits, a token of 256 bits, and a hash of 256 bits that is the token's.
  pub record IsReference (generated : GeneratedSecretReference) : Type 0 where
    pub id_shape : Decodes 16 generated.secret_id
    pub token_shape : Decodes 32 generated.delete_token
    pub hashed : generated.delete_token_hash ≡ hash_delete_token crypto generated.delete_token
    pub hash_shape : Decodes 32 generated.delete_token_hash

  -- Where the generator returns as many bytes as it is asked for, the id of a generated reference
  -- decodes to 16 bytes, its token to 32 and its hash to 32, and the hash is that of the token.
  pub generate_secret_reference-IsReference :
      (id_bytes token_bytes : ℕ → List ℕ)
      → IsGenerator id_bytes
      → IsGenerator token_bytes
      → IsReference (generate_secret_reference crypto id_bytes token_bytes)
  unfolding generate_secret_reference generate_random_token hash_delete_token
  generate_secret_reference-IsReference id_bytes token_bytes p q = record {
    id_shape = record { bytes = _; decoded = decode-encode _ (p.bytes 16); size = p.size 16 };
    token_shape = record { bytes = _; decoded = decode-encode _ (q.bytes 32); size = q.size 32 };
    hashed = refl;
    hash_shape = record {
      bytes = _;
      decoded = decode-encode _ (sha256-IsBytes _);
      size = sha256-length _;
    };
  }

  -- The digest check accepts exactly the texts that decode to 32 bytes.
  pub is_valid_read_key_digest_iff :
      (text : String)
      → (is_valid_read_key_digest crypto text ≡ true) ↔ Decodes sha256_digest_bytes text
  unfolding is_valid_read_key_digest
  is_valid_read_key_digest_iff text = (
    λ h. elim (Option-cases (decode text)) [
      | inl e ↦ absurd (ground arith)
      | inr (bytes, e) ↦ record { bytes = bytes; decoded = e; size = ground arith }
    ],
    λ d. rw (d.decoded, is_valid_read_key_digest) ((nat_eq_iff _ _).1 d.size),
  )

  -- The server accepts the digest of every read key.
  pub is_valid_read_key_digest-hash_read_key :
      (key : List ℕ) → is_valid_read_key_digest crypto (hash_read_key crypto key) ≡ true
  unfolding is_valid_read_key_digest hash_read_key
  is_valid_read_key_digest-hash_read_key key =
      rw (decode-encode (sha256 key) (sha256-IsBytes key), is_valid_read_key_digest)
        ((nat_eq_iff _ _).1 (sha256-length key))
