-- ===== src/Http/Validate/Accepts.antt =====
-- Which creation requests and read headers src/http.rs accepts.
use psst_rs.Prelude.{◌≤◌, String, ◌≡◌, ◌↔◌, true, false, some, arith}
use psst_rs.Prelude.Text.{is_empty, len}
use psst_rs.Prelude.Exec.{ok}
use psst_rs.Crypto.{Crypto}
use psst_rs.Config.{AppConfig}
use psst_rs.Secret.{CreateSecretRequest, is_allowed_ttl, is_valid_read_key_digest}
use psst_rs.Secret.{sha256_digest_bytes}
use psst_rs.Secret.Digests.{Decodes, is_valid_read_key_digest_iff}
use psst_rs.Secret.Ttl.{IsAllowedTtl, is_allowed_ttl_iff}
use psst_rs.RequestContext.{HeaderMap}
use psst_rs.Http.Validate.{ValidatedCreateRequest, validate_create_request, extract_read_key_digest}

pub record IsAcceptable (crypto : Crypto) (config : AppConfig) (payload : CreateSecretRequest)
    : Type 0 where
  pub ciphertext : is_empty payload.ciphertext ≡ false
  pub ciphertext_size : len payload.ciphertext ≤ config.max_ciphertext_bytes
  pub nonce : is_empty payload.nonce ≡ false
  pub nonce_size : len payload.nonce ≤ config.max_ciphertext_bytes
  pub key_digest : is_empty payload.key_digest ≡ false
  pub digest_shape : is_valid_read_key_digest crypto payload.key_digest ≡ true
  pub ttl : IsAllowedTtl payload.expires_in_seconds
  pub ttl_limit : payload.expires_in_seconds ≤ config.max_ttl_seconds

-- A creation request passes exactly when its parts are there, within the limits and well-formed, and
-- its TTL is 15 minutes, an hour, a day or a week; what is passed on are its size and its TTL.
pub validate_create_request_iff :
    (crypto : Crypto) (config : AppConfig) (payload : CreateSecretRequest)
    (v : ValidatedCreateRequest)
    → (validate_create_request crypto config payload ≡ ok v) ↔ (
        IsAcceptable crypto config payload
        × (v.ciphertext_size_bytes ≡ len payload.ciphertext)
        × (v.expires_in_seconds ≡ payload.expires_in_seconds))
unfolding validate_create_request
validate_create_request_iff crypto config payload v =
    let allowed : (is_allowed_ttl payload.expires_in_seconds ≡ true)
        ↔ IsAllowedTtl payload.expires_in_seconds =
      is_allowed_ttl_iff payload.expires_in_seconds in
    (λ h. ground (arith, allowed.0), λ a. ground (arith, allowed.1))

-- A read passes exactly when its header is there, is ASCII and is a digest: unpadded base64url of 32
-- bytes.
pub extract_read_key_digest_iff :
    (crypto : Crypto) (headers : HeaderMap) (digest : String)
    → (extract_read_key_digest crypto headers ≡ ok digest) ↔ (
        (headers "x-psst-key-digest" ≡ some (record { to_str = some digest }))
        × Decodes crypto sha256_digest_bytes digest)
unfolding extract_read_key_digest
extract_read_key_digest_iff crypto headers digest =
    let decodes : (is_valid_read_key_digest crypto digest ≡ true)
        ↔ Decodes crypto sha256_digest_bytes digest =
      is_valid_read_key_digest_iff crypto digest in
    (λ h. ground (arith, decodes.0), λ a. ground (arith, decodes.1))
