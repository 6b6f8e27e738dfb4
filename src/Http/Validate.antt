-- ===== src/Http/Validate.antt =====
-- The checks of a request in src/http.rs that need no database.
pub mod Accepts
use psst_rs.Prelude.{ℕ, String, Bool, true, false, not, Option, none, some, ltb, if◌then◌else◌}
use psst_rs.Prelude.Text.{is_empty, len}
use psst_rs.Prelude.Exec.{Result, ok, err}
use psst_rs.Prelude.Fallible.{bail_if, ok_or, ◌>>=◌, ◌>>◌}
use psst_rs.Crypto.{Crypto}
use psst_rs.Config.{AppConfig}
use psst_rs.Secret.{CreateSecretRequest, is_allowed_ttl, is_valid_read_key_digest}
use psst_rs.RequestContext.{HeaderMap, HeaderValue}
use psst_rs.Http.Api.{ApiError, bad_request, service_unavailable}

pub record ValidatedCreateRequest : Type 0 where
  pub ciphertext_size_bytes : ℕ
  pub expires_in_seconds : ℕ

pub data CreateRejectedReason : Type 0 where
  too_large invalid_ttl invalid_payload storage_limit : CreateRejectedReason

-- `return Err((ApiError::bad_request(message), reason))` under a test.
abbrev pub reject_if :
    Bool → String → CreateRejectedReason → Result (ApiError × CreateRejectedReason) Unit
reject_if b message reason = bail_if b (bad_request message, reason)

-- `u64::try_from` of a `usize` does not fail on a 64-bit machine.
unfoldable pub validate_create_request :
    Crypto
    → AppConfig
    → CreateSecretRequest
    → Result (ApiError × CreateRejectedReason) ValidatedCreateRequest
unfolding ◌>>=◌
validate_create_request crypto config payload = do
  reject_if (is_empty payload.ciphertext) "ciphertext must not be empty" invalid_payload
  let ciphertext_size_bytes = len payload.ciphertext
  reject_if (ltb config.max_ciphertext_bytes ciphertext_size_bytes)
      "ciphertext exceeds the configured size limit" too_large
  reject_if (is_empty payload.nonce) "nonce must not be empty" invalid_payload
  reject_if (ltb config.max_ciphertext_bytes (len payload.nonce))
      "nonce exceeds the configured size limit" too_large
  reject_if (is_empty payload.key_digest) "key_digest must not be empty" invalid_payload
  reject_if (not (is_valid_read_key_digest crypto payload.key_digest))
      "key_digest must be a valid SHA-256 base64url digest" invalid_payload
  reject_if (not (is_allowed_ttl payload.expires_in_seconds))
      "expires_in_seconds is not an allowed TTL" invalid_ttl
  reject_if (ltb config.max_ttl_seconds payload.expires_in_seconds)
      "expires_in_seconds exceeds the configured TTL limit" invalid_ttl
  ok (record {
    ciphertext_size_bytes = ciphertext_size_bytes;
    expires_in_seconds = payload.expires_in_seconds;
  })

unfoldable pub extract_read_key_digest : Crypto → HeaderMap → Result ApiError String
unfolding ◌>>=◌
extract_read_key_digest crypto headers = do
  raw_value ← ok_or (headers "x-psst-key-digest") (bad_request "missing read key digest")
  key_digest ← ok_or raw_value.to_str (bad_request "read key digest header must be valid ASCII")
  bail_if (not (is_valid_read_key_digest crypto key_digest)) (bad_request "invalid read key digest")
  ok key_digest

unfoldable pub ensure_create_enabled : AppConfig → Result ApiError Unit
ensure_create_enabled config =
    bail_if (not config.enable_create)
      (service_unavailable "secret creation is temporarily disabled")
