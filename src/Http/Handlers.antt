-- ===== src/Http/Handlers.antt =====
-- The API handlers of src/http.rs: create, read and delete. Arguments stand for what the request and
-- the machine bring: the parsed body, the clock, the random bytes, and what other requests do to the
-- shared state while this one awaits the verifier.
pub mod Deletion
pub mod Consuming
pub mod Reading
pub mod Admission
pub mod Storing
pub mod Creation
use Prim.Native.String.{◌++◌}
use psst_rs.Prelude.{ℕ, String, Bool, true, false, Option, none, some, List, if◌then◌else◌}
use psst_rs.Prelude.Text.{is_empty}
use psst_rs.Prelude.Int.{ℤ, pos, checked_add_i64, i64_try_from}
use psst_rs.Prelude.Exec.{
  Result, ok, err, pure, raise, lift, gets, modify, raise_if, ok_or, ◌>>=◌, ◌>>◌,
}
use psst_rs.Crypto.{Crypto}
use psst_rs.Config.{AppConfig}
use psst_rs.Metrics.{AppMetrics, fetch_add, gauge_add, gauge_sub, i64_or_zero}
use psst_rs.RequestContext.{ClientIp, HeaderMap, hashed_identifier}
use psst_rs.Secret.{
  CreateSecretRequest, CreateSecretResponse, ReadSecretResponse, DeleteSecretRequest,
  DeleteSecretResponse, GeneratedSecretReference, generate_secret_reference, hash_delete_token,
}
use psst_rs.Net.{IpAddr}
use psst_rs.Db.Tables.{
  NewSecretRecord, SecretRecord, ConsumeSecretResult, consumed, not_found, key_mismatch,
}
use psst_rs.Db.Connection.{Database}
use psst_rs.Db.Store.{
  insert_secret, consume_unexpired_secret_by_id_and_key_digest, delete_secret_by_id_and_token_hash,
}
use psst_rs.Http.Api.{
  ApiError, World, Handler, meter, on_error, map_err, store_call, bad_request, internal,
  secret_not_found, current_timestamp,
}
use psst_rs.Http.Validate.{
  ValidatedCreateRequest, CreateRejectedReason, too_large, invalid_ttl, invalid_payload,
  storage_limit, validate_create_request, extract_read_key_digest, ensure_create_enabled,
}
use psst_rs.Http.Limits.{
  enforce_global_create_quotas, check_create_rate_limit_hook, check_read_rate_limit,
}
use psst_rs.Http.Turnstile.{TurnstileClient, verify_turnstile}

-- The counter of a rejected creation.
unfoldable pub count_rejected : CreateRejectedReason → AppMetrics → AppMetrics
unfolding fetch_add
count_rejected too_large m = record m {
  create_rejected_too_large = fetch_add m.create_rejected_too_large 1;
}
count_rejected invalid_ttl m = record m {
  create_rejected_invalid_ttl = fetch_add m.create_rejected_invalid_ttl 1;
}
count_rejected invalid_payload m = record m {
  create_rejected_invalid_payload = fetch_add m.create_rejected_invalid_payload 1;
}
count_rejected storage_limit m = record m {
  create_rejected_storage_limit = fetch_add m.create_rejected_storage_limit 1;
}

-- A check whose error carries the reason that it is counted under.
abbrev pub checked : {A : Type 0} → Result (ApiError × CreateRejectedReason) A → Handler A
checked (ok a) w = (ok a, w)
checked (err (e, reason)) w = (err e, record w { metrics = count_rejected reason w.metrics })

abbrev pub hash_of : Crypto → AppConfig → Option ClientIp → Option String
hash_of crypto config none = none
hash_of crypto config (some client) = some (hashed_identifier crypto client config.ip_hash_salt)

abbrev pub ip_of : Option ClientIp → Option IpAddr
ip_of none = none
ip_of (some client) = some client.ip

abbrev pub count_rate_limited : AppMetrics → AppMetrics
count_rate_limited m = record m {
  create_rejected_rate_limited = fetch_add m.create_rejected_rate_limited 1;
  rate_limited_create = fetch_add m.rate_limited_create 1;
}

abbrev pub count_turnstile_failed : AppMetrics → AppMetrics
count_turnstile_failed m = record m {
  create_rejected_turnstile_failed = fetch_add m.create_rejected_turnstile_failed 1;
}

abbrev pub count_created : ℕ → AppMetrics → AppMetrics
count_created size m = record m {
  secrets_created = fetch_add m.secrets_created 1;
  active_secrets = gauge_add m.active_secrets (pos 1);
  storage_bytes = gauge_add m.storage_bytes (i64_or_zero size);
}

abbrev pub count_read : ℕ → AppMetrics → AppMetrics
count_read size m = record m {
  secrets_read = fetch_add m.secrets_read 1;
  active_secrets = gauge_sub m.active_secrets (pos 1);
  storage_bytes = gauge_sub m.storage_bytes (i64_or_zero size);
}

abbrev pub count_deleted : ℕ → AppMetrics → AppMetrics
count_deleted size m = record m {
  secrets_deleted = fetch_add m.secrets_deleted 1;
  active_secrets = gauge_sub m.active_secrets (pos 1);
  storage_bytes = gauge_sub m.storage_bytes (i64_or_zero size);
}

-- `now.checked_add(i64::try_from(ttl)?)`, both failures with one message.
unfoldable pub expiry : ℤ → ℕ → Result ApiError ℤ
unfolding checked_add_i64
expiry now ttl = elim (i64_try_from ttl) [
  | none ↦ err (bad_request "expires_in_seconds is too large")
  | some seconds ↦ elim (checked_add_i64 now seconds) [
    | none ↦ err (bad_request "expires_in_seconds is too large")
    | some expires_at ↦ ok expires_at
  ]
]

-- The three outcomes of a read.
abbrev pub answer_read : ConsumeSecretResult → Handler ReadSecretResponse
answer_read (consumed secret) = do
  meter (count_read secret.size_bytes)
  pure (record { ciphertext = secret.ciphertext; nonce = secret.nonce })
answer_read not_found = raise secret_not_found
answer_read key_mismatch = raise (bad_request "invalid read key")

abbrev pub answer_delete : Option ℕ → Handler DeleteSecretResponse
answer_delete none = raise secret_not_found
answer_delete (some size_bytes) = do
  meter (count_deleted size_bytes)
  pure (record { deleted = true })

module _ (crypto : Crypto) (fault : ℕ → Bool) (database : Database) (config : AppConfig) where
  -- What is checked before the verifier is asked, and what it yields: the time, the validated
  -- request and the requester's pseudonym.
  unfoldable pub admit_create :
      Option ClientIp → Option ℕ → CreateSecretRequest → Handler (ℤ × ValidatedCreateRequest)
  admit_create client_ip clock payload = do
    now_timestamp ← lift (current_timestamp clock)
    validated ← checked (validate_create_request crypto config payload)
    lift (ensure_create_enabled config)
    map_err (count_rejected storage_limit) (
        enforce_global_create_quotas fault database config now_timestamp
          validated.ciphertext_size_bytes)
    map_err count_rate_limited (
        check_create_rate_limit_hook fault database config (hash_of crypto config client_ip)
          now_timestamp)
    pure (now_timestamp, validated)

  -- The record that a creation stores.
  abbrev pub secret_to_store :
      CreateSecretRequest → Option ClientIp → GeneratedSecretReference → ℤ → ℤ → ℕ → NewSecretRecord
  secret_to_store payload client_ip generated now_timestamp expires_at size_bytes = record {
    id = generated.secret_id;
    ciphertext = payload.ciphertext;
    nonce = payload.nonce;
    created_at = now_timestamp;
    expires_at = expires_at;
    delete_token_hash = generated.delete_token_hash;
    key_digest = payload.key_digest;
    size_bytes = size_bytes;
    requester_ip_hash = hash_of crypto config client_ip;
  }

  -- What follows once the verifier has agreed.
  unfoldable pub store_create :
      Option ClientIp
      → CreateSecretRequest
      → GeneratedSecretReference
      → ℤ
      → ValidatedCreateRequest
      → Handler CreateSecretResponse
  store_create client_ip payload generated now_timestamp validated = do
    expires_at ← lift (expiry now_timestamp validated.expires_in_seconds)
    map_err (λ m. record m { db_errors_create = fetch_add m.db_errors_create 1 })
        (store_call
          (insert_secret fault database (
            secret_to_store payload client_ip generated now_timestamp expires_at
              validated.ciphertext_size_bytes))
          (λ error. internal ("failed to persist secret: " ++ error)))
    meter (count_created validated.ciphertext_size_bytes)
    pure (record { id = generated.secret_id; delete_token = generated.delete_token })

  unfoldable pub create_secret_stub :
      TurnstileClient
      → (World → World)
      → (id_bytes token_bytes : ℕ → List ℕ) → Option ClientIp
      → Option ℕ
      → CreateSecretRequest
      → Handler CreateSecretResponse
  unfolding admit_create store_create
  create_secret_stub client others id_bytes token_bytes client_ip clock payload = do
    (now_timestamp, validated) ← admit_create client_ip clock payload
    modify others
    map_err count_turnstile_failed (lift (verify_turnstile client config (ip_of client_ip) payload))
    store_create client_ip payload (generate_secret_reference crypto id_bytes token_bytes)
        now_timestamp validated

  unfoldable pub read_secret :
      Option ClientIp → Option ℕ → String → HeaderMap → Handler ReadSecretResponse
  read_secret client_ip clock secret_id headers = do
    now_timestamp ← lift (current_timestamp clock)
    key_digest ← lift (extract_read_key_digest crypto headers)
    map_err (λ m. record m { rate_limited_read = fetch_add m.rate_limited_read 1 })
        (check_read_rate_limit fault database config (hash_of crypto config client_ip)
          now_timestamp)
    secret ←
        map_err (λ m. record m { db_errors_read = fetch_add m.db_errors_read 1 })
          (store_call
            (consume_unexpired_secret_by_id_and_key_digest fault database secret_id key_digest
              now_timestamp)
            (λ error. internal ("failed to load secret: " ++ error)))
    answer_read secret

  unfoldable pub delete_secret : String → DeleteSecretRequest → Handler DeleteSecretResponse
  delete_secret secret_id payload = do
    raise_if (is_empty payload.delete_token) (bad_request "delete_token must not be empty")
    deleted_size ←
        map_err (λ m. record m { db_errors_delete = fetch_add m.db_errors_delete 1 })
          (store_call
            (delete_secret_by_id_and_token_hash fault database secret_id
              (hash_delete_token crypto payload.delete_token))
            (λ error. internal ("failed to delete secret: " ++ error)))
    answer_delete deleted_size
