-- ===== src/Http/Threads.antt =====
-- The handlers of src/http.rs and the maintenance task of src/maintenance.rs as threads of one server:
-- each is the handler of Http/Handlers.antt cut into its steps, and runs between the others.
pub mod Tariff
pub mod Creating
pub mod Deleting
pub mod Serving
pub mod Spending
pub mod Once
pub mod Guessing
pub mod Attempts
pub mod Limited
use Prim.Native.String.{◌++◌}
use psst_rs.Prelude.{ℕ, String, Bool, Option, none, some, List, [], ◌∷◌}
use psst_rs.Prelude.Text.{is_empty}
use psst_rs.Prelude.Int.{ℤ}
use psst_rs.Prelude.Exec.{Result, ok, err, raise_if}
use psst_rs.Crypto.{Crypto}
use psst_rs.Config.{AppConfig}
use psst_rs.Metrics.{fetch_add}
use psst_rs.RateLimit.{create_minute, create_hour, read_minute}
use psst_rs.RequestContext.{ClientIp, HeaderMap}
use psst_rs.Secret.{
  CreateSecretRequest, CreateSecretResponse, ReadSecretResponse, DeleteSecretRequest,
  DeleteSecretResponse, GeneratedSecretReference, generate_secret_reference, hash_delete_token,
}
use psst_rs.Db.Tables.{ActiveSecretStats}
use psst_rs.Db.Connection.{Database}
use psst_rs.Db.Store.{
  insert_secret, consume_unexpired_secret_by_id_and_key_digest, delete_secret_by_id_and_token_hash,
  delete_expired_secrets, active_secret_stats,
}
use psst_rs.Http.Api.{ApiError, World, meter, store_call, bad_request, internal, current_timestamp}
use psst_rs.Http.Validate.{
  ValidatedCreateRequest, storage_limit, validate_create_request, extract_read_key_digest,
  ensure_create_enabled,
}
use psst_rs.Http.Limits.{enforce_global_create_quotas, count_attempt, check_read_rate_limit}
use psst_rs.Http.Turnstile.{TurnstileClient, verify_turnstile}
use psst_rs.Http.Handlers.{
  count_rejected, count_rate_limited, count_turnstile_failed, count_created, checked, hash_of,
  ip_of, expiry, secret_to_store, answer_read, answer_delete,
}
use psst_rs.Maintenance
use psst_rs.Maintenance.{
  MaintenanceRunStats, purge_rate_limit_buckets, create_minute_buckets_to_keep,
  create_hour_buckets_to_keep, read_minute_buckets_to_keep, count_pass, count_failed_pass,
  set_active,
}
use psst_rs.Http.Program.{
  Program, finished, Task, atomically, settled, call, metered, and_then, ◌>>=◌, ◌>>◌, counting,
  pause, run_schedule,
}

-- What a client or the timer asks for, with the clock and the random bytes of its handling.
pub data Request : Type 0 where
  create :
      (client : TurnstileClient) (id_bytes token_bytes : ℕ → List ℕ) (client_ip : Option ClientIp)
      (clock : Option ℕ) (payload : CreateSecretRequest)
      → Request
  read :
      (client_ip : Option ClientIp) (clock : Option ℕ) (secret_id : String) (headers : HeaderMap)
      → Request
  delete : (secret_id : String) (payload : DeleteSecretRequest) → Request
  maintain : (clock : Option ℕ) → Request

-- The answer, with what its request named: the id in the path, and of a read also its client and its
-- time.
pub data Answer : Type 0 where
  created : Result ApiError CreateSecretResponse → Answer
  was_read :
      (client_ip : Option ClientIp) (clock : Option ℕ) (secret_id : String)
      → Result ApiError ReadSecretResponse
      → Answer
  was_deleted : (secret_id : String) → Result ApiError DeleteSecretResponse → Answer
  maintained : Answer

module _ (crypto : Crypto) (fault : ℕ → Bool) (database : Database) (config : AppConfig) where
  -- The two counters are two calls of the store.
  unfoldable pub count_creation : Option String → ℤ → Task Unit
  count_creation none now_timestamp = settled (ok tt)
  count_creation (some requester_ip_hash) now_timestamp = do
    atomically (
        count_attempt fault database config create_minute "failed to update create rate limit: "
          config.create_rate_limit_per_minute requester_ip_hash now_timestamp)
    atomically (
        count_attempt fault database config create_hour "failed to update create rate limit: "
          config.create_rate_limit_per_hour requester_ip_hash now_timestamp)

  unfoldable pub admitting :
      Option ClientIp → Option ℕ → CreateSecretRequest → Task (ℤ × ValidatedCreateRequest)
  unfolding count_creation
  admitting client_ip clock payload = do
    now_timestamp ← settled (current_timestamp clock)
    validated ← atomically (checked (validate_create_request crypto config payload))
    settled (ensure_create_enabled config)
    counting (count_rejected storage_limit) (
        atomically (
          enforce_global_create_quotas fault database config now_timestamp
            validated.ciphertext_size_bytes))
    counting count_rate_limited (count_creation (hash_of crypto config client_ip) now_timestamp)
    settled (ok (now_timestamp, validated))

  unfoldable pub storing :
      Option ClientIp
      → CreateSecretRequest
      → GeneratedSecretReference
      → ℤ
      → ValidatedCreateRequest
      → Task CreateSecretResponse
  storing client_ip payload generated now_timestamp validated = do
    expires_at ← settled (expiry now_timestamp validated.expires_in_seconds)
    counting (λ m. record m { db_errors_create = fetch_add m.db_errors_create 1 })
        (atomically (
          store_call
            (insert_secret fault database (
              secret_to_store crypto fault database config payload client_ip generated now_timestamp
                expires_at validated.ciphertext_size_bytes))
            (λ error. internal ("failed to persist secret: " ++ error))))
    atomically (meter (count_created validated.ciphertext_size_bytes))
    settled (ok (record { id = generated.secret_id; delete_token = generated.delete_token }))

  unfoldable pub creating :
      TurnstileClient
      → (id_bytes token_bytes : ℕ → List ℕ) → Option ClientIp
      → Option ℕ
      → CreateSecretRequest
      → Task CreateSecretResponse
  unfolding admitting storing
  creating client id_bytes token_bytes client_ip clock payload = do
    (now_timestamp, validated) ← admitting client_ip clock payload
    pause
    counting count_turnstile_failed
        (settled (verify_turnstile client config (ip_of client_ip) payload))
    storing client_ip payload (generate_secret_reference crypto id_bytes token_bytes) now_timestamp
        validated

  unfoldable pub reading : Option ClientIp → Option ℕ → String → HeaderMap → Task ReadSecretResponse
  reading client_ip clock secret_id headers = do
    now_timestamp ← settled (current_timestamp clock)
    key_digest ← settled (extract_read_key_digest crypto headers)
    counting (λ m. record m { rate_limited_read = fetch_add m.rate_limited_read 1 })
        (atomically (
          check_read_rate_limit fault database config (hash_of crypto config client_ip)
            now_timestamp))
    secret ←
        counting (λ m. record m { db_errors_read = fetch_add m.db_errors_read 1 })
          (atomically (
            store_call
              (consume_unexpired_secret_by_id_and_key_digest fault database secret_id key_digest
                now_timestamp)
              (λ error. internal ("failed to load secret: " ++ error))))
    atomically (answer_read secret)

  unfoldable pub deleting : String → DeleteSecretRequest → Task DeleteSecretResponse
  deleting secret_id payload = do
    atomically
        (raise_if (is_empty payload.delete_token) (bad_request "delete_token must not be empty"))
    deleted_size ←
        counting (λ m. record m { db_errors_delete = fetch_add m.db_errors_delete 1 })
          (atomically (
            store_call
              (delete_secret_by_id_and_token_hash fault database secret_id
                (hash_delete_token crypto payload.delete_token))
              (λ error. internal ("failed to delete secret: " ++ error))))
    atomically (answer_delete deleted_size)

  -- The four deletions of a pass.
  unfoldable pub sweeping : ℤ → Program (Result String MaintenanceRunStats)
  sweeping now_timestamp = do
    expired_secrets_deleted ← call (delete_expired_secrets fault database now_timestamp)
    create_minute_buckets_deleted ← call (
        purge_rate_limit_buckets fault database create_minute now_timestamp
          create_minute_buckets_to_keep)
    create_hour_buckets_deleted ← call (
        purge_rate_limit_buckets fault database create_hour now_timestamp
          create_hour_buckets_to_keep)
    read_minute_buckets_deleted ← call (
        purge_rate_limit_buckets fault database read_minute now_timestamp
          read_minute_buckets_to_keep)
    finished (
        ok (record {
          expired_secrets_deleted = expired_secrets_deleted;
          create_minute_buckets_deleted = create_minute_buckets_deleted;
          create_hour_buckets_deleted = create_hour_buckets_deleted;
          read_minute_buckets_deleted = read_minute_buckets_deleted;
        }))

  abbrev pub setting_gauges : Result String ActiveSecretStats → Program Unit
  setting_gauges (ok active) = metered (set_active active)
  setting_gauges (err e) = finished tt

  abbrev pub counting_pass : ℤ → Result String MaintenanceRunStats → Program Unit
  counting_pass now_timestamp (ok stats) =
      and_then (metered (count_pass stats.expired_secrets_deleted))
        λ _. and_then (call (active_secret_stats fault database now_timestamp)) setting_gauges
  counting_pass now_timestamp (err e) = metered count_failed_pass

  unfoldable pub maintaining : Option ℤ → Program Unit
  unfolding sweeping
  maintaining none = finished tt
  maintaining (some now_timestamp) = and_then (sweeping now_timestamp) (counting_pass now_timestamp)

  unfoldable pub serve : Request → Program Answer
  unfolding creating reading deleting maintaining
  serve (create client id_bytes token_bytes client_ip clock payload) =
      and_then (creating client id_bytes token_bytes client_ip clock payload)
        (λ r. finished (created r))
  serve (read client_ip clock secret_id headers) =
      and_then (reading client_ip clock secret_id headers)
        (λ r. finished (was_read client_ip clock secret_id r))
  serve (delete secret_id payload) =
      and_then (deleting secret_id payload) (λ r. finished (was_deleted secret_id r))
  serve (maintain clock) =
      and_then (maintaining (Maintenance.current_timestamp clock)) (λ _. finished maintained)

  abbrev pub serve_all : List Request → List (Program Answer)
  serve_all [] = []
  serve_all (request ∷ requests) = serve request ∷ serve_all requests

  -- The requests, interleaved: the threads and the state at the end of the schedule.
  abbrev pub run_requests : List ℕ → List Request → World → List (Program Answer) × World
  run_requests schedule requests w = run_schedule schedule (serve_all requests) w
