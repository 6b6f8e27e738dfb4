-- ===== src/Http/Handlers/Storing.antt =====
-- What the creation of src/http.rs does once the verifier has agreed: `store_create`.
use Prim.Native.String.{◌++◌}
use psst_rs.Prelude.{ℕ, String, ◌≡◌, refl, ap, ◌⊎◌, inl, inr, Bool, Option}
use psst_rs.Prelude.Int.{ℤ}
use psst_rs.Prelude.Exec.{Result, ok, err, pure, lift, ◌>>=◌, ◌>>◌}
use psst_rs.Crypto.{Crypto}
use psst_rs.Config.{AppConfig}
use psst_rs.Metrics.{AppMetrics, fetch_add}
use psst_rs.RequestContext.{ClientIp}
use psst_rs.Secret.{CreateSecretRequest, CreateSecretResponse, GeneratedSecretReference}
use psst_rs.Db.Tables.{NewSecretRecord}
use psst_rs.Db.Connection.{Database}
use psst_rs.Db.Store.{insert_secret}
use psst_rs.Db.Transactions.{Failed}
use psst_rs.Db.Writes.{Inserted, IsRefused, insert_secret-Outcome}
use psst_rs.Http.Api.{ApiError, World, Handler, meter, map_err, store_call, internal}
use psst_rs.Http.Validate.{ValidatedCreateRequest}
use psst_rs.Http.Ends.{Ends, tables, Ends-bind, Ends-map_err, Ends-store_call}
use psst_rs.Http.Handlers.{count_created, expiry, secret_to_store, store_create}

-- The row that a creation adds, and its answer.
pub record Created (crypto : Crypto) (fault : ℕ → Bool) (database : Database) (config : AppConfig)
    (client_ip : Option ClientIp) (payload : CreateSecretRequest)
    (generated : GeneratedSecretReference) (now : ℤ) (validated : ValidatedCreateRequest)
    (w : World) (response : CreateSecretResponse) (w' : World) : Type 0 where
  pub expires_at : ℤ
  pub due : expiry now validated.expires_in_seconds ≡ ok expires_at
  pub added :
      Inserted
        (secret_to_store crypto fault database config payload client_ip generated now expires_at
          validated.ciphertext_size_bytes)
        (tables w)
        (tables w')
  pub answer : response ≡ record { id = generated.secret_id; delete_token = generated.delete_token }
  pub counted : w'.metrics ≡ count_created validated.ciphertext_size_bytes w.metrics

-- Why a row is not stored.
pub data NotStored (crypto : Crypto) (fault : ℕ → Bool) (database : Database) (config : AppConfig)
    (client_ip : Option ClientIp) (payload : CreateSecretRequest)
    (generated : GeneratedSecretReference) (now : ℤ) (validated : ValidatedCreateRequest)
    (w : World) (e : ApiError) : Type 0 where
  no_expiry :
      expiry now validated.expires_in_seconds ≡ err e
      → NotStored crypto fault database config client_ip payload generated now validated w e
  refused :
      (expires_at : ℤ)
      → IsRefused
          (secret_to_store crypto fault database config payload client_ip generated now expires_at
            validated.ciphertext_size_bytes)
          (tables w)
      → NotStored crypto fault database config client_ip payload generated now validated w e
  unanswered :
      Failed fault
      → NotStored crypto fault database config client_ip payload generated now validated w e

-- What such a failure counts.
abbrev pub count_not_stored :
    {crypto : Crypto} {fault : ℕ → Bool} {database : Database} {config : AppConfig}
    {client_ip : Option ClientIp} {payload : CreateSecretRequest}
    {generated : GeneratedSecretReference} {now : ℤ} {validated : ValidatedCreateRequest}
    {w : World} {e : ApiError}
    → NotStored crypto fault database config client_ip payload generated now validated w e
    → AppMetrics
    → AppMetrics
count_not_stored (no_expiry d) m = m
count_not_stored _ m = record m { db_errors_create = fetch_add m.db_errors_create 1 }

module _ (crypto : Crypto) (fault : ℕ → Bool) (database : Database) (config : AppConfig)
    (client_ip : Option ClientIp) (payload : CreateSecretRequest) where
  -- Once the verifier has agreed, a creation adds exactly one row, of a fresh id, with the given
  -- ciphertext, nonce, digest, token hash and expiry, and answers with its id and its token; or it
  -- fails for one of the listed reasons, which it counts, and changes no table.
  pub store_create-Ends :
      (generated : GeneratedSecretReference) (now : ℤ) (validated : ValidatedCreateRequest)
      (w : World)
      → Ends
          (Created crypto fault database config client_ip payload generated now validated w)
          (λ e w'.
            (reason : NotStored crypto fault database config client_ip payload generated now
              validated w e)
            × (tables w' ≡ tables w)
            × (w'.metrics ≡ count_not_stored reason w.metrics))
          (store_create crypto fault database config client_ip payload generated now validated w)
  unfolding store_create
  store_create-Ends generated now validated w = start (expiry now validated.expires_in_seconds) refl
    where
      Good : CreateSecretResponse → World → Type 0
      Good = Created crypto fault database config client_ip payload generated now validated w

      Bad : ApiError → World → Type 0
      Bad e w' =
          (reason : NotStored crypto fault database config client_ip payload generated now validated
            w e)
          × (tables w' ≡ tables w)
          × (w'.metrics ≡ count_not_stored reason w.metrics)

      why : String → ApiError
      why error = internal ("failed to persist secret: " ++ error)

      count_error : AppMetrics → AppMetrics
      count_error m = record m { db_errors_create = fetch_add m.db_errors_create 1 }

      finish : Handler CreateSecretResponse
      finish =
          meter (count_created validated.ciphertext_size_bytes)
          >> pure (record { id = generated.secret_id; delete_token = generated.delete_token })

      stored_as : ℤ → NewSecretRecord
      stored_as at =
          secret_to_store crypto fault database config payload client_ip generated now at
            validated.ciphertext_size_bytes

      lost :
          (at : ℤ) (e : ApiError) (w' : World)
          → Failed fault ⊎ IsRefused (stored_as at) (tables w)
          → tables w' ≡ tables w
          → w'.metrics ≡ count_error w.metrics
          → Bad e w'
      lost at e w' (inl f) same counted = (unanswered f, same, counted)
      lost at e w' (inr r) same counted = (refused at r, same, counted)

      start :
          (due : Result ApiError ℤ)
          → expiry now validated.expires_in_seconds ≡ due
          → Ends Good Bad (
              (lift due >>= λ at.
              map_err count_error (store_call (insert_secret fault database (stored_as at)) why)
              >>= λ _. finish)
                w)
      start (err e) d = record { at = (no_expiry d, refl, refl) }
      start (ok at) d =
          Ends-bind Good Bad
            (map_err count_error (store_call (insert_secret fault database (stored_as at)) why))
            (λ _. finish) w
            (Ends-map_err Bad count_error
              (store_call (insert_secret fault database (stored_as at)) why) w
              (Ends-store_call fault (IsRefused (stored_as at) (tables w))
                (λ _ t'. Inserted (stored_as at) (tables w) t') why
                (insert_secret fault database (stored_as at)) w
                (insert_secret-Outcome fault database (stored_as at) w.sqlite))
              (λ e w' h.
                lost at e (record w' { metrics = count_error w'.metrics }) h.2 h.0
                  (ap count_error h.1)))
            (λ e w' h. h)
            (λ _ w' h. record {
              at = record {
                expires_at = at;
                due = d;
                added = h.0;
                answer = refl;
                counted = ap (count_created validated.ciphertext_size_bytes) h.1;
              };
            })
