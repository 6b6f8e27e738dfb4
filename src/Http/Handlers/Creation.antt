-- ===== src/Http/Handlers/Creation.antt =====
-- The whole creation of src/http.rs: `create_secret_stub`.
use psst_rs.Prelude.{ℕ, ◌≡◌, refl, Bool, Option, List}
use psst_rs.Prelude.Int.{ℤ}
use psst_rs.Prelude.Exec.{Result, ok, err, lift, modify, ◌>>◌}
use psst_rs.Crypto.{Crypto}
use psst_rs.Config.{AppConfig}
use psst_rs.RequestContext.{ClientIp}
use psst_rs.Secret.{
  CreateSecretRequest, CreateSecretResponse, GeneratedSecretReference, generate_secret_reference,
}
use psst_rs.Db.Connection.{Database}
use psst_rs.Db.Spec.{IsValid}
use psst_rs.Http.Api.{ApiError, World, Handler, map_err}
use psst_rs.Http.Validate.{ValidatedCreateRequest}
use psst_rs.Http.Turnstile.{TurnstileClient, verify_turnstile}
use psst_rs.Http.Turnstile.Verdict.{IsVerified, verify_turnstile-IsVerified}
use psst_rs.Http.Ends.{Ends, tables, Ends-bind, Ends-imp}
use psst_rs.Http.Handlers.{
  count_turnstile_failed, ip_of, admit_create, store_create, create_secret_stub,
}
use psst_rs.Http.Handlers.Admission.{
  IsKept, Admitted, NotAdmitted, count_not_admitted, admit_create-Ends,
}
use psst_rs.Http.Handlers.Storing.{Created, NotStored, count_not_stored, store_create-Ends}

module _ (crypto : Crypto) (fault : ℕ → Bool) (database : Database) (config : AppConfig)
    (client_ip : Option ClientIp) (payload : CreateSecretRequest) (client : TurnstileClient)
    (others : World → World) (generated : GeneratedSecretReference) (clock : Option ℕ)
    (w : World) where
  -- A creation that was admitted, verified and stored.
  pub record Served (response : CreateSecretResponse) (w' : World) : Type 0 where
    pub now : ℤ
    pub validated : ValidatedCreateRequest
    pub waiting : World
    pub admitted : Admitted crypto fault database config client_ip clock payload w now validated
    pub kept : IsKept w waiting
    pub uncounted : waiting.metrics ≡ w.metrics
    pub verified : IsVerified client config (ip_of client_ip) payload
    pub created :
        Created crypto fault database config client_ip payload generated now validated
          (others waiting)
          response
          w'

  -- Why a creation fails, that it has written no secret, and what it counts.
  pub data CreateRefused (e : ApiError) (w' : World) : Type 0 where
    not_admitted :
        (reason : NotAdmitted crypto fault database config client_ip clock payload w e)
        → IsKept w w'
        → w'.metrics ≡ count_not_admitted reason w.metrics
        → CreateRefused e w'
    not_verified :
        (waiting : World)
        → IsKept w waiting
        → waiting.metrics ≡ w.metrics
        → verify_turnstile client config (ip_of client_ip) payload ≡ err e
        → IsKept (others waiting) w'
        → w'.metrics ≡ count_turnstile_failed (others waiting).metrics
        → CreateRefused e w'
    not_stored :
        (now : ℤ) (validated : ValidatedCreateRequest) (waiting : World)
        → Admitted crypto fault database config client_ip clock payload w now validated
        → IsKept w waiting
        → waiting.metrics ≡ w.metrics
        → (reason : NotStored crypto fault database config client_ip payload generated now validated
            (others waiting)
            e)
        → IsKept (others waiting) w'
        → w'.metrics ≡ count_not_stored reason (others waiting).metrics
        → CreateRefused e w'

module _ (crypto : Crypto) (fault : ℕ → Bool) (database : Database) (config : AppConfig)
    (client_ip : Option ClientIp) (payload : CreateSecretRequest) where
  -- A creation on valid tables: what other requests do while this one awaits the verifier is
  -- `others`, anything. It succeeds only if it was admitted before the wait and the verifier
  -- agreed, and then it adds exactly one row to the secrets of after the wait. A creation fails
  -- only if it is not admitted, if it is not verified or if the row is not stored, for the reasons
  -- listed with each; it has then written no secret, and counts what the reason says.
  pub create_secret_stub-Ends :
      (client : TurnstileClient) (others : World → World) (id_bytes token_bytes : ℕ → List ℕ)
      (clock : Option ℕ) (w : World)
      → IsValid (tables w)
      → Ends
          (Served crypto fault database config client_ip payload client others
            (generate_secret_reference crypto id_bytes token_bytes)
            clock
            w)
          (CreateRefused crypto fault database config client_ip payload client others
            (generate_secret_reference crypto id_bytes token_bytes)
            clock
            w)
          (create_secret_stub crypto fault database config client others id_bytes token_bytes
            client_ip clock payload w)
  unfolding create_secret_stub
  create_secret_stub-Ends client others id_bytes token_bytes clock w v =
      Ends-bind Good Bad (admit_create crypto fault database config client_ip clock payload)
        (λ (now, validated). rest now validated) w
        (admit_create-Ends crypto fault database config client_ip payload clock w v)
        (λ e w' h. not_admitted h.0 h.1 h.2)
        (λ r w' h.
          verified r.0 r.1 w' h.0 h.1 h.2 (verify_turnstile client config (ip_of client_ip) payload)
            refl)
    where
      generated : GeneratedSecretReference
      generated = generate_secret_reference crypto id_bytes token_bytes

      Good : CreateSecretResponse → World → Type 0
      Good = Served crypto fault database config client_ip payload client others generated clock w

      Bad : ApiError → World → Type 0
      Bad =
          CreateRefused crypto fault database config client_ip payload client others generated clock
            w

      rest : ℤ → ValidatedCreateRequest → Handler CreateSecretResponse
      rest now validated =
          modify others
          >> map_err count_turnstile_failed
              (lift (verify_turnstile client config (ip_of client_ip) payload))
          >> store_create crypto fault database config client_ip payload generated now validated

      verified :
          (now : ℤ) (validated : ValidatedCreateRequest) (w' : World)
          → Admitted crypto fault database config client_ip clock payload w now validated
          → IsKept w w'
          → w'.metrics ≡ w.metrics
          → (verdict : Result ApiError Unit)
          → verify_turnstile client config (ip_of client_ip) payload ≡ verdict
          → Ends Good Bad (
              (modify others
                  >> map_err count_turnstile_failed (lift verdict)
                  >> store_create crypto fault database config client_ip payload generated now
                      validated)
                w')
      verified now validated w' a kept same (err e) d = record {
        at = not_verified w' kept same d refl refl;
      }
      verified now validated w' a kept same (ok _) d =
          Ends-imp Good Bad
            (store_create crypto fault database config client_ip payload generated now validated
              (others w'))
            (store_create-Ends crypto fault database config client_ip payload generated now
              validated (others w'))
            (λ response w'' h. record {
              now = now;
              validated = validated;
              waiting = w';
              admitted = a;
              kept = kept;
              uncounted = same;
              verified = verify_turnstile-IsVerified client config (ip_of client_ip) payload d;
              created = h;
            })
            (λ e w'' h. not_stored now validated w' a kept same h.0 (λ i. (h.1 i).secrets) h.2)
