-- ===== src/Http/Handlers/Admission.antt =====
-- What the creation of src/http.rs checks before it asks the verifier: `admit_create`.
use psst_rs.Prelude.{ap, ℕ, ◌≡◌, refl, ◌∙◌, sym, subst, Bool, Option}
use psst_rs.Prelude.Int.{ℤ}
use psst_rs.Prelude.Exec.{Result, ok, err, pure, lift, ◌>>=◌}
use psst_rs.Crypto.{Crypto}
use psst_rs.Config.{AppConfig}
use psst_rs.RequestContext.{ClientIp}
use psst_rs.Secret.{CreateSecretRequest}
use psst_rs.Db.Connection.{Database}
use psst_rs.Db.Spec.{IsValid}
use psst_rs.Http.Api.{ApiError, World, Handler, map_err, current_timestamp}
use psst_rs.Http.Validate.{
  ValidatedCreateRequest, CreateRejectedReason, storage_limit, validate_create_request,
  ensure_create_enabled,
}
use psst_rs.Http.Validate.Accepts.{IsAcceptable, validate_create_request_iff}
use psst_rs.Http.Limits.{enforce_global_create_quotas, check_create_rate_limit_hook}
use psst_rs.Http.Limits.Quotas.{HasRoom, NoRoom, enforce_global_create_quotas-Ends}
use psst_rs.Http.Limits.Rates.{
  IsWithinRates, IsWithinRates-tables, RefusesCreate, RefusesCreate-tables,
  check_create_rate_limit_hook-Ends,
}
use psst_rs.Http.Ends.{Ends, tables, Ends-bind, Ends-map_err}
use psst_rs.Metrics.{AppMetrics}
use psst_rs.Http.Handlers.{checked, count_rejected, count_rate_limited, hash_of, admit_create}

abbrev pub IsKept : World → World → Type 0
IsKept w w' = (tables w').secrets ≡ (tables w).secrets

-- What has been checked before the verifier is asked.
pub record Admitted (crypto : Crypto) (fault : ℕ → Bool) (database : Database) (config : AppConfig)
    (client_ip : Option ClientIp) (clock : Option ℕ) (payload : CreateSecretRequest) (w : World)
    (now : ℤ) (validated : ValidatedCreateRequest) : Type 0 where
  pub time : current_timestamp clock ≡ ok now
  pub valid : validate_create_request crypto config payload ≡ ok validated
  pub acceptable : IsAcceptable crypto config payload
  pub enabled : ensure_create_enabled config ≡ ok tt
  pub rates : IsWithinRates fault database config (hash_of crypto config client_ip) now w
  pub room : HasRoom config now validated.ciphertext_size_bytes w

-- Why a creation is not admitted.
pub data NotAdmitted (crypto : Crypto) (fault : ℕ → Bool) (database : Database) (config : AppConfig)
    (client_ip : Option ClientIp) (clock : Option ℕ) (payload : CreateSecretRequest) (w : World)
    (e : ApiError) : Type 0 where
  no_time :
      current_timestamp clock ≡ err e
      → NotAdmitted crypto fault database config client_ip clock payload w e
  invalid :
      (reason : CreateRejectedReason)
      → validate_create_request crypto config payload ≡ err (e, reason)
      → NotAdmitted crypto fault database config client_ip clock payload w e
  disabled :
      ensure_create_enabled config ≡ err e
      → NotAdmitted crypto fault database config client_ip clock payload w e
  no_room :
      (now : ℤ) (validated : ValidatedCreateRequest)
      → current_timestamp clock ≡ ok now
      → validate_create_request crypto config payload ≡ ok validated
      → NoRoom fault config now validated.ciphertext_size_bytes w
      → NotAdmitted crypto fault database config client_ip clock payload w e
  limited :
      (now : ℤ)
      → current_timestamp clock ≡ ok now
      → RefusesCreate fault database config (hash_of crypto config client_ip) now w e
      → NotAdmitted crypto fault database config client_ip clock payload w e

-- What such a refusal counts.
abbrev pub count_not_admitted :
    {crypto : Crypto} {fault : ℕ → Bool} {database : Database} {config : AppConfig}
    {client_ip : Option ClientIp} {clock : Option ℕ} {payload : CreateSecretRequest} {w : World}
    {e : ApiError}
    → NotAdmitted crypto fault database config client_ip clock payload w e
    → AppMetrics
    → AppMetrics
count_not_admitted (invalid reason h) m = count_rejected reason m
count_not_admitted (no_room now validated t a h) m = count_rejected storage_limit m
count_not_admitted (limited now t h) m = count_rate_limited m
count_not_admitted _ m = m

module _ (crypto : Crypto) (fault : ℕ → Bool) (database : Database) (config : AppConfig)
    (client_ip : Option ClientIp) (payload : CreateSecretRequest) where
  -- A creation is admitted only if the clock works, the request is acceptable, creation is enabled
  -- and the quotas leave room for it. It is turned away only for one of the listed reasons, and counted
  -- as that says. Admitted or not, the secrets are as before.
  pub admit_create-Ends :
      (clock : Option ℕ) (w : World)
      → IsValid (tables w)
      → Ends
          (λ r w'.
            Admitted crypto fault database config client_ip clock payload w r.0 r.1
            × IsKept w w'
            × (w'.metrics ≡ w.metrics))
          (λ e w'.
            (reason : NotAdmitted crypto fault database config client_ip clock payload w e) × IsKept
              w w'
            × (w'.metrics ≡ count_not_admitted reason w.metrics))
          (admit_create crypto fault database config client_ip clock payload w)
  unfolding admit_create
  admit_create-Ends clock w v =
      start (current_timestamp clock) refl (validate_create_request crypto config payload) refl
        (ensure_create_enabled config) refl
    where
      Good : ℤ × ValidatedCreateRequest → World → Type 0
      Good r w' =
          Admitted crypto fault database config client_ip clock payload w r.0 r.1
          × IsKept w w'
          × (w'.metrics ≡ w.metrics)

      Bad : ApiError → World → Type 0
      Bad e w' =
          (reason : NotAdmitted crypto fault database config client_ip clock payload w e) × IsKept w
            w'
          × (w'.metrics ≡ count_not_admitted reason w.metrics)

      quotas : ℤ → ValidatedCreateRequest → Handler Unit
      quotas now validated =
          enforce_global_create_quotas fault database config now validated.ciphertext_size_bytes

      rates : ℤ → Handler Unit
      rates now =
          check_create_rate_limit_hook fault database config (hash_of crypto config client_ip) now

      start :
          (time : Result ApiError ℤ)
          → current_timestamp clock ≡ time
          → (valid : Result (ApiError × CreateRejectedReason) ValidatedCreateRequest)
          → validate_create_request crypto config payload ≡ valid
          → (enabled : Result ApiError Unit) → ensure_create_enabled config ≡ enabled
          → Ends Good Bad (
              (lift time >>= λ now. checked valid >>= λ validated. lift enabled >>= λ _.
              map_err (count_rejected storage_limit) (quotas now validated) >>= λ _.
              map_err count_rate_limited (rates now) >>= λ _. pure (now, validated))
                w)
      start (err e) t valid a enabled b = record { at = (no_time t, refl, refl) }
      start (ok now) t (err (e, reason)) a enabled b = record {
        at = (invalid reason a, refl, refl);
      }
      start (ok now) t (ok validated) a (err e) b = record { at = (disabled b, refl, refl) }
      start (ok now) t (ok validated) a (ok _) b =
          Ends-bind Good Bad (map_err (count_rejected storage_limit) (quotas now validated))
            (λ _. map_err count_rate_limited (rates now) >>= λ _. pure (now, validated)) w
            (Ends-map_err Bad (count_rejected storage_limit) (quotas now validated) w
              (enforce_global_create_quotas-Ends fault database config now
                validated.ciphertext_size_bytes w v)
              (λ e w' h. (
                no_room now validated t a h.0,
                (λ i. (h.1.0 i).secrets),
                ap (count_rejected storage_limit) h.1.1,
              )))
            (λ e w' h. h)
            (λ _ w' h.
              Ends-bind Good Bad (map_err count_rate_limited (rates now))
                (λ _. pure (now, validated)) w'
                (Ends-map_err
                  (λ e w''.
                    RefusesCreate fault database config (hash_of crypto config client_ip) now w' e
                    × IsKept w' w''
                    × (w''.metrics ≡ count_rate_limited w'.metrics))
                  count_rate_limited (rates now) w'
                  (check_create_rate_limit_hook-Ends fault database config
                    (hash_of crypto config client_ip) now w' (subst IsValid (sym h.1.0) v))
                  (λ e w'' k. (k.0, k.1, ap count_rate_limited k.2)))
                (λ e w'' k. (
                  limited now t (
                      RefusesCreate-tables fault database config (hash_of crypto config client_ip)
                        now w w' e h.1.0 k.0),
                  k.1 ∙ (λ i. (h.1.0 i).secrets),
                  k.2 ∙ ap count_rate_limited h.1.1,
                ))
                (λ _ w'' k. record {
                  at = (
                    record {
                      time = t;
                      valid = a;
                      acceptable =
                          ((validate_create_request_iff crypto config payload validated).0 a).0;
                      enabled = b;
                      room = h.0;
                      rates =
                          IsWithinRates-tables fault database config
                            (hash_of crypto config client_ip) now w w' h.1.0 k.0;
                    },
                    k.1 ∙ (λ i. (h.1.0 i).secrets),
                    k.2 ∙ h.1.1,
                  );
                }))
