-- ===== src/Http/Threads/Creating.antt =====
-- What a creation of src/http.rs costs: its insertion is paid from the cost of its id.
use psst_rs.Prelude.{ℕ, String, Bool, Option, none, some, List, arith}
use psst_rs.Prelude.Int.{ℤ}
use psst_rs.Prelude.Exec.{Result, ok, err}
use psst_rs.Crypto.{Crypto}
use psst_rs.Config.{AppConfig}
use psst_rs.Http.Turnstile.{TurnstileClient}
use psst_rs.RequestContext.{ClientIp}
use psst_rs.Secret.{
  CreateSecretRequest, GeneratedSecretReference, generate_secret_reference, CreateSecretResponse,
}
use psst_rs.Db.Tables.{NewSecretRecord, Tables}
use psst_rs.Db.Validity.{Inserted-IsValid}
use psst_rs.Db.Connection.{Database}
use psst_rs.Db.Spec.{IsValid}
use psst_rs.Db.Writes.{Inserted, IsRefused, insert_secret-Outcome}
use psst_rs.Db.Store.{insert_secret}
use psst_rs.Http.Api.{ApiError, meter, store_call}
use psst_rs.Http.Validate.{ValidatedCreateRequest, CreateRejectedReason}
use psst_rs.Http.Limits.{enforce_global_create_quotas}
use psst_rs.Http.Limits.Quotas.{enforce_global_create_quotas-Ends}
use psst_rs.Http.Handlers.{checked, hash_of, secret_to_store, count_created, count_turnstile_failed}
use psst_rs.Http.Program.{atomically, settled, ◌>>◌}
use psst_rs.Http.Program.Costs.{
  Affords, Keeps, finished-Affords, finished-Keeps, bind-Affords, Keeps-Affords, bind-Keeps,
  counting-Affords, meter-Keeps, pause-Keeps, atomically-Keeps,
}
use psst_rs.Http.Program.Calls.{same-IsQuiet, Ends-Keeps, store_call-Affords}
use psst_rs.Http.Threads.{count_creation, admitting, storing, creating}
use psst_rs.Http.Threads.Tariff.{Tariff, count_attempt-Keeps}

module _ (measure : Tables → ℕ) (Timely : ℤ → Type 0) (tariff : Tariff measure Timely)
    (crypto : Crypto) (fault : ℕ → Bool) (database : Database) (config : AppConfig) where
  checked-Keeps :
      {A : Type 0} (r : Result (ApiError × CreateRejectedReason) A) (n : ℕ)
      → Keeps IsValid measure n (atomically (checked r))
  checked-Keeps (ok a) n = atomically-Keeps IsValid measure _ n (λ w v. (omega arith, v))
  checked-Keeps (err (e, reason)) n = atomically-Keeps IsValid measure _ n (λ w v. (omega arith, v))

  count_creation-Keeps :
      (hash : Option String) (now : ℤ) (n : ℕ)
      → Keeps IsValid measure n (count_creation crypto fault database config hash now)
  unfolding count_creation
  count_creation-Keeps none now n = finished-Keeps IsValid measure n
  count_creation-Keeps (some hash) now n =
      bind-Keeps IsValid measure n
        (count_attempt-Keeps measure Timely tariff fault database config n _ _ _ _ _)
        (λ _. count_attempt-Keeps measure Timely tariff fault database config n _ _ _ _ _)

  admitting-Keeps :
      (client_ip : Option ClientIp) (clock : Option ℕ) (payload : CreateSecretRequest) (n : ℕ)
      → Keeps IsValid measure n (admitting crypto fault database config client_ip clock payload)
  unfolding admitting
  admitting-Keeps client_ip clock payload n =
      bind-Keeps IsValid measure n (finished-Keeps IsValid measure n) λ now.
        bind-Keeps IsValid measure n (checked-Keeps _ n) λ validated.
          bind-Keeps IsValid measure n (finished-Keeps IsValid measure n) λ _.
            bind-Keeps IsValid measure n
              (counting-Affords IsValid measure _ _ n (quotas now validated))
              λ _.
                bind-Keeps IsValid measure n
                  (counting-Affords IsValid measure _ _ n
                    (count_creation-Keeps (hash_of crypto config client_ip) now n))
                  (λ _. finished-Keeps IsValid measure n)
    where
      quotas :
          (now : ℤ) (validated : ValidatedCreateRequest)
          → Keeps IsValid measure n (
              atomically (
                enforce_global_create_quotas fault database config now
                  validated.ciphertext_size_bytes))
      quotas now validated =
          Ends-Keeps IsValid measure _ n
            (enforce_global_create_quotas-Ends fault database config now
              validated.ciphertext_size_bytes)
            (λ w w' a v h. same-IsQuiet IsValid measure _ _ v h.1.0)
            (λ w w' e v h. same-IsQuiet IsValid measure _ _ v h.1.0)

  insert_secret-Affords :
      (secret : NewSecretRecord) (f : String → ApiError)
      → Affords IsValid measure
          (λ _ _. Unit)
          (tariff.cost secret.id)
          (atomically (store_call (insert_secret fault database secret) f))
  insert_secret-Affords secret f =
      store_call-Affords IsValid measure fault (IsRefused secret) (λ t _ t'. Inserted secret t t')
        (insert_secret fault database secret) (tariff.cost secret.id)
        (λ s v. insert_secret-Outcome fault database secret s) f _
        (λ a t t' v h.
          (0, (omega (arith, tariff.stores secret t t' h), Inserted-IsValid secret t t' h v), tt))
        (λ e. tt)

  -- Storing the secret uses up the credit.
  storing-Affords :
      (client_ip : Option ClientIp) (payload : CreateSecretRequest)
      (generated : GeneratedSecretReference) (now : ℤ) (validated : ValidatedCreateRequest)
      → Affords IsValid measure
          (λ _ _. Unit)
          (tariff.cost generated.secret_id)
          (storing crypto fault database config client_ip payload generated now validated)
  unfolding storing
  storing-Affords client_ip payload generated now validated =
      Keeps-Affords IsValid measure _ _ (finished-Keeps IsValid measure _) (λ e. tt)
        λ expires_at.
          bind-Affords IsValid measure (λ _ _. Unit) _ _
            (counting-Affords IsValid measure _ _ _ (
              insert_secret-Affords
                (secret_to_store crypto fault database config payload client_ip generated now
                  expires_at validated.ciphertext_size_bytes)
                _))
            (λ m e _. tt) (λ m _ _. rest m)
    where
      rest :
          (m : ℕ)
          → Affords IsValid measure
              (λ (_ : ℕ) (_ : Result ApiError CreateSecretResponse). Unit)
              m
              (atomically (meter (count_created validated.ciphertext_size_bytes))
                >> settled (
                    ok
                      (record { id = generated.secret_id; delete_token = generated.delete_token })))
      rest m =
          Keeps-Affords IsValid measure _ m
            (meter-Keeps IsValid measure (count_created validated.ciphertext_size_bytes) m)
            (λ e. tt) (λ _. finished-Affords IsValid measure _ m _ tt)

  pub creating-Affords :
      (client : TurnstileClient) (id_bytes token_bytes : ℕ → List ℕ) (client_ip : Option ClientIp)
      (clock : Option ℕ) (payload : CreateSecretRequest)
      → Affords IsValid measure
          (λ _ _. Unit)
          (tariff.cost (generate_secret_reference crypto id_bytes token_bytes).secret_id)
          (creating crypto fault database config client id_bytes token_bytes client_ip clock
            payload)
  unfolding creating
  creating-Affords client id_bytes token_bytes client_ip clock payload =
      Keeps-Affords IsValid measure _ _ (admitting-Keeps client_ip clock payload _) (λ e. tt)
        λ admitted.
          Keeps-Affords IsValid measure _ _ (pause-Keeps IsValid measure _) (λ e. tt)
            λ _.
              Keeps-Affords IsValid measure _ _
                (counting-Affords IsValid measure count_turnstile_failed _ _
                  (finished-Keeps IsValid measure _))
                (λ e. tt) λ _. storing-Affords client_ip payload _ admitted.0 admitted.1
