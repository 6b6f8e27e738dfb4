-- ===== src/Http/Lifecycle/Accepting.antt =====
-- When a creation of src/http.rs succeeds.
use psst_rs.Prelude.{
  ℕ, ◌≤◌, String, ◌≡◌, subst, inl, inr, Bool, false, Option, none, some, List, any, arith,
}
use psst_rs.Prelude.Int.{ℤ, int_laws, i64_max}
use psst_rs.Prelude.Exec.{Result, ok, err}
use psst_rs.Crypto.{Crypto}
use psst_rs.Config.{AppConfig}
use psst_rs.RequestContext.{ClientIp}
use psst_rs.Secret.{CreateSecretRequest, generate_secret_reference}
use psst_rs.Db.Statements.{has_id}
use psst_rs.Db.Connection.{Database}
use psst_rs.Db.Spec.{IsValid}
use psst_rs.Db.Stats.{active_bytes_nonneg}
use psst_rs.Db.Transactions.{Failed}
use psst_rs.Http.Api.{ApiError, World, current_timestamp}
use psst_rs.Http.Validate.{ValidatedCreateRequest, validate_create_request, ensure_create_enabled}
use psst_rs.Http.Limits.Quotas.{HasRoom, NoRoom, too_many, too_big, past_u64, past_i64, active}
use psst_rs.Http.Limits.Quotas
use psst_rs.Http.Limits.Rates.{IsWithinRates, RefusesCreate}
use psst_rs.Http.Turnstile.{TurnstileClient, verify_turnstile}
use psst_rs.Http.Ends.{tables, Succeeds, Ends-Succeeds}
use psst_rs.Http.Handlers.{hash_of, ip_of, expiry, create_secret_stub}
use psst_rs.Http.Handlers.Admission.{
  IsKept, NotAdmitted, no_time, invalid, disabled, no_room, limited,
}
use psst_rs.Http.Handlers.Storing.{no_expiry, refused, unanswered}
use psst_rs.Http.Handlers.Creation.{
  Served, CreateRefused, not_admitted, not_verified, not_stored, create_secret_stub-Ends,
}

-- No call of SQLite fails.
abbrev pub IsHealthy : (ℕ → Bool) → Type 0
IsHealthy fault = (n : ℕ) → fault n ≡ false

pub IsHealthy-Failed : (fault : ℕ → Bool) → IsHealthy fault → ¬ Failed fault
IsHealthy-Failed fault h (n, f) = cc (h n)

pub ok_injective : {E A : Type 0} {a b : A} {r : Result E A} → r ≡ ok a → r ≡ ok b → a ≡ b
ok_injective p q = cc

pub ok-ne-err : {E A : Type 0} {a : A} {e : E} {r : Result E A} → r ≡ ok a → ¬ (r ≡ err e)
ok-ne-err p q = cc

-- Room at `now` is no lack of it, as long as the limit is an `i64`.
NoRoom-HasRoom :
    (fault : ℕ → Bool) (config : AppConfig) (now : ℤ) (size : ℕ) (w : World)
    → IsHealthy fault
    → config.global_max_storage_bytes ≤ i64_max
    → HasRoom config now size w
    → ¬ NoRoom fault config now size w
NoRoom-HasRoom fault config now size w h m r (too_many k) = omega (arith, r.number)
NoRoom-HasRoom fault config now size w h m r (too_big k) = omega (int_laws, r.bytes)
NoRoom-HasRoom fault config now size w h m r (past_u64 k) = omega (int_laws, r.bytes)
NoRoom-HasRoom fault config now size w h m r (past_i64 k) = omega (int_laws, r.bytes)
NoRoom-HasRoom fault config now size w h m r (Quotas.unanswered f) = IsHealthy-Failed fault h f

module _ (fault : ℕ → Bool) (database : Database) (config : AppConfig) (now : ℤ) (w : World)
    (e : ApiError) where
  RefusesCreate-IsWithinRates :
      (hash : Option String)
      → IsHealthy fault
      → IsWithinRates fault database config hash now w
      → ¬ RefusesCreate fault database config hash now w e
  RefusesCreate-IsWithinRates none h r x = x
  RefusesCreate-IsWithinRates (some hash) h r (inl (_, inl over)) = omega (arith, r.0)
  RefusesCreate-IsWithinRates (some hash) h r (inl (_, inr over)) = omega (arith, r.1)
  RefusesCreate-IsWithinRates (some hash) h r (inr f) = IsHealthy-Failed fault h f

module _ (crypto : Crypto) (fault : ℕ → Bool) (database : Database) (config : AppConfig)
    (client_ip : Option ClientIp) (payload : CreateSecretRequest) (client : TurnstileClient)
    (others : World → World) (id_bytes token_bytes : ℕ → List ℕ) (clock : Option ℕ) where
  -- A creation that nothing stands against: its request and its time are good, there is room, the
  -- verifier agrees, and whatever others do meanwhile, no stored secret has its random id.
  pub record IsWelcome (now expires_at : ℤ) (validated : ValidatedCreateRequest) (w : World)
      : Type 0 where
    pub time : current_timestamp clock ≡ ok now
    pub valid : validate_create_request crypto config payload ≡ ok validated
    pub enabled : ensure_create_enabled config ≡ ok tt
    pub room : HasRoom config now validated.ciphertext_size_bytes w
    pub limit : config.global_max_storage_bytes ≤ i64_max
    pub rates : IsWithinRates fault database config (hash_of crypto config client_ip) now w
    pub verified : verify_turnstile client config (ip_of client_ip) payload ≡ ok tt
    pub due : expiry now validated.expires_in_seconds ≡ ok expires_at
    pub fresh :
        (waiting : World)
        → IsKept w waiting
        → any
            (has_id (generate_secret_reference crypto id_bytes token_bytes).secret_id)
            (tables (others waiting)).secrets
          ≡ false

  -- Where no call of SQLite fails, a welcome creation on valid tables succeeds: none of the checks
  -- turns it away, and its row is stored.
  pub create_secret_stub-Succeeds :
      (now expires_at : ℤ) (validated : ValidatedCreateRequest) (w : World)
      → IsHealthy fault
      → IsValid (tables w)
      → IsWelcome now expires_at validated w
      → Succeeds
          (Served crypto fault database config client_ip payload client others
            (generate_secret_reference crypto id_bytes token_bytes)
            clock
            w)
          (create_secret_stub crypto fault database config client others id_bytes token_bytes
            client_ip clock payload w)
  create_secret_stub-Succeeds now expires_at validated w healthy v h =
      Ends-Succeeds _ _
        (create_secret_stub-Ends crypto fault database config client_ip payload client others
          id_bytes token_bytes clock w v)
        impossible
    where
      unadmitted :
          (e : ApiError) → ¬ NotAdmitted crypto fault database config client_ip clock payload w e
      unadmitted e (no_time t) = ok-ne-err h.time t
      unadmitted e (invalid reason x) = ok-ne-err h.valid x
      unadmitted e (disabled x) = ok-ne-err h.enabled x
      unadmitted e (no_room now' validated' t x r) =
          NoRoom-HasRoom fault config now' validated'.ciphertext_size_bytes w healthy h.limit
            (subst (λ n. HasRoom config n validated'.ciphertext_size_bytes w)
              (ok_injective h.time t)
              (subst (λ (u : ValidatedCreateRequest). HasRoom config now u.ciphertext_size_bytes w)
                (ok_injective h.valid x) h.room))
            r
      unadmitted e (limited now' t r) =
          RefusesCreate-IsWithinRates fault database config now w e
            (hash_of crypto config client_ip) healthy h.rates
            (subst
              (λ n. RefusesCreate fault database config (hash_of crypto config client_ip) n w e)
              (ok_injective t h.time) r)

      impossible :
          (e : ApiError) (w' : World)
          → ¬ CreateRefused crypto fault database config client_ip payload client others
              (generate_secret_reference crypto id_bytes token_bytes)
              clock
              w
              e
              w'
      impossible e w' (not_admitted r k c) = unadmitted e r
      impossible e w' (not_verified waiting k q d k' c) = ok-ne-err h.verified d
      impossible e w' (not_stored now' validated' waiting a k q (no_expiry d) k' c) =
          ok-ne-err
            (subst
              (λ (u : ValidatedCreateRequest). expiry now' u.expires_in_seconds ≡ ok expires_at)
              (ok_injective h.valid a.valid)
              (subst (λ n. expiry n validated.expires_in_seconds ≡ ok expires_at)
                (ok_injective h.time a.time) h.due))
            d
      impossible e w' (not_stored now' validated' waiting a k q (refused at (inl taken)) k' c) =
          cc (h.fresh waiting k)
      impossible e w' (not_stored now' validated' waiting a k q (refused at (inr big)) k' c) =
          omega (int_laws, a.room.bytes, active_bytes_nonneg now' (tables w) v, h.limit)
      impossible e w' (not_stored now' validated' waiting a k q (unanswered f) k' c) =
          IsHealthy-Failed fault healthy f
