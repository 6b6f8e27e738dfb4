-- ===== src/Http/Lifecycle/Newest.antt =====
-- The row that a creation of src/http.rs leaves: the newest, and the only one of its id.
use psst_rs.Prelude.{
  ℕ, ◌≡◌, refl, subst, ◌∙◌, Bool, true, false, Option, some, List, ◌∷◌, any, first, any-select, not,
  eq_refl, arith,
}
use psst_rs.Prelude.Int.{ℤ, pos, ◌<ℤ◌, ltb_ℤ_iff}
use psst_rs.Prelude.Exec.{ok}
use psst_rs.Crypto.{Crypto}
use psst_rs.Config.{AppConfig}
use psst_rs.RequestContext.{ClientIp}
use psst_rs.Secret.{
  CreateSecretRequest, CreateSecretResponse, GeneratedSecretReference, generate_secret_reference,
}
use psst_rs.Db.Tables.{SecretRow, NewSecretRecord}
use psst_rs.Db.Statements.{has_id, is_readable, is_owned, remaining}
use psst_rs.Db.Connection.{Database}
use psst_rs.Db.Store.{new_row}
use psst_rs.Db.Spec.{IsValid, opens}
use psst_rs.Http.Api.{World, current_timestamp}
use psst_rs.Http.Validate.Accepts.{validate_create_request_iff}
use psst_rs.Http.Turnstile.{TurnstileClient}
use psst_rs.Http.Ends.{tables, Ends-ok}
use psst_rs.Http.Handlers.{create_secret_stub, expiry, secret_to_store}
use psst_rs.Http.Handlers.Creation.{Served, create_secret_stub-Ends}
use psst_rs.Http.Lifecycle.Accepting.{ok_injective}

-- A row that was stored and has not expired is the one that its id finds, if it is the newest.
pub first-is_readable :
    (secret : NewSecretRecord) (size later : ℤ) (rest : List SecretRow)
    → later <ℤ secret.expires_at
    → first (is_readable secret.id later) (new_row secret size ∷ rest) ≡ some (new_row secret size)
first-is_readable secret size later rest h =
    rw (eq_refl secret.id, (ltb_ℤ_iff later secret.expires_at).1 h) refl

pub opens-own : (row : SecretRow) → opens row row.key_digest ≡ true
opens-own row = ground (arith, eq_refl row.key_digest)

pub first-is_owned :
    (secret : NewSecretRecord) (size : ℤ) (rest : List SecretRow)
    → first (is_owned secret.id secret.delete_token_hash) (new_row secret size ∷ rest)
      ≡ some (new_row secret size)
first-is_owned secret size rest = rw (eq_refl secret.id, eq_refl secret.delete_token_hash) refl

pub any-remaining :
    (secret : NewSecretRecord) (size : ℤ) (rest : List SecretRow)
    → any (has_id secret.id) rest ≡ false
    → any
        (has_id secret.id)
        (remaining (is_owned secret.id secret.delete_token_hash) (new_row secret size ∷ rest))
      ≡ false
any-remaining secret size rest h =
    rw (eq_refl secret.id, eq_refl secret.delete_token_hash)
      (any-select (has_id secret.id) (λ row. not (is_owned secret.id secret.delete_token_hash row))
        rest h)

module _ (crypto : Crypto) (fault : ℕ → Bool) (database : Database) (config : AppConfig)
    (client_ip : Option ClientIp) (payload : CreateSecretRequest) (client : TurnstileClient)
    (others : World → World) (id_bytes token_bytes : ℕ → List ℕ) (clock : Option ℕ) where
  abbrev pub generated : GeneratedSecretReference
  generated = generate_secret_reference crypto id_bytes token_bytes

  -- The row of a creation is the newest, and the only one of its id.
  pub record IsNewest (now expires_at : ℤ) (response : CreateSecretResponse) (w₁ : World)
      : Type 0 where
    pub size_bytes : ℕ
    pub older : List SecretRow
    pub fresh : any (has_id generated.secret_id) older ≡ false
    pub secrets :
        (tables w₁).secrets
        ≡ new_row
            (secret_to_store crypto fault database config payload client_ip generated now expires_at
              size_bytes)
            (pos size_bytes)
          ∷ older
    pub answer :
        response ≡ record { id = generated.secret_id; delete_token = generated.delete_token }

  pub created :
      (now expires_at : ℤ) (response : CreateSecretResponse) (w w₁ : World)
      → IsValid (tables w)
      → current_timestamp clock ≡ ok now
      → expiry now payload.expires_in_seconds ≡ ok expires_at
      → create_secret_stub crypto fault database config client others id_bytes token_bytes client_ip
          clock payload w
        ≡ (ok response, w₁)
      → IsNewest now expires_at response w₁
  created now expires_at response w w₁ v time due run =
      let s : Served crypto fault database config client_ip payload client others
          (generate_secret_reference crypto id_bytes token_bytes) clock w response w₁ =
        Ends-ok
          (create_secret_stub-Ends crypto fault database config client_ip payload client others
            id_bytes token_bytes clock w v)
          run in
      let same_now : s.now ≡ now = ok_injective s.admitted.time time in
      let same_ttl : s.validated.expires_in_seconds ≡ payload.expires_in_seconds =
        ((validate_create_request_iff crypto config payload s.validated).0 s.admitted.valid).2 in
      let same_at : s.created.expires_at ≡ expires_at =
        ok_injective
          (subst (λ n. expiry n payload.expires_in_seconds ≡ ok s.created.expires_at) same_now
            (subst (λ k. expiry s.now k ≡ ok s.created.expires_at) same_ttl s.created.due))
          due in
      let size : ℕ = s.validated.ciphertext_size_bytes in
      let rest : List SecretRow = (tables (others s.waiting)).secrets in
      record {
        size_bytes = size;
        older = rest;
        fresh = s.created.added.fresh;
        secrets = (λ i. (s.created.added.added i).secrets) ∙ (λ i.
            new_row
              (secret_to_store crypto fault database config payload client_ip generated (same_now i)
                (same_at i) size)
              (pos size)
            ∷ rest);
        answer = s.created.answer;
      }
