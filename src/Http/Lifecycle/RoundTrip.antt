-- ===== src/Http/Lifecycle/RoundTrip.antt =====
-- What is created through src/http.rs can be read with its key and deleted with its token, once.
use psst_rs.Prelude.{
  ℕ, ◌≡◌, subst, sym, ap, ◌∙◌, Bool, true, false, Option, none, some, List, any, first,
}
use psst_rs.Prelude.Int.{ℤ, pos, ◌<ℤ◌}
use psst_rs.Prelude.Text.{is_empty}
use psst_rs.Prelude.Exec.{Result, ok}
use psst_rs.Crypto.{Crypto}
use psst_rs.Config.{AppConfig}
use psst_rs.RequestContext.{ClientIp, HeaderMap}
use psst_rs.Secret.{
  CreateSecretRequest, CreateSecretResponse, generate_secret_reference, hash_delete_token,
  DeleteSecretResponse, DeleteSecretRequest,
}
use psst_rs.Db.Tables.{SecretRow, NewSecretRecord}
use psst_rs.Db.Statements.{has_id, is_readable, is_owned, remaining}
use psst_rs.Db.Connection.{Database}
use psst_rs.Db.Store.{new_row}
use psst_rs.Db.Spec.{IsValid, without}
use psst_rs.Http.Api.{ApiError, World, current_timestamp}
use psst_rs.Http.Turnstile.{TurnstileClient}
use psst_rs.Http.Ends.{tables, Ends-imp, Succeeds, Ends-Succeeds}
use psst_rs.Http.Handlers.{create_secret_stub, read_secret, delete_secret, expiry, secret_to_store}
use psst_rs.Http.Handlers.Admission.{IsKept}
use psst_rs.Http.Handlers.Deletion.{NotDeleted, no_token, not_owned, unanswered, delete_secret-Ends}
use psst_rs.Http.Lifecycle.Accepting.{IsHealthy, IsHealthy-Failed}
use psst_rs.Http.Lifecycle.Delivery.{IsAbsent, IsAsked, read_secret-Succeeds}
use psst_rs.Http.Lifecycle.Newest.{
  first-is_readable, opens-own, first-is_owned, any-remaining, IsNewest, created,
}

module _ (crypto : Crypto) (fault : ℕ → Bool) (database : Database) (config : AppConfig)
    (client_ip : Option ClientIp) (payload : CreateSecretRequest) (client : TurnstileClient)
    (others : World → World) (id_bytes token_bytes : ℕ → List ℕ) (clock : Option ℕ) where
  -- What a creation on valid tables stores can be read: as long as the stored secrets are as it left
  -- them, a read with the answered id and the digest of the request, before the expiry and within its
  -- limit, returns the ciphertext and the nonce of the request, where no call of SQLite fails; then
  -- no row of the id is left.
  pub read_secret-create_secret_stub :
      (now expires_at : ℤ) (response : CreateSecretResponse) (w w₁ : World)
      → IsValid (tables w)
      → current_timestamp clock ≡ ok now
      → expiry now payload.expires_in_seconds ≡ ok expires_at
      → create_secret_stub crypto fault database config client others id_bytes token_bytes client_ip
          clock payload w
        ≡ (ok response, w₁)
      → (reader : Option ClientIp) (clock' : Option ℕ) (headers : HeaderMap) (later : ℤ)
        (w₂ : World)
      → IsHealthy fault
      → IsKept w₁ w₂
      → IsValid (tables w₂)
      → later <ℤ expires_at
      → IsAsked crypto fault database config reader clock' response.id headers later
          payload.key_digest w₂
      → Succeeds
          (λ read w₃.
            (read ≡ record { ciphertext = payload.ciphertext; nonce = payload.nonce })
            × IsAbsent response.id w₃)
          (read_secret crypto fault database config reader clock' response.id headers w₂)
  read_secret-create_secret_stub now expires_at response w w₁ v time due run reader clock' headers
        later w₂ healthy kept v₂ early asked =
      let n : IsNewest crypto fault database config client_ip payload client others id_bytes
          token_bytes clock now expires_at response w₁ =
        created crypto fault database config client_ip payload client others id_bytes token_bytes
          clock now expires_at response w w₁ v time due run in
      let secret : NewSecretRecord =
        secret_to_store crypto fault database config payload client_ip
          (generate_secret_reference crypto id_bytes token_bytes) now expires_at n.size_bytes in
      let row : SecretRow = new_row secret (pos n.size_bytes) in
      let stored : first (is_readable secret.id later) (tables w₂).secrets ≡ some row =
        ap (first (is_readable secret.id later)) (kept ∙ n.secrets)
        ∙ first-is_readable secret (pos n.size_bytes) later n.older early in
      read_secret-Succeeds crypto fault database config reader clock' response.id headers later
        payload.key_digest row w₂ healthy v₂ asked
        (subst
          (λ (r : CreateSecretResponse).
            first (is_readable r.id later) (tables w₂).secrets ≡ some row)
          (sym n.answer) stored)
        (opens-own row)

  -- What a creation on valid tables stores can be deleted: as long as the stored secrets are as it
  -- left them, and where the answered token is not empty and no call of SQLite fails, a deletion with
  -- the answered id and token succeeds and no row of the id is left.
  pub delete_secret-create_secret_stub :
      (now expires_at : ℤ) (response : CreateSecretResponse) (w w₁ : World)
      → IsValid (tables w)
      → current_timestamp clock ≡ ok now
      → expiry now payload.expires_in_seconds ≡ ok expires_at
      → create_secret_stub crypto fault database config client others id_bytes token_bytes client_ip
          clock payload w
        ≡ (ok response, w₁)
      → (w₂ : World) → IsHealthy fault
      → IsKept w₁ w₂
      → is_empty response.delete_token ≡ false
      → Succeeds
          (λ deletion w₃. (deletion.deleted ≡ true) × IsAbsent response.id w₃)
          (delete_secret crypto fault database config response.id
            (record { delete_token = response.delete_token })
            w₂)
  unfolding generate_secret_reference
  delete_secret-create_secret_stub now expires_at response w w₁ v time due run w₂ healthy kept
        token =
      Ends-Succeeds Gone deletion
        (Ends-imp Gone Refused deletion
          (delete_secret-Ends crypto fault database config response.id request w₂)
          (λ r w₃ d. (d.0, absent w₃ d.1.gone)) (λ e w₃ r. r.0))
        (λ e w₃ r. granted e r)
    where
      n :
          IsNewest crypto fault database config client_ip payload client others id_bytes token_bytes
            clock now expires_at response w₁
      n =
          created crypto fault database config client_ip payload client others id_bytes token_bytes
            clock now expires_at response w w₁ v time due run

      secret : NewSecretRecord
      secret =
          secret_to_store crypto fault database config payload client_ip
            (generate_secret_reference crypto id_bytes token_bytes) now expires_at n.size_bytes

      request : DeleteSecretRequest
      request = record { delete_token = response.delete_token }

      deletion : Result ApiError DeleteSecretResponse × World
      deletion = delete_secret crypto fault database config response.id request w₂

      Gone : DeleteSecretResponse → World → Type 0
      Gone r w₃ = (r.deleted ≡ true) × IsAbsent response.id w₃

      Refused : ApiError → World → Type 0
      Refused e w₃ = NotDeleted fault crypto response.id response.delete_token w₂ e

      absent :
          (w₃ : World)
          → tables w₃
            ≡ without
                (is_owned response.id (hash_delete_token crypto response.delete_token))
                (tables w₂)
          → IsAbsent response.id w₃
      absent w₃ h =
          let gone : tables w₃ ≡ without (is_owned secret.id secret.delete_token_hash) (tables w₂) =
            subst
              (λ (r : CreateSecretResponse).
                tables w₃
                ≡ without (is_owned r.id (hash_delete_token crypto r.delete_token)) (tables w₂))
              n.answer h in
          subst (λ (r : CreateSecretResponse). IsAbsent r.id w₃) (sym n.answer)
            ((λ i. any (has_id secret.id) (gone i).secrets)
              ∙ ap
                  (λ rows.
                    any (has_id secret.id)
                      (remaining (is_owned secret.id secret.delete_token_hash) rows))
                  (kept ∙ n.secrets)
              ∙ any-remaining secret (pos n.size_bytes) n.older n.fresh)

      granted : (e : ApiError) → ¬ NotDeleted fault crypto response.id response.delete_token w₂ e
      granted e (no_token t x) = cc (sym token ∙ t)
      granted e (not_owned o x) = cc (
          sym (
            subst
              (λ (r : CreateSecretResponse).
                first (is_owned r.id (hash_delete_token crypto r.delete_token)) (tables w₂).secrets
                ≡ none)
              n.answer o)
          ∙ ap (first (is_owned secret.id secret.delete_token_hash)) (kept ∙ n.secrets)
          ∙ first-is_owned secret (pos n.size_bytes) n.older)
      granted e (unanswered f) = IsHealthy-Failed fault healthy f
