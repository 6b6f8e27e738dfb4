-- ===== src/Http/Handlers/Deletion.antt =====
-- The deletion of src/http.rs: `delete_secret`.
use Prim.Native.String.{◌++◌}
use psst_rs.Prelude.{
  ℕ, String, ◌≡◌, refl, ap, inl, inr, Bool, true, Option, none, some, Bool-cases, first,
}
use psst_rs.Prelude.Text.{is_empty}
use psst_rs.Crypto.{Crypto}
use psst_rs.Config.{AppConfig}
use psst_rs.Secret.{DeleteSecretRequest, DeleteSecretResponse, hash_delete_token}
use psst_rs.Db.Tables.{SecretRow}
use psst_rs.Db.Statements.{is_owned}
use psst_rs.Db.Connection.{Database}
use psst_rs.Db.Store.{delete_secret_by_id_and_token_hash, size_or_zero}
use psst_rs.Db.Spec.{without, delete_step, delete_found}
use psst_rs.Db.Transactions.{Failed}
use psst_rs.Db.Writes.{delete-Outcome}
use psst_rs.Http.Api.{ApiError, World, store_call, map_err, internal, bad_request, secret_not_found}
use psst_rs.Http.Ends.{Ends, tables, Ends-bind, Ends-map_err, Ends-store_call, never}
use psst_rs.Http.Handlers.{delete_secret, answer_delete, count_deleted}
use psst_rs.Metrics.{AppMetrics, fetch_add}

-- The row that the token opens is gone, and counted.
pub record Deleted (id hash : String) (w w' : World) : Type 0 where
  pub row : SecretRow
  pub owned : first (is_owned id hash) (tables w).secrets ≡ some row
  pub gone : tables w' ≡ without (is_owned id hash) (tables w)
  pub counted : w'.metrics ≡ count_deleted (size_or_zero row.size_bytes) w.metrics

-- Why a deletion is refused.
pub data NotDeleted (fault : ℕ → Bool) (crypto : Crypto) (id token : String) (w : World)
    (e : ApiError) : Type 0 where
  no_token :
      is_empty token ≡ true
      → e ≡ bad_request "delete_token must not be empty"
      → NotDeleted fault crypto id token w e
  not_owned :
      first (is_owned id (hash_delete_token crypto token)) (tables w).secrets ≡ none
      → e ≡ secret_not_found
      → NotDeleted fault crypto id token w e
  unanswered : Failed fault → NotDeleted fault crypto id token w e

-- What such a refusal counts.
abbrev pub count_not_deleted :
    {fault : ℕ → Bool} {crypto : Crypto} {id token : String} {w : World} {e : ApiError}
    → NotDeleted fault crypto id token w e
    → AppMetrics
    → AppMetrics
count_not_deleted (unanswered f) m = record m { db_errors_delete = fetch_add m.db_errors_delete 1 }
count_not_deleted _ m = m

module _ (crypto : Crypto) (fault : ℕ → Bool) (database : Database) (config : AppConfig) where
  -- A deletion succeeds only if a stored secret has the id and the hash of the token; then exactly
  -- the rows that have both are gone. It fails for an empty token (400), for no such secret (404) or
  -- for a failed call of SQLite, and then no table is changed; a deletion counts its size, and of the
  -- failures only that of SQLite is counted.
  pub delete_secret-Ends :
      (id : String) (payload : DeleteSecretRequest) (w : World)
      → Ends
          (λ response w'.
            (response.deleted ≡ true)
            × Deleted id (hash_delete_token crypto payload.delete_token) w w')
          (λ e w'.
            (reason : NotDeleted fault crypto id payload.delete_token w e) × (tables w' ≡ tables w)
            × (w'.metrics ≡ count_not_deleted reason w.metrics))
          (delete_secret crypto fault database config id payload w)
  unfolding delete_secret delete_step
  delete_secret-Ends id payload w = elim (Bool-cases (is_empty payload.delete_token)) [
    | inl e ↦ rw e (record { at = (no_token e refl, refl, refl) })
    | inr e ↦ rw e (
        Ends-bind Good Bad
          (map_err count_error
            (store_call (delete_secret_by_id_and_token_hash fault database id hash) why))
          answer_delete w
          (Ends-map_err Lost count_error
            (store_call (delete_secret_by_id_and_token_hash fault database id hash) why) w
            (Ends-store_call fault ⊥ (λ r t'. (r, t') ≡ delete_step id hash (tables w)) why
              (delete_secret_by_id_and_token_hash fault database id hash) w
              (delete-Outcome fault database id hash w.sqlite))
            (λ e w' h. (h.0, never h.2, ap count_error h.1)))
          (λ e w' h. (unanswered h.1, h.0, h.2))
          (λ r w' h. answer (first (is_owned id hash) (tables w).secrets) refl r w' h.0 h.1))
  ]
    where
      hash : String
      hash = hash_delete_token crypto payload.delete_token

      why : String → ApiError
      why error = internal ("failed to delete secret: " ++ error)

      count_error : AppMetrics → AppMetrics
      count_error m = record m { db_errors_delete = fetch_add m.db_errors_delete 1 }

      Good : DeleteSecretResponse → World → Type 0
      Good response w' = (response.deleted ≡ true) × Deleted id hash w w'

      Bad : ApiError → World → Type 0
      Bad e w' =
          (reason : NotDeleted fault crypto id payload.delete_token w e) × (tables w' ≡ tables w)
          × (w'.metrics ≡ count_not_deleted reason w.metrics)

      Lost : ApiError → World → Type 0
      Lost e w' = (tables w' ≡ tables w) × Failed fault × (w'.metrics ≡ count_error w.metrics)

      answer :
          (o : Option SecretRow)
          → first (is_owned id hash) (tables w).secrets ≡ o
          → (r : Option ℕ) (w' : World) → (r, tables w') ≡ delete_found id hash (tables w) o
          → w'.metrics ≡ w.metrics
          → Ends Good Bad (answer_delete r w')
      answer none e none w' h same = record { at = (not_owned e refl, ap (λ p. p.1) h, same) }
      answer none e (some size) w' h same = cc (ap (λ p. p.0) h)
      answer (some row) e none w' h same = cc (ap (λ p. p.0) h)
      answer (some row) e (some size) w' h same =
          let exact : size ≡ size_or_zero row.size_bytes = cc (ap (λ p. p.0) h) in
          record {
            at = (
              refl,
              record {
                row = row;
                owned = e;
                gone = ap (λ p. p.1) h;
                counted = λ i. count_deleted (exact i) (same i);
              },
            );
          }
