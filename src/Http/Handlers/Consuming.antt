-- ===== src/Http/Handlers/Consuming.antt =====
-- What a read of src/http.rs does once it is within its limit: the store's consumption and its answer.
use Prim.Native.String.{◌++◌}
use psst_rs.Prelude.{
  ℕ, String, ◌≡◌, refl, ap, ◌∙◌, sym, subst, inl, inr, Bool, true, false, Option, none, some,
  Bool-cases, first,
}
use psst_rs.Prelude.Int.{ℤ}
use psst_rs.Prelude.Exec.{◌>>=◌}
use psst_rs.Secret.{ReadSecretResponse}
use psst_rs.Db.Tables.{SecretRow, ConsumeSecretResult, consumed, key_mismatch}
use psst_rs.Db.Statements.{has_id, is_readable, remaining}
use psst_rs.Db.Connection.{Database}
use psst_rs.Db.Store.{consume_unexpired_secret_by_id_and_key_digest}
use psst_rs.Db.Spec.{IsValid, without, opens, record_of, read_found, read_step}
use psst_rs.Db.Transactions.{Failed}
use psst_rs.Db.Reads.{consume-Outcome}
use psst_rs.Http.Api.{ApiError, World, store_call, map_err, internal, bad_request, secret_not_found}
use psst_rs.Http.Ends.{Ends, tables, Ends-bind, Ends-map_err, Ends-store_call, never}
use psst_rs.Http.Handlers.{answer_read, count_read}
use psst_rs.Metrics.{AppMetrics, fetch_add}

-- The secret that the digest opens is handed out, every row of its id is gone, and the read is counted
-- with its size.
pub record Read (id digest : String) (now : ℤ) (w : World) (response : ReadSecretResponse)
    (w' : World) : Type 0 where
  pub row : SecretRow
  pub readable : first (is_readable id now) (tables w).secrets ≡ some row
  pub opened : opens row digest ≡ true
  pub answer : response ≡ record { ciphertext = row.ciphertext; nonce = row.nonce }
  pub gone : (tables w').secrets ≡ (without (has_id id) (tables w)).secrets
  pub counted : w'.metrics ≡ count_read (record_of row).size_bytes w.metrics

-- Why the store refuses a read.
pub data NotRead (fault : ℕ → Bool) (id digest : String) (now : ℤ) (w : World) (e : ApiError)
    : Type 0 where
  missing :
      first (is_readable id now) (tables w).secrets ≡ none
      → e ≡ secret_not_found
      → NotRead fault id digest now w e
  wrong_key :
      (row : SecretRow)
      → first (is_readable id now) (tables w).secrets ≡ some row
      → opens row digest ≡ false
      → e ≡ bad_request "invalid read key"
      → NotRead fault id digest now w e
  unanswered : Failed fault → NotRead fault id digest now w e

-- What such a refusal counts.
abbrev pub count_not_read :
    {fault : ℕ → Bool} {id digest : String} {now : ℤ} {w : World} {e : ApiError}
    → NotRead fault id digest now w e
    → AppMetrics
    → AppMetrics
count_not_read (unanswered f) m = record m { db_errors_read = fetch_add m.db_errors_read 1 }
count_not_read _ m = m

abbrev pub IsKept : World → World → Type 0
IsKept w w' = (tables w').secrets ≡ (tables w).secrets

module _ (fault : ℕ → Bool) (database : Database) where
  module _ (id digest : String) (now : ℤ) where
    pub consume-Ends :
        (w : World)
        → IsValid (tables w)
        → Ends
            (Read id digest now w)
            (λ e w'.
              (reason : NotRead fault id digest now w e) × IsKept w w'
              × (w'.metrics ≡ count_not_read reason w.metrics))
            ((map_err
                  (λ m. record m { db_errors_read = fetch_add m.db_errors_read 1 })
                  (store_call
                    (consume_unexpired_secret_by_id_and_key_digest fault database id digest now)
                    (λ error. internal ("failed to load secret: " ++ error)))
                >>= answer_read)
              w)
    unfolding read_step
    consume-Ends w v =
        Ends-bind (Read id digest now w) Bad
          (map_err count_error (
            store_call (consume_unexpired_secret_by_id_and_key_digest fault database id digest now)
              why))
          answer_read w
          (Ends-map_err
            (λ _ w'. (tables w' ≡ tables w) × Failed fault × (w'.metrics ≡ count_error w.metrics))
            count_error
            (store_call (consume_unexpired_secret_by_id_and_key_digest fault database id digest now)
              why)
            w
            (Ends-store_call fault ⊥ (λ r t'. (r, t') ≡ read_step id digest now (tables w)) why
              (consume_unexpired_secret_by_id_and_key_digest fault database id digest now) w
              (consume-Outcome fault database id digest now w.sqlite v))
            (λ e w' h. (h.0, never h.2, ap count_error h.1)))
          (λ e w' h. (unanswered h.1, (λ i. (h.0 i).secrets), h.2))
          (λ r w' h. answer (first (is_readable id now) (tables w).secrets) refl r w' h.0 h.1)
      where
        why : String → ApiError
        why error = internal ("failed to load secret: " ++ error)

        count_error : AppMetrics → AppMetrics
        count_error m = record m { db_errors_read = fetch_add m.db_errors_read 1 }

        Bad : ApiError → World → Type 0
        Bad e w' =
            (reason : NotRead fault id digest now w e) × IsKept w w'
            × (w'.metrics ≡ count_not_read reason w.metrics)

        answer :
            (o : Option SecretRow)
            → first (is_readable id now) (tables w).secrets ≡ o
            → (r : ConsumeSecretResult) (w' : World)
            → (r, tables w') ≡ read_found id digest (tables w) o
            → w'.metrics ≡ w.metrics
            → Ends (Read id digest now w) Bad (answer_read r w')
        answer none e r w' h same =
            subst (λ r. Ends (Read id digest now w) Bad (answer_read r w')) (sym (ap (λ p. p.0) h))
              (record { at = (missing e refl, (λ i. (h i).1.secrets), same) })
        answer (some row) e r w' h same = elim (Bool-cases (opens row digest)) [
          | inl fits ↦
              let h' : (r, tables w') ≡ (consumed (record_of row), without (has_id id) (tables w)) =
                rw fits at h in
              subst (λ r. Ends (Read id digest now w) Bad (answer_read r w'))
                (sym (ap (λ p. p.0) h'))
                (record {
                  at = record {
                    row = row;
                    readable = e;
                    opened = fits;
                    answer = refl;
                    gone = λ i. (h' i).1.secrets;
                    counted = ap (count_read (record_of row).size_bytes) same;
                  };
                })
          | inr apart ↦
              let h' : (r, tables w') ≡ (key_mismatch, tables w) = rw apart at h in
              subst (λ r. Ends (Read id digest now w) Bad (answer_read r w'))
                (sym (ap (λ p. p.0) h'))
                (record { at = (wrong_key row e apart refl, (λ i. (h' i).1.secrets), same) })
        ]

    pub Read-tables :
        (w w' : World) (response : ReadSecretResponse) (w'' : World)
        → IsKept w w'
        → w'.metrics ≡ w.metrics
        → Read id digest now w' response w''
        → Read id digest now w response w''
    Read-tables w w' response w'' kept same h = record {
      row = h.row;
      readable = ap (first (is_readable id now)) (sym kept) ∙ h.readable;
      opened = h.opened;
      answer = h.answer;
      gone = h.gone ∙ ap (remaining (has_id id)) kept;
      counted = h.counted ∙ ap (count_read (record_of h.row).size_bytes) same;
    }

    pub NotRead-tables :
        (w w' : World) (e : ApiError)
        → IsKept w w'
        → NotRead fault id digest now w' e
        → NotRead fault id digest now w e
    NotRead-tables w w' e kept (missing h k) =
        missing (ap (first (is_readable id now)) (sym kept) ∙ h) k
    NotRead-tables w w' e kept (wrong_key row h o k) =
        wrong_key row (ap (first (is_readable id now)) (sym kept) ∙ h) o k
    NotRead-tables w w' e kept (unanswered f) = unanswered f

    pub count_not_read-tables :
        (w w' : World) (e : ApiError) (kept : IsKept w w')
        (reason : NotRead fault id digest now w' e) (m : AppMetrics)
        → count_not_read (NotRead-tables w w' e kept reason) m ≡ count_not_read reason m
    unfolding NotRead-tables
    count_not_read-tables w w' e kept (missing h k) m = refl
    count_not_read-tables w w' e kept (wrong_key row h o k) m = refl
    count_not_read-tables w w' e kept (unanswered f) m = refl
