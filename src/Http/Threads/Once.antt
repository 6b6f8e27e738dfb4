-- ===== src/Http/Threads/Once.antt =====
-- A secret leaves the server of src/http.rs at most once, however its requests are interleaved.
use psst_rs.Prelude.{
  Option-cases, inl, inr, ℕ, ◌≤◌, String, ◌≡◌, refl, Bool, Option, none, some, arith, bit, All, ◌+◌,
  List, [], ◌∷◌, count,
}
use psst_rs.Prelude.Int.{ℤ}
use psst_rs.Http.Threads.Spending.{
  secret_tariff, IsSpent, hands, stored_bit, gives, brings, read_step-Pays,
}
use psst_rs.Http.Threads.Tariff.{count_attempt-Keeps}
use psst_rs.Http.Threads.Serving.{IsOnTime, cost_of, total, run_requests-Paid}
use psst_rs.Crypto.{Crypto}
use psst_rs.Config.{AppConfig}
use psst_rs.RateLimit.{read_minute}
use psst_rs.RequestContext.{ClientIp, HeaderMap}
use psst_rs.Db.Tables.{ConsumeSecretResult, consumed, not_found, key_mismatch}
use psst_rs.Db.Connection.{Database}
use psst_rs.Db.Spec.{IsValid, read_step}
use psst_rs.Db.Reads.{consume-Outcome}
use psst_rs.Http.Limits.{check_read_rate_limit}
use psst_rs.Maintenance.{current_timestamp}
use psst_rs.Http.Handlers.{hash_of, answer_read}
use psst_rs.Http.Program.{atomically}
use psst_rs.Http.Program.Costs.{
  Affords, Keeps, finished-Keeps, bind-Affords, Keeps-Affords, counting-Affords, atomically-Affords,
  atomically-Keeps,
}
use psst_rs.Http.Program.Calls.{store_call-Affords}
use psst_rs.Http.Threads.{was_read, reading, Request, create, read, delete, maintain, run_requests}
use psst_rs.Db.Trace.Once.{present}
use psst_rs.Http.Api.{World}
use psst_rs.Http.Ends.{tables}
use psst_rs.Http.Program.Funding.{given}

module _ (id : String) (crypto : Crypto) (fault : ℕ → Bool) (database : Database)
    (config : AppConfig) where
  answer_read-Affords :
      (client_ip : Option ClientIp) (clock : Option ℕ) (i : String) (q : ConsumeSecretResult)
      (n : ℕ)
      → bit (hands id i q) ≤ n
      → Affords IsValid
          (stored_bit id)
          (λ m r. bit (gives id (was_read client_ip clock i r)) ≤ m)
          n
          (atomically (answer_read q))
  answer_read-Affords client_ip clock i (consumed secret) n h =
      atomically-Affords IsValid (stored_bit id) (answer_read (consumed secret)) _ n
        (λ w v. (n, (omega arith, v), h))
  answer_read-Affords client_ip clock i not_found n h =
      atomically-Affords IsValid (stored_bit id) (answer_read not_found) _ n
        (λ w v. (n, (omega arith, v), omega arith))
  answer_read-Affords client_ip clock i key_mismatch n h =
      atomically-Affords IsValid (stored_bit id) (answer_read key_mismatch) _ n
        (λ w v. (n, (omega arith, v), omega arith))

  check_read-Keeps :
      (hash : Option String) (now : ℤ) (n : ℕ)
      → Keeps IsValid
          (stored_bit id)
          n
          (atomically (check_read_rate_limit fault database config hash now))
  unfolding check_read_rate_limit
  check_read-Keeps none now n =
      atomically-Keeps IsValid (stored_bit id) _ n (λ w v. (omega arith, v))
  check_read-Keeps (some hash) now n =
      count_attempt-Keeps (stored_bit id) (λ _. Unit) (secret_tariff id) fault database config n
        read_minute _ _ hash now

  reading-Affords :
      (client_ip : Option ClientIp) (clock : Option ℕ) (i : String) (headers : HeaderMap)
      → Affords IsValid
          (stored_bit id)
          (λ m r. bit (gives id (was_read client_ip clock i r)) ≤ m)
          0
          (reading crypto fault database config client_ip clock i headers)
  unfolding reading
  reading-Affords client_ip clock i headers =
      Keeps-Affords IsValid (stored_bit id) _ 0 (finished-Keeps IsValid (stored_bit id) 0)
        (λ e. omega arith)
        λ now.
          Keeps-Affords IsValid (stored_bit id) _ 0 (finished-Keeps IsValid (stored_bit id) 0)
            (λ e. omega arith)
            λ key_digest.
              Keeps-Affords IsValid (stored_bit id) _ 0
                (counting-Affords IsValid (stored_bit id) _ _ 0
                  (check_read-Keeps (hash_of crypto config client_ip) now 0))
                (λ e. omega arith)
                λ _.
                  bind-Affords IsValid (stored_bit id) (IsSpent id (hands id i)) _ 0
                    (counting-Affords IsValid (stored_bit id) _ _ 0 (
                      store_call-Affords IsValid (stored_bit id) fault (λ _. ⊥)
                        (λ t q t'. (q, t') ≡ read_step i key_digest now t) _ 0
                        (λ s v. consume-Outcome fault database i key_digest now s v) _ _
                        (λ q t t' v h. read_step-Pays id i key_digest now q t t' v h) (λ e. tt)))
                    (λ m e _. omega arith) (λ m q h. answer_read-Affords client_ip clock i q m h)

  cost_brings :
      (request : Request)
      → cost_of (stored_bit id) (λ _. Unit) (secret_tariff id) crypto fault database config request
        ≡ bit (brings crypto id request)
  cost_brings (create client id_bytes token_bytes client_ip clock payload) = refl
  cost_brings (read client_ip clock secret_id headers) = refl
  cost_brings (delete secret_id payload) = refl
  cost_brings (maintain clock) = refl

  total-brings :
      (requests : List Request)
      → total (stored_bit id) (λ _. Unit) (secret_tariff id) crypto fault database config requests
        ≡ count (brings crypto id) requests
  total-brings [] = refl
  total-brings (request ∷ requests) = ground (arith, total-brings requests, cost_brings request)

  any_time : (request : Request) → IsOnTime (λ _. Unit) request
  any_time (create client id_bytes token_bytes client_ip clock payload) = tt
  any_time (read client_ip clock secret_id headers) = tt
  any_time (delete secret_id payload) = tt
  any_time (maintain clock) = elim (Option-cases (current_timestamp clock)) [
    | inl e ↦ rw e tt
    | inr (now, e) ↦ rw e tt
  ]

  always : (requests : List Request) → All (IsOnTime (λ _. Unit)) requests
  always [] = tt
  always (request ∷ requests) = (any_time request, always requests)

  -- From valid tables, for any creations, reads, deletions and maintenance turns whose steps are
  -- interleaved in any order, and whichever calls of SQLite fail: the answers that hand the secret
  -- `id` out or confirm its deletion, and the row with this id if it is still there, are together
  -- at most as many as the row that was there at the start and the creations whose random bytes
  -- are `id`. The tables stay valid. So a secret that is stored and that no creation brings again
  -- leaves at most once.
  pub run_schedule-gives :
      (schedule : List ℕ) (requests : List Request) (w : World)
      → IsValid (tables w)
      → (count (given (gives id)) (run_requests crypto fault database config schedule requests w).0
            + bit (
                present id
                  (tables (run_requests crypto fault database config schedule requests w).1))
          ≤ count (brings crypto id) requests + bit (present id (tables w)))
        × IsValid (tables (run_requests crypto fault database config schedule requests w).1)
  run_schedule-gives schedule requests w v = rw (← total-brings requests) (
      run_requests-Paid (stored_bit id) (λ _. Unit) (secret_tariff id) crypto fault database config
        reading-Affords schedule requests w v (always requests))
