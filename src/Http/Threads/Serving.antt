-- ===== src/Http/Threads/Serving.antt =====
-- The requests of src/http.rs, interleaved in any order: the answers that are paid for and what is left
-- of the measure never exceed what there was and what the creations brought.
use psst_rs.Prelude.{ℕ, ◌+◌, ◌≤◌, String, Bool, Option, List, [], ◌∷◌, All, arith, bit, count}
use psst_rs.Prelude.Int.{ℤ}
use psst_rs.Crypto.{Crypto}
use psst_rs.Config.{AppConfig}
use psst_rs.RequestContext.{ClientIp, HeaderMap}
use psst_rs.Secret.{generate_secret_reference}
use psst_rs.Db.Tables.{Tables}
use psst_rs.Db.Connection.{Database}
use psst_rs.Db.Spec.{IsValid}
use psst_rs.Maintenance.{current_timestamp}
use psst_rs.Http.Api.{World}
use psst_rs.Http.Ends.{tables}
use psst_rs.Http.Program.Costs.{Affords, finished-Affords, and_then-Affords}
use psst_rs.Http.Program.Funding.{IsPaid, Funded, given, run_schedule-Funded}
use psst_rs.Http.Threads.{
  Request, create, read, delete, maintain, created, was_read, was_deleted, maintained, reading,
  serve, serve_all, run_requests,
}
use psst_rs.Http.Threads.Tariff.{Tariff}
use psst_rs.Http.Threads.Creating.{creating-Affords}
use psst_rs.Http.Threads.Deleting.{IsTimely, deleting-Affords, maintaining-Affords}

-- The turns of the maintenance come at such times.
abbrev pub IsOnTime : (ℤ → Type 0) → Request → Type 0
IsOnTime Timely (maintain clock) = IsTimely Timely (current_timestamp clock)
IsOnTime Timely _ = Unit

module _ (measure : Tables → ℕ) (Timely : ℤ → Type 0) (tariff : Tariff measure Timely)
    (crypto : Crypto) (fault : ℕ → Bool) (database : Database) (config : AppConfig) where
  abbrev pub cost_of : Request → ℕ
  cost_of (create client id_bytes token_bytes client_ip clock payload) =
      tariff.cost (generate_secret_reference crypto id_bytes token_bytes).secret_id
  cost_of _ = 0

  abbrev pub total : List Request → ℕ
  total [] = 0
  total (request ∷ requests) = cost_of request + total requests

  -- A read pays for its answer.
  abbrev pub PaysReads : Type 0
  PaysReads =
      (client_ip : Option ClientIp) (clock : Option ℕ) (secret_id : String) (headers : HeaderMap)
      → Affords IsValid measure
          (λ m r. bit (tariff.gives (was_read client_ip clock secret_id r)) ≤ m) 0
          (reading crypto fault database config client_ip clock secret_id headers)

  module _ (reads : PaysReads) where
    serve-Affords :
        (request : Request)
        → IsOnTime Timely request
        → Affords IsValid measure
            (IsPaid tariff.gives)
            (cost_of request)
            (serve crypto fault database config request)
    unfolding serve
    serve-Affords (create client id_bytes token_bytes client_ip clock payload) timely =
        and_then-Affords IsValid measure _ _ _
          (creating-Affords measure Timely tariff crypto fault database config client id_bytes
            token_bytes client_ip clock payload)
          (λ m r _.
            finished-Affords IsValid measure _ m (created r)
              (rw (tariff.creations r) (omega arith)))
    serve-Affords (read client_ip clock secret_id headers) timely =
        and_then-Affords IsValid measure _ _ 0 (reads client_ip clock secret_id headers)
          (λ m r h. finished-Affords IsValid measure _ m (was_read client_ip clock secret_id r) h)
    serve-Affords (delete secret_id payload) timely =
        and_then-Affords IsValid measure _ _ 0
          (deleting-Affords measure Timely tariff crypto fault database config secret_id payload)
          (λ m r h.
            finished-Affords IsValid measure _ m (was_deleted secret_id r)
              (rw (tariff.deletions secret_id r) h))
    serve-Affords (maintain clock) timely =
        and_then-Affords IsValid measure _ _ 0
          (maintaining-Affords measure Timely tariff crypto fault database config
            (current_timestamp clock) timely)
          (λ m r _. finished-Affords IsValid measure _ m maintained (rw tariff.turns (omega arith)))

    serve_all-Funded :
        (requests : List Request)
        → All (IsOnTime Timely) requests
        → Funded IsValid measure tariff.gives
            (total requests)
            (serve_all crypto fault database config requests)
    serve_all-Funded [] timely = tt
    serve_all-Funded (request ∷ requests) (timely, later) = (
      cost_of request,
      total requests,
      omega arith,
      serve-Affords request timely,
      serve_all-Funded requests later,
    )

    pub run_requests-Paid :
        (schedule : List ℕ) (requests : List Request) (w : World)
        → IsValid (tables w)
        → All (IsOnTime Timely) requests
        → (count
                (given tariff.gives)
                (run_requests crypto fault database config schedule requests w).0
              + measure (tables (run_requests crypto fault database config schedule requests w).1)
            ≤ total requests + measure (tables w))
          × IsValid (tables (run_requests crypto fault database config schedule requests w).1)
    run_requests-Paid schedule requests w v timely =
        run_schedule-Funded IsValid measure tariff.gives schedule (total requests)
          (serve_all crypto fault database config requests) w v (serve_all-Funded requests timely)
