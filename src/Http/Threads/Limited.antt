-- ===== src/Http/Threads/Limited.antt =====
-- The rate limit of the reads of src/http.rs holds however the requests are interleaved.
use Prim.Native.String.{◌++◌}
use psst_rs.Prelude.{
  ℕ, ◌-◌, ◌≤◌, String, ◌≡◌, refl, ap, sym, ◌∙◌, subst, Bool, true, false, ◌&&◌, Option, none, some,
  List, [], ◌∷◌, All, arith, bit, count,
}
use psst_rs.Prelude.Int.{ℤ, eq_ℤ, pos_part}
use psst_rs.Prelude.Exec.{Result, ok, err}
use psst_rs.Crypto.{Crypto}
use psst_rs.Config.{AppConfig}
use psst_rs.RateLimit.{read_minute, key, bucket_for_timestamp}
use psst_rs.RequestContext.{ClientIp, HeaderMap}
use psst_rs.Secret.{ReadSecretResponse}
use psst_rs.Db.Tables.{Tables, ConsumeSecretResult, consumed, not_found, key_mismatch}
use psst_rs.Db.Connection.{Database}
use psst_rs.Db.Spec.{IsValid, counter, read_step}
use psst_rs.Db.Store.{consume_unexpired_secret_by_id_and_key_digest}
use psst_rs.Db.Reads.{consume-Outcome}
use psst_rs.Db.Validity.{read_step-IsValid}
use psst_rs.Http.Api.{ApiError, World, store_call, internal, current_timestamp}
use psst_rs.Http.Ends.{tables}
use psst_rs.Http.Limits.{check_read_rate_limit}
use psst_rs.Http.Handlers.{hash_of, answer_read}
use psst_rs.Http.Program.{atomically}
use psst_rs.Http.Program.Costs.{
  Affords, finished-Affords, bind-Affords, counting-Affords, atomically-Affords,
}
use psst_rs.Http.Program.Calls.{store_call-Affords}
use psst_rs.Http.Program.Funding.{given}
use psst_rs.Http.Threads.{Request, create, read, delete, maintain, reading, run_requests}
use psst_rs.Http.Threads.Serving.{IsOnTime, run_requests-Paid, total}
use psst_rs.Http.Threads.Attempts.{SaysNothing, header-SaysNothing, Passed, attempt-Affords}
use psst_rs.Http.Threads.Guessing.{
  tells, learns, is_theirs, asks_as, asks_in, informs, IsKeptAt, reads_left, same_counters,
  read_step-rate_limits, guess_tariff,
}

-- Nothing is paid for an answer of others.
bit_and : (a b : Bool) (n : ℕ) → bit a ≤ n → bit (a && b) ≤ n
bit_and true true n h = h
bit_and true false n h = omega arith
bit_and false b n h = omega arith

bit_last : (a b : Bool) (n : ℕ) → b ≡ false → bit (a && b) ≤ n
bit_last true b n e = rw e (omega arith)
bit_last false b n e = omega arith

module _ (crypto : Crypto) (fault : ℕ → Bool) (database : Database) (config : AppConfig)
    (hash : String) (bucket : ℤ) where
  abbrev spare : Tables → ℕ
  spare = reads_left crypto config hash bucket

  check_read-Affords :
      (requester : Option String) (now : ℤ) (n : ℕ)
      → Affords IsValid spare
          (Passed crypto fault database config hash bucket
            (asks_as hash requester && eq_ℤ (bucket_for_timestamp read_minute now) bucket))
          n
          (atomically (check_read_rate_limit fault database config requester now))
  unfolding check_read_rate_limit
  check_read-Affords none now n =
      atomically-Affords IsValid spare _ _ n (λ w v. (n, (omega arith, v), omega arith))
  check_read-Affords (some other) now n =
      attempt-Affords crypto fault database config hash bucket other now n

  -- The row is read, or an error says nothing.
  abbrev Found : Bool → ℕ → Result ApiError ConsumeSecretResult → Type 0
  Found theirs n (ok q) = bit theirs ≤ n
  Found theirs n (err e) = tells e ≡ false

  module _ (client_ip : Option ClientIp) (clock : Option ℕ) (id : String) where
    abbrev theirs : Bool
    theirs = is_theirs crypto config hash bucket client_ip clock

    abbrev Informed : ℕ → Result ApiError ReadSecretResponse → Type 0
    Informed n r = bit (theirs && learns r) ≤ n

    consume-Affords :
        (digest : String) (now : ℤ) (n : ℕ)
        → bit theirs ≤ n
        → Affords IsValid spare (Found theirs) n (
            atomically (
              store_call
                (consume_unexpired_secret_by_id_and_key_digest fault database id digest now)
                (λ error. internal ("failed to load secret: " ++ error))))
    unfolding internal
    consume-Affords digest now n h =
        store_call-Affords IsValid spare fault (λ _. ⊥)
          (λ t q t'. (q, t') ≡ read_step id digest now t)
          (consume_unexpired_secret_by_id_and_key_digest fault database id digest now) n
          (λ s v. consume-Outcome fault database id digest now s v) _ _
          (λ q t t' v k. (
            n,
            (
              rw
                  (same_counters crypto config hash bucket t t'
                    ((λ j. (k j).1.rate_limits) ∙ read_step-rate_limits id digest now t))
                  (omega arith),
              subst IsValid (λ j. (sym k j).1) (read_step-IsValid id digest now t v),
            ),
            h,
          ))
          (λ e. refl)

    answer_read-Affords :
        (q : ConsumeSecretResult) (n : ℕ)
        → bit theirs ≤ n
        → Affords IsValid spare Informed n (atomically (answer_read q))
    answer_read-Affords (consumed secret) n h =
        atomically-Affords IsValid spare (answer_read (consumed secret)) _ n
          (λ w v. (n, (omega arith, v), bit_and theirs _ n h))
    answer_read-Affords not_found n h =
        atomically-Affords IsValid spare (answer_read not_found) _ n
          (λ w v. (n, (omega arith, v), bit_and theirs _ n h))
    answer_read-Affords key_mismatch n h =
        atomically-Affords IsValid spare (answer_read key_mismatch) _ n
          (λ w v. (n, (omega arith, v), bit_and theirs _ n h))

    late : (e : ApiError) (n : ℕ) → err e ≡ current_timestamp clock → Informed n (err e)
    late e n q = bit_and theirs (tells e) n (
        bit_last (asks_as hash (hash_of crypto config client_ip)) _ n (ap (asks_in bucket) (sym q)))

    pub reading-Affords :
        (headers : HeaderMap)
        → Affords IsValid spare Informed 0
            (reading crypto fault database config client_ip clock id headers)
    unfolding reading
    reading-Affords headers =
        bind-Affords IsValid spare (λ _ r. r ≡ current_timestamp clock) Informed 0
          (finished-Affords IsValid spare _ 0 _ refl) (λ m e q. late e m q)
          λ m now timed.
            bind-Affords IsValid spare (λ _ r. SaysNothing r) Informed m
              (finished-Affords IsValid spare _ m _ (header-SaysNothing crypto headers))
              (λ k e q. bit_last theirs (tells e) k q)
              λ k digest _.
                bind-Affords IsValid spare
                  (Passed crypto fault database config hash bucket (
                    asks_as hash (hash_of crypto config client_ip)
                    && eq_ℤ (bucket_for_timestamp read_minute now) bucket))
                  Informed k
                  (counting-Affords IsValid spare _ _ k
                    (check_read-Affords (hash_of crypto config client_ip) now k))
                  (λ j e q. bit_last theirs (tells e) j q)
                  λ j _ passed.
                    bind-Affords IsValid spare (Found theirs) Informed j
                      (counting-Affords IsValid spare _ _ j
                        (consume-Affords digest now j (in_time now j timed passed)))
                      (λ i e q. bit_last theirs (tells e) i q) (λ i q h. answer_read-Affords q i h)
      where
        in_time :
            (now : ℤ) (n : ℕ)
            → ok now ≡ current_timestamp clock
            → bit (
                asks_as hash (hash_of crypto config client_ip)
                && eq_ℤ (bucket_for_timestamp read_minute now) bucket)
              ≤ n
            → bit theirs ≤ n
        in_time now n timed h =
            subst
              (λ r. bit (asks_as hash (hash_of crypto config client_ip) && asks_in bucket r) ≤ n)
              timed h

  free :
      (requests : List Request)
      → total spare
          (IsKeptAt bucket)
          (guess_tariff crypto config hash bucket)
          crypto
          fault
          database
          config
          requests
        ≡ 0
  free [] = refl
  free (create client id_bytes token_bytes client_ip clock payload ∷ requests) =
      omega (arith, free requests)
  free (read client_ip clock id headers ∷ requests) = omega (arith, free requests)
  free (delete id payload ∷ requests) = omega (arith, free requests)
  free (maintain clock ∷ requests) = omega (arith, free requests)

  -- From valid tables, for any creations, reads, deletions and turns of the maintenance whose steps
  -- are interleaved in any order, and whichever calls of SQLite fail: the requester with the
  -- pseudonym `hash` gets, in the minute `bucket`, at most as many answers that hand out a secret,
  -- say that there is none, or say that the key is wrong, as the limit leaves after the attempts
  -- that are already counted. The turns of the maintenance are such that this minute is not yet
  -- among those whose counters they delete.
  pub run_requests-informs :
      (schedule : List ℕ) (requests : List Request) (w : World)
      → IsValid (tables w)
      → All (IsOnTime (IsKeptAt bucket)) requests
      → count
          (given (informs crypto config hash bucket))
          (run_requests crypto fault database config schedule requests w).0
        ≤ config.read_rate_limit_per_minute
          - pos_part (counter (key read_minute hash) bucket (tables w).rate_limits)
  run_requests-informs schedule requests w v kept = omega (
    arith,
    (run_requests-Paid spare (IsKeptAt bucket) (guess_tariff crypto config hash bucket) crypto fault
        database config reading-Affords schedule requests w v kept).0,
    free requests,
  )
