-- ===== src/Examples/Threads.antt =====
-- The theorems on interleaved requests, at two readers of one secret and a creation.
use psst_rs.Config.{AppConfig}
use psst_rs.Db.Statements.{is_active, sum_size_bytes, upsert_counter}
use psst_rs.Db.Stats.{active_bytes}
use psst_rs.Prelude.Int.{checked_add_i64, pos_part, ◌-ℤ◌, saturating_sub_i64, pos, ◌+ℤ◌, div_euclid}
use psst_rs.Prelude.Text.{len, as_bytes}
use psst_rs.Secret.{
  generate_secret_reference, generate_random_token, hash_delete_token, is_allowed_ttl,
  is_valid_read_key_digest,
}
use psst_rs.Http.Validate.{validate_create_request, ensure_create_enabled, extract_read_key_digest}
use psst_rs.Http.Limits.{enforce_global_create_quotas, count_attempt, check_read_rate_limit}
use psst_rs.Http.Turnstile.{verify_turnstile}
use psst_rs.Http.Handlers.{expiry}
use psst_rs.Db.Store.{
  insert_secret, active_secret_stats, increment_rate_limit_counter, read_counter, consume_keyed,
  consume_unexpired_secret_by_id_and_key_digest,
}
use psst_rs.Http.Threads.{
  creating, admitting, storing, count_creation, Request, create, read, delete, maintain, was_read,
  reading, serve, run_requests,
}
use psst_rs.Prelude.{String, ◌-◌, ℕ, ◌≤◌, ◌+◌, ◌≡◌, refl, some, List, [], ◌∷◌, bit, count}
use psst_rs.RateLimit.{
  read_minute, purge_cutoff_bucket, key, key_prefix, bucket_for_timestamp, bucket_size_seconds,
}
use psst_rs.Examples.Data.{
  address, random_bytes, no_fault, database, filled-IsValid, world, config, crypto, client_ip,
  creation, client, headers,
}
use psst_rs.Http.Threads.Guessing.{informs}
use psst_rs.Http.Threads.Limited.{run_requests-informs}
use psst_rs.Prelude.Exec.{ok, err, ◌>>=◌}
use psst_rs.RequestContext.{hashed_identifier, family_octets}
use psst_rs.Db.Spec.{counter, IsValid}
use psst_rs.Db.Trace.Once.{present}
use psst_rs.Db.Connection.{
  open_connection, configure_connection, engine, with_immediate_transaction,
}
use psst_rs.Maintenance
use psst_rs.Http.Api.{current_timestamp, secret_not_found}
use psst_rs.Http.Ends.{tables}
use psst_rs.Http.Program.{finished, and_then, advance, run_schedule}
use psst_rs.Http.Program.Funding.{given}
use psst_rs.Http.Threads.Spending.{gives, brings}
use psst_rs.Http.Threads.Once.{run_schedule-gives}

abbrev reader : Request
reader = read client_ip (some 500) "first" headers

abbrev creator : Request
creator = create client random_bytes random_bytes client_ip (some 500) creation

abbrev owner : Request
owner = delete "first" (record { delete_token = "token" })

abbrev requests : List Request
requests = reader ∷ creator ∷ reader ∷ owner ∷ maintain (some 600) ∷ []

-- Both readers pass the rate limit before either asks the store.
abbrev race : List ℕ
race = 2 ∷ 0 ∷ 1 ∷ 0 ∷ 2 ∷ 0 ∷ 2 ∷ 4 ∷ 3 ∷ 0 ∷ 2 ∷ 0 ∷ 3 ∷ []

two_readers :
    (run_requests crypto no_fault database config
      (0 ∷ 1 ∷ 1 ∷ 0 ∷ 1 ∷ 0 ∷ [])
      (reader ∷ reader ∷ [])
      world).0
    ≡ (finished (was_read client_ip (some 500) "first" (err secret_not_found))
        ∷ finished (
            was_read client_ip
              (some 500)
              "first"
              (ok (record { ciphertext = "cipher"; nonce = "nonce" })))
        ∷ [])
unfolding run_schedule advance and_then serve reading current_timestamp extract_read_key_digest
    is_valid_read_key_digest hashed_identifier family_octets counter key key_prefix
    bucket_for_timestamp bucket_size_seconds div_euclid check_read_rate_limit count_attempt
    increment_rate_limit_counter read_counter upsert_counter open_connection configure_connection
    engine with_immediate_transaction consume_keyed consume_unexpired_secret_by_id_and_key_digest
    ◌>>=◌ ◌+ℤ◌
two_readers = refl

-- One secret can be read, two may be: two creations that wait for the verifier together make three.
abbrev small : AppConfig
small = record config { global_max_active_secrets = 2 }

abbrev rival : Request
rival =
    create client (λ n. 8 ∷ random_bytes n) (λ n. 9 ∷ random_bytes n) client_ip (some 500) creation

quota_overrun :
    count
      (is_active (pos 500))
      (tables
        (run_requests crypto no_fault database small
          (0 ∷ 0 ∷ 0 ∷ 0 ∷ 1 ∷ 1 ∷ 1 ∷ 1 ∷ 0 ∷ 0 ∷ 0 ∷ 1 ∷ 1 ∷ 1 ∷ [])
          (creator ∷ rival ∷ [])
          world).1).secrets
    ≡ 3
unfolding run_schedule advance and_then serve creating admitting storing count_creation
    current_timestamp validate_create_request is_valid_read_key_digest is_allowed_ttl
    ensure_create_enabled hashed_identifier family_octets counter key key_prefix
    bucket_for_timestamp bucket_size_seconds div_euclid verify_turnstile expiry checked_add_i64
    generate_secret_reference generate_random_token len as_bytes sum_size_bytes active_bytes ◌+ℤ◌
    enforce_global_create_quotas count_attempt insert_secret active_secret_stats
    increment_rate_limit_counter read_counter upsert_counter open_connection configure_connection
    engine with_immediate_transaction hash_delete_token
quota_overrun = refl

run_schedule-gives_example :
    (count
          (given (gives "first"))
          (run_requests crypto no_fault database config race requests world).0
        + bit (
            present "first"
              (tables (run_requests crypto no_fault database config race requests world).1))
      ≤ count (brings crypto "first") requests + bit (present "first" (tables world)))
    × IsValid (tables (run_requests crypto no_fault database config race requests world).1)
run_schedule-gives_example =
    run_schedule-gives "first" crypto no_fault database config race requests world filled-IsValid

-- The pseudonym of the readers, in the minute of the time 500.
abbrev requester : String
requester = hashed_identifier crypto (record { ip = address }) "salt"

run_requests-informs_example :
    count
      (given (informs crypto config requester (pos 8)))
      (run_requests crypto no_fault database config race requests world).0
    ≤ config.read_rate_limit_per_minute
      - pos_part (counter (key read_minute requester) (pos 8) (tables world).rate_limits)
unfolding Maintenance.current_timestamp purge_cutoff_bucket saturating_sub_i64 bucket_for_timestamp
    bucket_size_seconds div_euclid ◌+ℤ◌ ◌-ℤ◌
run_requests-informs_example =
    run_requests-informs crypto no_fault database config requester (pos 8) race requests world
      filled-IsValid (tt, (tt, (tt, (tt, (refl, tt)))))
