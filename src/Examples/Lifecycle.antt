-- ===== src/Examples/Lifecycle.antt =====
-- The theorems on the life of a secret in src/http.rs, at the requests of Examples/Data.antt.
use psst_rs.Prelude.{String, ◌≡◌, refl, ap, true, some, [], ◌∷◌, arith, any}
use psst_rs.Prelude.Int.{pos, ◌+ℤ◌, div_euclid, checked_add_i64}
use psst_rs.Prelude.Exec.{Result, ok, ◌>>=◌}
use psst_rs.Prelude.Text.{len, as_bytes}
use psst_rs.Secret.{
  generate_secret_reference, hash_delete_token, generate_random_token, is_valid_read_key_digest,
  is_allowed_ttl, CreateSecretResponse,
}
use psst_rs.RateLimit.{key, key_prefix, bucket_for_timestamp, bucket_size_seconds}
use psst_rs.RequestContext.{hashed_identifier, family_octets}
use psst_rs.Db.Spec.{counter, IsValid}
use psst_rs.Db.Tables.{Tables}
use psst_rs.Db.Statements.{sum_size_bytes, upsert_counter, has_id}
use psst_rs.Db.Stats.{active_bytes}
use psst_rs.Http.Api.{World, ApiError, current_timestamp, secret_not_found}
use psst_rs.Http.Validate.{
  ValidatedCreateRequest, validate_create_request, extract_read_key_digest, ensure_create_enabled,
}
use psst_rs.Http.Turnstile.{verify_turnstile}
use psst_rs.Http.Ends.{Succeeds, Fails}
use psst_rs.Http.Limits.{count_attempt, check_create_rate_limit_hook, enforce_global_create_quotas}
use psst_rs.Db.Store.{
  insert_secret, active_secret_stats, increment_rate_limit_counter, read_counter,
}
use psst_rs.Db.Connection.{
  open_connection, configure_connection, engine, with_immediate_transaction,
}
use psst_rs.Http.Handlers.{
  admit_create, store_create, create_secret_stub, read_secret, delete_secret, expiry,
}
use psst_rs.Http.Handlers.Consuming.{IsKept}
use psst_rs.Http.Handlers.Creation.{Served}
use psst_rs.Http.Lifecycle.Accepting.{IsWelcome, create_secret_stub-Succeeds}
use psst_rs.Http.Lifecycle.Delivery.{IsAbsent, IsAsked, read_secret-Succeeds, read_secret-Fails}
use psst_rs.Http.Lifecycle.RoundTrip.{
  read_secret-create_secret_stub, delete_secret-create_secret_stub,
}
use psst_rs.Examples.Data.{
  idle, random_bytes, old_row, no_fault, database, filled-IsValid, world, config, crypto, client_ip,
  creation, client, headers, digest, row,
}

abbrev accepted : ValidatedCreateRequest
accepted = record { ciphertext_size_bytes = 3; expires_in_seconds = 900 }

read-IsAsked :
    (id : String)
    → IsAsked crypto no_fault database config client_ip (some 500) id headers (pos 500) digest world
unfolding current_timestamp extract_read_key_digest is_valid_read_key_digest hashed_identifier
    family_octets counter key key_prefix bucket_for_timestamp bucket_size_seconds div_euclid
read-IsAsked id = record { asked = record { time = refl; header = refl }; allowed = ground arith }

read_secret-Succeeds_example :
    Succeeds
      (λ response w'.
        (response ≡ record { ciphertext = "cipher"; nonce = "nonce" }) × IsAbsent "first" w')
      (read_secret crypto no_fault database config client_ip (some 500) "first" headers world)
read_secret-Succeeds_example =
    read_secret-Succeeds crypto no_fault database config client_ip (some 500) "first" headers
      (pos 500) digest row world (λ n. refl) filled-IsValid (read-IsAsked "first") refl refl

read_secret-Fails_example :
    Fails
      (λ e w'. (e ≡ secret_not_found) × IsKept world w')
      (read_secret crypto no_fault database config client_ip (some 500) "third" headers world)
read_secret-Fails_example =
    read_secret-Fails crypto no_fault database config client_ip (some 500) "third" headers (pos 500)
      digest world (λ n. refl) filled-IsValid (read-IsAsked "third") refl

creation-IsWelcome :
    IsWelcome crypto no_fault database config client_ip creation client idle random_bytes
      random_bytes
      (some 500)
      (pos 500)
      (pos 1400)
      accepted
      world
unfolding current_timestamp validate_create_request is_valid_read_key_digest is_allowed_ttl
    ensure_create_enabled hashed_identifier family_octets counter key key_prefix
    bucket_for_timestamp bucket_size_seconds div_euclid verify_turnstile expiry checked_add_i64
    generate_secret_reference generate_random_token len as_bytes sum_size_bytes active_bytes ◌>>=◌
    ◌+ℤ◌
creation-IsWelcome = record {
  time = refl;
  valid = refl;
  enabled = refl;
  room = record { number = ground arith; bytes = ground arith };
  limit = ground arith;
  rates = ground arith;
  verified = refl;
  due = refl;
  fresh = λ waiting kept.
      ap (any (has_id (generate_secret_reference crypto random_bytes random_bytes).secret_id)) kept;
}

create_secret_stub-Succeeds_example :
    Succeeds
      (Served crypto no_fault database config client_ip creation client idle
        (generate_secret_reference crypto random_bytes random_bytes)
        (some 500)
        world)
      (create_secret_stub crypto no_fault database config client idle random_bytes random_bytes
        client_ip
        (some 500)
        creation
        world)
create_secret_stub-Succeeds_example =
    create_secret_stub-Succeeds crypto no_fault database config client_ip creation client idle
      random_bytes random_bytes (some 500) (pos 500) (pos 1400) accepted world (λ n. refl)
      filled-IsValid creation-IsWelcome

-- What the creation answers, and the state it leaves.
abbrev answered : CreateSecretResponse
unfolding generate_random_token
answered = record {
  id = generate_random_token crypto 16 random_bytes;
  delete_token = generate_random_token crypto 32 random_bytes;
}

abbrev run_of_creation : Result ApiError CreateSecretResponse × World
run_of_creation =
    create_secret_stub crypto no_fault database config client idle random_bytes random_bytes
      client_ip (some 500) creation world

abbrev created_world : World
created_world = run_of_creation.1

-- The same state some time later: the counters have been purged.
abbrev later_tables : Tables
unfolding generate_random_token
later_tables = record {
  secrets =
      record row {
        id = generate_random_token crypto 16 random_bytes;
        ciphertext = "new";
        nonce = "n";
        created_at = pos 500;
        expires_at = pos 1400;
        size_bytes = pos 3;
        requester_ip_hash = some digest;
      }
      ∷ row
      ∷ old_row
      ∷ [];
  rate_limits = [];
}

abbrev later_world : World
later_world = record world { sqlite = record world.sqlite { tables = later_tables } }

later_tables-IsValid : IsValid later_tables
unfolding generate_random_token
later_tables-IsValid = record {
  ids = (refl, (refl, (refl, tt)));
  stored = (record { unconsumed = refl; sized = omega arith }, filled-IsValid.stored);
  counters = tt;
  counted = tt;
}

created_run : (run_of_creation ≡ (ok answered, created_world)) × IsKept created_world later_world
unfolding current_timestamp validate_create_request is_valid_read_key_digest is_allowed_ttl
    ensure_create_enabled hashed_identifier family_octets counter key key_prefix
    bucket_for_timestamp bucket_size_seconds div_euclid verify_turnstile expiry checked_add_i64
    generate_secret_reference generate_random_token len as_bytes sum_size_bytes active_bytes ◌>>=◌
    ◌+ℤ◌ create_secret_stub admit_create store_create enforce_global_create_quotas
    check_create_rate_limit_hook count_attempt insert_secret active_secret_stats
    increment_rate_limit_counter read_counter upsert_counter open_connection configure_connection
    engine with_immediate_transaction hash_delete_token
created_run = (refl, refl)

created_due : expiry (pos 500) 900 ≡ ok (pos 1400)
unfolding expiry checked_add_i64 ◌+ℤ◌
created_due = refl

time_of : current_timestamp (some 500) ≡ ok (pos 500)
unfolding current_timestamp
time_of = refl

later-IsAsked :
    IsAsked crypto no_fault database config client_ip
      (some 600)
      answered.id
      headers
      (pos 600)
      digest
      later_world
unfolding current_timestamp extract_read_key_digest is_valid_read_key_digest hashed_identifier
    family_octets counter key key_prefix bucket_for_timestamp bucket_size_seconds div_euclid
    generate_random_token
later-IsAsked = record { asked = record { time = refl; header = refl }; allowed = ground arith }

read_secret-create_secret_stub_example :
    Succeeds
      (λ read w₃. (read ≡ record { ciphertext = "new"; nonce = "n" }) × IsAbsent answered.id w₃)
      (read_secret crypto no_fault database config client_ip
        (some 600)
        answered.id
        headers
        later_world)
read_secret-create_secret_stub_example =
    read_secret-create_secret_stub crypto no_fault database config client_ip creation client idle
      random_bytes random_bytes (some 500) (pos 500) (pos 1400) answered world created_world
      filled-IsValid time_of created_due created_run.0 client_ip (some 600) headers (pos 600)
      later_world (λ n. refl) created_run.1 later_tables-IsValid (omega arith) later-IsAsked

delete_secret-create_secret_stub_example :
    Succeeds
      (λ deletion w₃. (deletion.deleted ≡ true) × IsAbsent answered.id w₃)
      (delete_secret crypto no_fault database config answered.id
        (record { delete_token = answered.delete_token })
        later_world)
unfolding generate_random_token
delete_secret-create_secret_stub_example =
    delete_secret-create_secret_stub crypto no_fault database config client_ip creation client idle
      random_bytes random_bytes (some 500) (pos 500) (pos 1400) answered world created_world
      filled-IsValid time_of created_due created_run.0 later_world (λ n. refl) created_run.1 refl
