-- ===== src/Examples/Handlers.antt =====
-- The theorems on the handlers of src/http.rs, at the requests of Examples/Data.antt.
use psst_rs.Prelude.{String, ◌≡◌, true, some}
use psst_rs.Prelude.Int.{ℤ, pos}
use psst_rs.Secret.{generate_secret_reference, hash_delete_token}
use psst_rs.RateLimit.{read_minute}
use psst_rs.Http.Ends.{Ends, tables}
use psst_rs.Http.Limits.{count_attempt, check_create_rate_limit_hook, enforce_global_create_quotas}
use psst_rs.Http.Limits.Rates.{
  Passes, Refuses, count_attempt-Ends, PassesCreate, RefusesCreate,
  check_create_rate_limit_hook-Ends,
}
use psst_rs.Http.Limits.Reads.{IsAllowed}
use psst_rs.Http.Limits.Quotas.{HasRoom, NoRoom, IsSame, enforce_global_create_quotas-Ends}
use psst_rs.Http.Handlers.{read_secret, create_secret_stub, delete_secret, hash_of}
use psst_rs.Http.Handlers.Consuming.{Read, IsKept}
use psst_rs.Http.Handlers.Reading.{Asked, ReadRefused, count_refused, read_secret-Ends}
use psst_rs.Http.Handlers.Creation.{Served, CreateRefused, create_secret_stub-Ends}
use psst_rs.Http.Handlers.Deletion.{Deleted, NotDeleted, count_not_deleted, delete_secret-Ends}
use psst_rs.Examples.Data.{
  idle, random_bytes, no_fault, database, filled-IsValid, world, config, crypto, client_ip,
  creation, client, headers,
}

read_secret-Ends_example :
    Ends
      (λ response w'.
        (now : ℤ) × (key_digest : String) × Asked crypto no_fault database config
          (some 500)
          headers
          now
          key_digest
        × IsAllowed no_fault database config (hash_of crypto config client_ip) now world
        × Read "first" key_digest now world response w')
      (λ e w'.
        (reason : ReadRefused crypto no_fault database config client_ip
          (some 500)
          "first"
          headers
          world
          e)
        × IsKept world w'
        × (w'.metrics ≡ count_refused crypto no_fault database config reason world.metrics))
      (read_secret crypto no_fault database config client_ip (some 500) "first" headers world)
read_secret-Ends_example =
    read_secret-Ends crypto no_fault database config client_ip (some 500) "first" headers world
      filled-IsValid

delete_secret-Ends_example :
    Ends
      (λ response w'.
        (response.deleted ≡ true) × Deleted "first" (hash_delete_token crypto "token") world w')
      (λ e w'.
        (reason : NotDeleted no_fault crypto "first" "token" world e) × (tables w' ≡ tables world)
        × (w'.metrics ≡ count_not_deleted reason world.metrics))
      (delete_secret crypto no_fault database config "first"
        (record { delete_token = "token" })
        world)
delete_secret-Ends_example =
    delete_secret-Ends crypto no_fault database config "first" (record { delete_token = "token" })
      world

create_secret_stub-Ends_example :
    Ends
      (Served crypto no_fault database config client_ip creation client idle
        (generate_secret_reference crypto random_bytes random_bytes)
        (some 500)
        world)
      (CreateRefused crypto no_fault database config client_ip creation client idle
        (generate_secret_reference crypto random_bytes random_bytes)
        (some 500)
        world)
      (create_secret_stub crypto no_fault database config client idle random_bytes random_bytes
        client_ip
        (some 500)
        creation
        world)
create_secret_stub-Ends_example =
    create_secret_stub-Ends crypto no_fault database config client_ip creation client idle
      random_bytes random_bytes (some 500) world filled-IsValid

count_attempt-Ends_example :
    Ends
      (λ _ w'. Passes read_minute 5 "host" (pos 500) world w')
      (Refuses no_fault read_minute 5 "host" (pos 500) world)
      (count_attempt no_fault database config read_minute "context: " 5 "host" (pos 500) world)
count_attempt-Ends_example =
    count_attempt-Ends no_fault database config read_minute "context: " 5 "host" (pos 500) world
      filled-IsValid

check_create_rate_limit_hook-Ends_example :
    Ends
      (λ _ w'. PassesCreate no_fault database config (some "host") (pos 500) world w')
      (λ e w'.
        RefusesCreate no_fault database config (some "host") (pos 500) world e
        × ((tables w').secrets ≡ (tables world).secrets)
        × (w'.metrics ≡ world.metrics))
      (check_create_rate_limit_hook no_fault database config (some "host") (pos 500) world)
check_create_rate_limit_hook-Ends_example =
    check_create_rate_limit_hook-Ends no_fault database config (some "host") (pos 500) world
      filled-IsValid

enforce_global_create_quotas-Ends_example :
    Ends
      (λ _ w'. HasRoom config (pos 500) 3 world × IsSame world w')
      (λ _ w'. NoRoom no_fault config (pos 500) 3 world × IsSame world w')
      (enforce_global_create_quotas no_fault database config (pos 500) 3 world)
enforce_global_create_quotas-Ends_example =
    enforce_global_create_quotas-Ends no_fault database config (pos 500) 3 world filled-IsValid
