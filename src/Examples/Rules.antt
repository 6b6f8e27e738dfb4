-- ===== src/Examples/Rules.antt =====
-- The theorems on requests, keys, buckets and the configuration, at the inputs of Examples/Data.antt.
use psst_rs.Secret.{generate_secret_reference, sha256_digest_bytes}
use psst_rs.Prelude.{◌==◌, String, ◌≡◌, ◌↔◌, refl, true, none, some, [], ◌∷◌, arith, if◌then◌else◌}
use psst_rs.Prelude.Int.{pos, negsuc, ◌+ℤ◌}
use psst_rs.Prelude.Text.{codes, like, len, trim, split, is_whitespace}
use psst_rs.Prelude.Exec.{ok}
use psst_rs.Prelude.Fallible.{◌>>=◌}
use psst_rs.RequestContext.{from_request}
use psst_rs.RequestContext.Trust.{Source, from_request-Source}
use psst_rs.RateLimit.{
  create_minute, create_hour, read_minute, key, bucket_for_timestamp, purge_cutoff_bucket,
}
use psst_rs.RateLimit.Keys.{key_injective, like-purge_pattern, purge_pattern, same_kind}
use psst_rs.RateLimit.Buckets.{IsWithin, bucket_for_timestamp-IsWithin, purge_cutoff_bucket-window}
use psst_rs.Secret.Digests.{IsReference, Decodes, generate_secret_reference-IsReference}
use psst_rs.Config.{AppConfig, validate}
use psst_rs.Config.Load.{
  from_lookup, Lookup, env_or_parse, env_or_string, env_or_path, env_or_ip_list, ip_list,
}
use psst_rs.Net.{is_loopback, IpAddr, SocketAddr}
use psst_rs.Prelude.Show.{show_u64}
use psst_rs.Prelude.Decimal.{parse_u64, parse_digits, parse_bool}
use psst_rs.Config.Proxies.{IsPrinted}
use psst_rs.Config.RoundTrip.{printed, from_lookup-printed}
use psst_rs.Config.Validity.{IsValidConfig, InRange, validate_iff, from_lookup-IsValidConfig}
use psst_rs.Http.Validate.{ValidatedCreateRequest, validate_create_request, extract_read_key_digest}
use psst_rs.Http.Validate.Accepts.{
  IsAcceptable, validate_create_request_iff, extract_read_key_digest_iff,
}
use psst_rs.Http.Turnstile.{verify_turnstile}
use psst_rs.Http.Turnstile.Verdict.{IsVerified, verify_turnstile-IsVerified}
use psst_rs.Examples.Data.{
  crypto, digest, random_bytes, random_bytes-IsGenerator, config, creation, client, headers,
  parsers, address,
}

abbrev host : String
host = "host"

key_injective_example : (read_minute ≡ read_minute) × (host ≡ host)
key_injective_example = key_injective read_minute read_minute host host refl

like-purge_pattern_example :
    like (codes (purge_pattern create_minute)) (codes (key create_hour "host"))
    ≡ same_kind create_minute create_hour
like-purge_pattern_example = like-purge_pattern create_minute create_hour "host"

bucket_for_timestamp-IsWithin_example :
    IsWithin create_hour (negsuc 99) (bucket_for_timestamp create_hour (negsuc 99))
bucket_for_timestamp-IsWithin_example = bucket_for_timestamp-IsWithin create_hour (negsuc 99)

purge_cutoff_bucket-window_example :
    purge_cutoff_bucket create_minute (pos 6000) (pos 120) +ℤ pos 120
    ≡ bucket_for_timestamp create_minute (pos 6000) +ℤ pos 1
purge_cutoff_bucket-window_example =
    purge_cutoff_bucket-window create_minute (pos 6000) 120
      (record { low = omega arith; high = omega arith }) (omega arith) (omega arith)

generate_secret_reference-IsReference_example :
    IsReference crypto (generate_secret_reference crypto random_bytes random_bytes)
generate_secret_reference-IsReference_example =
    generate_secret_reference-IsReference crypto random_bytes random_bytes random_bytes-IsGenerator
      random_bytes-IsGenerator

validate_iff_example : (validate config ≡ ok tt) ↔ IsValidConfig config
validate_iff_example = validate_iff config

abbrev accepted : ValidatedCreateRequest
accepted = record { ciphertext_size_bytes = 3; expires_in_seconds = 900 }

validate_create_request_iff_example :
    (validate_create_request crypto config creation ≡ ok accepted) ↔ (
      IsAcceptable crypto config creation
      × (accepted.ciphertext_size_bytes ≡ len creation.ciphertext)
      × (accepted.expires_in_seconds ≡ creation.expires_in_seconds))
validate_create_request_iff_example = validate_create_request_iff crypto config creation accepted

extract_read_key_digest_iff_example : (extract_read_key_digest crypto headers ≡ ok digest) ↔ (
    (headers "x-psst-key-digest" ≡ some (record { to_str = some digest }))
    × Decodes crypto sha256_digest_bytes digest)
extract_read_key_digest_iff_example = extract_read_key_digest_iff crypto headers digest

verify_turnstile-IsVerified_example : IsVerified client config (some address) creation
unfolding verify_turnstile ◌>>=◌
verify_turnstile-IsVerified_example =
    verify_turnstile-IsVerified client config (some address) creation refl

-- An environment that sets all the variables that the defaults leave to the host.
abbrev environment : Lookup
environment name =
    if name == "PSST_RS_IP_HASH_SALT"
    then some "salt"
    else if name == "PSST_RS_TURNSTILE_SITE_KEY"
    then some "site"
    else if name == "PSST_RS_TURNSTILE_SECRET_KEY"
    then some "key"
    else none

abbrev loaded : AppConfig
loaded = record {
  bind_addr = record { ip = address; port = 3000 };
  database_path = "/var/lib/psst-rs/secrets.db";
  public_base_url = "https://example.tld";
  max_secret_bytes = 16384;
  max_ciphertext_bytes = 32768;
  default_ttl_seconds = 86400;
  max_ttl_seconds = 2592000;
  enable_create = true;
  global_max_active_secrets = 10000;
  global_max_storage_bytes = 52428800;
  create_rate_limit_per_minute = 5;
  create_rate_limit_per_hour = 30;
  read_rate_limit_per_minute = 60;
  maintenance_interval_seconds = 300;
  ip_hash_salt = "salt";
  trusted_proxy_ips = address ∷ address ∷ [];
  turnstile_site_key = "site";
  turnstile_secret_key = "key";
  turnstile_verify_url = "https://challenges.cloudflare.com/turnstile/v0/siteverify";
}

from_lookup-IsValidConfig_example : IsValidConfig loaded × InRange loaded
unfolding from_lookup validate show_u64 ◌>>=◌ env_or_parse env_or_string env_or_path env_or_ip_list
    ip_list parse_u64 parse_digits parse_bool trim split is_loopback
from_lookup-IsValidConfig_example = from_lookup-IsValidConfig parsers environment loaded refl

loaded-IsValidConfig : IsValidConfig loaded
unfolding validate ◌>>=◌ trim is_loopback
loaded-IsValidConfig = (validate_iff loaded).0 refl

loaded-InRange : InRange loaded
loaded-InRange = ground arith

abbrev show_ip : IpAddr → String
show_ip ip = "127.0.0.1"

abbrev show_socket : SocketAddr → String
show_socket addr = "127.0.0.1:3000"

address-IsPrinted : IsPrinted show_ip parsers.ip address
unfolding is_whitespace
address-IsPrinted = record { solid = ground arith; nonempty = refl; parsed = refl }

from_lookup-printed_example : from_lookup parsers (printed show_socket show_ip loaded) ≡ ok loaded
from_lookup-printed_example =
    from_lookup-printed parsers show_socket show_ip loaded
      (address-IsPrinted, (address-IsPrinted, tt)) refl loaded-IsValidConfig loaded-InRange

from_request-Source_example :
    Source parsers address headers
      (address ∷ [])
      (from_request parsers address headers (address ∷ []))
from_request-Source_example = from_request-Source parsers address headers (address ∷ [])
