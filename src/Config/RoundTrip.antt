-- ===== src/Config/RoundTrip.antt =====
-- Every valid configuration of src/config.rs can be set by environment variables.
use psst_rs.Prelude.{String, ◌≡◌, refl, ◌==◌, Option, some, none, List, [], ◌∷◌, first, All}
use psst_rs.Prelude.Exec.{ok}
use psst_rs.Prelude.Fallible.{◌>>=◌}
use psst_rs.Prelude.Show.{show_u64}
use psst_rs.Net.{AddrParsers, SocketAddr, IpAddr}
use psst_rs.Config.{AppConfig}
use psst_rs.Config.Load.{
  Lookup, env_or_parse, env_or_ip_list, env_or_string, env_or_path, from_lookup,
}
use psst_rs.Config.Validity.{IsValidConfig, InRange, validate_iff}
use psst_rs.Config.Numbers.{show_bool, parse_u64-show_u64, parse_bool-show_bool}
use psst_rs.Config.Proxies.{IsPrinted, show_ips, ip_list-show_ips}

-- The value that a list of settings gives to a variable.
abbrev value_in : Option (String × String) → Option String
value_in none = none
value_in (some (name, value)) = some value

abbrev lookup_in : List (String × String) → Lookup
lookup_in settings name = value_in (first (λ setting. setting.0 == name) settings)

-- An environment in which every setting is printed.
abbrev pub printed : (SocketAddr → String) → (IpAddr → String) → AppConfig → Lookup
printed show_socket show_ip config = lookup_in (
    ("PSST_RS_BIND_ADDR", show_socket config.bind_addr)
    ∷ ("PSST_RS_DATABASE_PATH", config.database_path)
    ∷ ("PSST_RS_PUBLIC_BASE_URL", config.public_base_url)
    ∷ ("PSST_RS_MAX_SECRET_BYTES", show_u64 config.max_secret_bytes)
    ∷ ("PSST_RS_MAX_CIPHERTEXT_BYTES", show_u64 config.max_ciphertext_bytes)
    ∷ ("PSST_RS_DEFAULT_TTL_SECONDS", show_u64 config.default_ttl_seconds)
    ∷ ("PSST_RS_MAX_TTL_SECONDS", show_u64 config.max_ttl_seconds)
    ∷ ("PSST_RS_ENABLE_CREATE", show_bool config.enable_create)
    ∷ ("PSST_RS_GLOBAL_MAX_ACTIVE_SECRETS", show_u64 config.global_max_active_secrets)
    ∷ ("PSST_RS_GLOBAL_MAX_STORAGE_BYTES", show_u64 config.global_max_storage_bytes)
    ∷ ("PSST_RS_CREATE_RATE_LIMIT_PER_MINUTE", show_u64 config.create_rate_limit_per_minute)
    ∷ ("PSST_RS_CREATE_RATE_LIMIT_PER_HOUR", show_u64 config.create_rate_limit_per_hour)
    ∷ ("PSST_RS_READ_RATE_LIMIT_PER_MINUTE", show_u64 config.read_rate_limit_per_minute)
    ∷ ("PSST_RS_MAINTENANCE_INTERVAL_SECONDS", show_u64 config.maintenance_interval_seconds)
    ∷ ("PSST_RS_IP_HASH_SALT", config.ip_hash_salt)
    ∷ ("PSST_RS_TRUSTED_PROXY_IPS", show_ips show_ip config.trusted_proxy_ips)
    ∷ ("PSST_RS_TURNSTILE_SITE_KEY", config.turnstile_site_key)
    ∷ ("PSST_RS_TURNSTILE_SECRET_KEY", config.turnstile_secret_key)
    ∷ ("PSST_RS_TURNSTILE_VERIFY_URL", config.turnstile_verify_url)
    ∷ [])

module _ (parsers : AddrParsers) (show_socket : SocketAddr → String) (show_ip : IpAddr → String)
    (config : AppConfig) where
  -- A valid configuration whose numbers fit a `u64` loads from the environment that prints it, as
  -- long as its addresses are parsed as they are printed and have no comma and no space: nothing that is allowed is out of reach, and no
  -- variable is taken for another.
  pub from_lookup-printed :
      All (IsPrinted show_ip parsers.ip) config.trusted_proxy_ips
      → parsers.socket (show_socket config.bind_addr) ≡ some config.bind_addr
      → IsValidConfig config
      → InRange config
      → from_lookup parsers (printed show_socket show_ip config) ≡ ok config
  unfolding from_lookup env_or_parse env_or_ip_list env_or_string env_or_path ◌>>=◌
  from_lookup-printed prints socket valid range =
      rw
        (
          socket,
          parse_u64-show_u64 config.max_secret_bytes range.secret_bytes,
          parse_u64-show_u64 config.max_ciphertext_bytes range.ciphertext_bytes,
          parse_u64-show_u64 config.default_ttl_seconds range.default_ttl,
          parse_u64-show_u64 config.max_ttl_seconds range.max_ttl,
          parse_bool-show_bool config.enable_create,
          parse_u64-show_u64 config.global_max_active_secrets range.active_secrets,
          parse_u64-show_u64 config.global_max_storage_bytes range.storage_bytes,
          parse_u64-show_u64 config.create_rate_limit_per_minute range.create_minute,
          parse_u64-show_u64 config.create_rate_limit_per_hour range.create_hour,
          parse_u64-show_u64 config.read_rate_limit_per_minute range.read_minute,
          parse_u64-show_u64 config.maintenance_interval_seconds range.interval,
          ip_list-show_ips show_ip parsers.ip "PSST_RS_TRUSTED_PROXY_IPS" config.trusted_proxy_ips
              valid.proxies prints,
          (validate_iff config).1 valid,
        )
        refl
