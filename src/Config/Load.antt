-- ===== src/Config/Load.antt =====
-- `AppConfig::from_lookup` of src/config.rs: each variable, or its default, parsed in order.
use Prim.Native.String.{◌++◌}
use psst_rs.Prelude.{ℕ, String, Option, none, some, List, [], ◌∷◌, if◌then◌else◌}
use psst_rs.Prelude.Text.{is_empty, trim, split}
use psst_rs.Prelude.Decimal.{parse_u64, parse_bool}
use psst_rs.Prelude.Exec.{Result, ok}
use psst_rs.Prelude.Fallible.{ok_or, ◌>>=◌, ◌>>◌}
use psst_rs.Net.{IpAddr, AddrParsers}
use psst_rs.Prelude.Show.{show_u64}
use psst_rs.Config.{AppConfig, validate}
use psst_rs.Config.Defaults.{
  default_bind_addr, default_database_path, default_public_base_url, default_max_secret_bytes,
  default_max_ciphertext_bytes, default_default_ttl_seconds, default_max_ttl_seconds,
  default_enable_create, default_global_max_active_secrets, default_global_max_storage_bytes,
  default_create_rate_limit_per_minute, default_create_rate_limit_per_hour,
  default_read_rate_limit_per_minute, default_maintenance_interval_seconds, default_ip_hash_salt,
  default_trusted_proxy_ips, default_turnstile_verify_url,
}

abbrev pub Lookup : Type 0
Lookup = String → Option String

unfoldable pub env_or_string : Lookup → String → String → String
env_or_string get_var key default = elim (get_var key) [ none ↦ default | some value ↦ value ]

unfoldable pub env_or_path : Lookup → String → String → String
env_or_path get_var key default = env_or_string get_var key default

unfoldable pub env_or_parse :
    {T : Type 0} → (String → Option T) → Lookup → String → String → Result String T
env_or_parse parse get_var key default =
    let raw = env_or_string get_var key default in
    ok_or (parse raw) ("invalid value for " ++ (key ++ (": " ++ raw)))

-- The loop of `env_or_ip_list`: blank pieces are passed over.
unfoldable pub ip_list :
    (String → Option IpAddr) → String → List String → Result String (List IpAddr)
ip_list parse key [] = ok []
ip_list parse key (piece ∷ pieces) =
    let rest = ip_list parse key pieces in
    let value = trim piece in
    if is_empty value then rest else do
      ip ← ok_or (parse value) ("invalid IP address in " ++ (key ++ (": " ++ value)))
      ips ← rest
      ok (ip ∷ ips)

unfoldable pub env_or_ip_list :
    (String → Option IpAddr) → Lookup → String → String → Result String (List IpAddr)
unfolding ip_list
env_or_ip_list parse get_var key default =
    ip_list parse key (split b',' (env_or_string get_var key default))

module _ (parsers : AddrParsers) (get_var : Lookup) where
  number : String → ℕ → Result String ℕ
  unfolding show_u64
  number key default = env_or_parse parse_u64 get_var key (show_u64 default)

  unfoldable pub from_lookup : Result String AppConfig
  unfolding number
  from_lookup = do
    bind_addr ← env_or_parse parsers.socket get_var "PSST_RS_BIND_ADDR" default_bind_addr
    let database_path = env_or_path get_var "PSST_RS_DATABASE_PATH" default_database_path
    let public_base_url = env_or_string get_var "PSST_RS_PUBLIC_BASE_URL" default_public_base_url
    max_secret_bytes ← number "PSST_RS_MAX_SECRET_BYTES" default_max_secret_bytes
    max_ciphertext_bytes ← number "PSST_RS_MAX_CIPHERTEXT_BYTES" default_max_ciphertext_bytes
    default_ttl_seconds ← number "PSST_RS_DEFAULT_TTL_SECONDS" default_default_ttl_seconds
    max_ttl_seconds ← number "PSST_RS_MAX_TTL_SECONDS" default_max_ttl_seconds
    enable_create ←
        env_or_parse parse_bool get_var "PSST_RS_ENABLE_CREATE"
          (if default_enable_create then "true" else "false")
    global_max_active_secrets ←
        number "PSST_RS_GLOBAL_MAX_ACTIVE_SECRETS" default_global_max_active_secrets
    global_max_storage_bytes ←
        number "PSST_RS_GLOBAL_MAX_STORAGE_BYTES" default_global_max_storage_bytes
    create_rate_limit_per_minute ←
        number "PSST_RS_CREATE_RATE_LIMIT_PER_MINUTE" default_create_rate_limit_per_minute
    create_rate_limit_per_hour ←
        number "PSST_RS_CREATE_RATE_LIMIT_PER_HOUR" default_create_rate_limit_per_hour
    read_rate_limit_per_minute ←
        number "PSST_RS_READ_RATE_LIMIT_PER_MINUTE" default_read_rate_limit_per_minute
    maintenance_interval_seconds ←
        number "PSST_RS_MAINTENANCE_INTERVAL_SECONDS" default_maintenance_interval_seconds
    trusted_proxy_ips ←
        env_or_ip_list parsers.ip get_var "PSST_RS_TRUSTED_PROXY_IPS" default_trusted_proxy_ips
    let config : AppConfig = record {
      bind_addr = bind_addr;
      database_path = database_path;
      public_base_url = public_base_url;
      max_secret_bytes = max_secret_bytes;
      max_ciphertext_bytes = max_ciphertext_bytes;
      default_ttl_seconds = default_ttl_seconds;
      max_ttl_seconds = max_ttl_seconds;
      enable_create = enable_create;
      global_max_active_secrets = global_max_active_secrets;
      global_max_storage_bytes = global_max_storage_bytes;
      create_rate_limit_per_minute = create_rate_limit_per_minute;
      create_rate_limit_per_hour = create_rate_limit_per_hour;
      read_rate_limit_per_minute = read_rate_limit_per_minute;
      maintenance_interval_seconds = maintenance_interval_seconds;
      ip_hash_salt = env_or_string get_var "PSST_RS_IP_HASH_SALT" default_ip_hash_salt;
      trusted_proxy_ips = trusted_proxy_ips;
      turnstile_site_key = env_or_string get_var "PSST_RS_TURNSTILE_SITE_KEY" "";
      turnstile_secret_key = env_or_string get_var "PSST_RS_TURNSTILE_SECRET_KEY" "";
      turnstile_verify_url =
          env_or_string get_var "PSST_RS_TURNSTILE_VERIFY_URL" default_turnstile_verify_url;
    }
    validate config
    ok config

-- `AppConfig::from_env`, given what `env::var(key).ok()` returns.
abbrev pub from_env : AddrParsers → Lookup → Result String AppConfig
from_env parsers environment = from_lookup parsers environment
