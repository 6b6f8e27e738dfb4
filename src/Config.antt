-- ===== src/Config.antt =====
-- src/config.rs: the configuration, read from environment variables and validated.
pub mod Defaults
pub mod Load
pub mod Validity
pub mod Numbers
pub mod Proxies
pub mod RoundTrip
use Prim.Native.String.{◌++◌}
use psst_rs.Prelude.{
  ℕ, String, Bool, true, false, not, ◌&&◌, Option, none, some, List, [], ◌∷◌, ltb, nat_eq,
  if◌then◌else◌,
}
use psst_rs.Prelude.Text.{is_empty, trim, split}
use psst_rs.Prelude.Exec.{Result, ok, err}
use psst_rs.Prelude.Fallible.{ok_or, bail_if, ◌>>=◌, ◌>>◌}
use psst_rs.Net.{IpAddr, v4, v6, SocketAddr, AddrParsers, is_loopback}

pub record AppConfig : Type 0 where
  pub bind_addr : SocketAddr
  pub database_path : String
  pub public_base_url : String
  pub max_secret_bytes : ℕ
  pub max_ciphertext_bytes : ℕ
  pub default_ttl_seconds : ℕ
  pub max_ttl_seconds : ℕ
  pub enable_create : Bool
  pub global_max_active_secrets : ℕ
  pub global_max_storage_bytes : ℕ
  pub create_rate_limit_per_minute : ℕ
  pub create_rate_limit_per_hour : ℕ
  pub read_rate_limit_per_minute : ℕ
  pub maintenance_interval_seconds : ℕ
  pub ip_hash_salt : String
  pub trusted_proxy_ips : List IpAddr
  pub turnstile_site_key : String
  pub turnstile_secret_key : String
  pub turnstile_verify_url : String

abbrev pub is_zero : ℕ → Bool
is_zero n = nat_eq n 0

abbrev pub no_ips : List IpAddr → Bool
no_ips [] = true
no_ips (ip ∷ ips) = false

-- `AppConfig::validate`
unfoldable pub validate : AppConfig → Result String Unit
validate c = do
  bail_if (not (is_loopback c.bind_addr.ip)) "PSST_RS_BIND_ADDR must bind to a loopback address"
  bail_if (is_empty c.database_path) "PSST_RS_DATABASE_PATH must not be empty"
  bail_if (is_empty (trim c.public_base_url)) "PSST_RS_PUBLIC_BASE_URL must not be empty"
  bail_if (is_zero c.max_secret_bytes) "PSST_RS_MAX_SECRET_BYTES must be greater than zero"
  bail_if (ltb c.max_ciphertext_bytes c.max_secret_bytes)
      "PSST_RS_MAX_CIPHERTEXT_BYTES must be >= PSST_RS_MAX_SECRET_BYTES"
  bail_if (is_zero c.default_ttl_seconds) "PSST_RS_DEFAULT_TTL_SECONDS must be greater than zero"
  bail_if (ltb c.max_ttl_seconds c.default_ttl_seconds)
      "PSST_RS_MAX_TTL_SECONDS must be >= PSST_RS_DEFAULT_TTL_SECONDS"
  bail_if (is_zero c.global_max_active_secrets)
      "PSST_RS_GLOBAL_MAX_ACTIVE_SECRETS must be greater than zero"
  bail_if (is_zero c.global_max_storage_bytes)
      "PSST_RS_GLOBAL_MAX_STORAGE_BYTES must be greater than zero"
  bail_if (is_zero c.create_rate_limit_per_minute)
      "PSST_RS_CREATE_RATE_LIMIT_PER_MINUTE must be greater than zero"
  bail_if (is_zero c.create_rate_limit_per_hour)
      "PSST_RS_CREATE_RATE_LIMIT_PER_HOUR must be greater than zero"
  bail_if (is_zero c.read_rate_limit_per_minute)
      "PSST_RS_READ_RATE_LIMIT_PER_MINUTE must be greater than zero"
  bail_if (is_zero c.maintenance_interval_seconds)
      "PSST_RS_MAINTENANCE_INTERVAL_SECONDS must be greater than zero"
  bail_if (is_empty (trim c.ip_hash_salt)) "PSST_RS_IP_HASH_SALT must not be empty"
  bail_if (no_ips c.trusted_proxy_ips) "PSST_RS_TRUSTED_PROXY_IPS must not be empty"
  bail_if (c.enable_create && is_empty (trim c.turnstile_site_key))
      "PSST_RS_TURNSTILE_SITE_KEY must not be empty when creation is enabled"
  bail_if (c.enable_create && is_empty (trim c.turnstile_secret_key))
      "PSST_RS_TURNSTILE_SECRET_KEY must not be empty when creation is enabled"
  bail_if (c.enable_create && is_empty (trim c.turnstile_verify_url))
      "PSST_RS_TURNSTILE_VERIFY_URL must not be empty when creation is enabled"
  ok tt
