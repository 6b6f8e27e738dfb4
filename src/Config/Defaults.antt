-- ===== src/Config/Defaults.antt =====
-- The defaults of src/config.rs: what stands for a variable that is not set, and `AppConfig::default`.
use psst_rs.Prelude.{ℕ, ◌*◌, String, Bool, true, Option, none, some, [], ◌∷◌}
use psst_rs.Net.{AddrParsers}
use psst_rs.Config.{AppConfig}

abbrev pub default_bind_addr : String
default_bind_addr = "127.0.0.1:3000"

abbrev pub default_database_path : String
default_database_path = "/var/lib/psst-rs/secrets.db"

abbrev pub default_public_base_url : String
default_public_base_url = "https://example.tld"

abbrev pub default_max_secret_bytes : ℕ
default_max_secret_bytes = 16 * 1024

abbrev pub default_max_ciphertext_bytes : ℕ
default_max_ciphertext_bytes = 32 * 1024

abbrev pub default_default_ttl_seconds : ℕ
default_default_ttl_seconds = 24 * 60 * 60

abbrev pub default_max_ttl_seconds : ℕ
default_max_ttl_seconds = 30 * 24 * 60 * 60

abbrev pub default_enable_create : Bool
default_enable_create = true

abbrev pub default_global_max_active_secrets : ℕ
default_global_max_active_secrets = 10000

abbrev pub default_global_max_storage_bytes : ℕ
default_global_max_storage_bytes = 50 * 1024 * 1024

abbrev pub default_create_rate_limit_per_minute : ℕ
default_create_rate_limit_per_minute = 5

abbrev pub default_create_rate_limit_per_hour : ℕ
default_create_rate_limit_per_hour = 30

abbrev pub default_read_rate_limit_per_minute : ℕ
default_read_rate_limit_per_minute = 60

abbrev pub default_maintenance_interval_seconds : ℕ
default_maintenance_interval_seconds = 5 * 60

abbrev pub default_ip_hash_salt : String
default_ip_hash_salt = ""

abbrev pub default_trusted_proxy_ips : String
default_trusted_proxy_ips = "127.0.0.1,::1"

abbrev pub default_turnstile_verify_url : String
default_turnstile_verify_url = "https://challenges.cloudflare.com/turnstile/v0/siteverify"

infixl 10 ◌>>=◌
abbrev ◌>>=◌ : {A B : Type 0} → Option A → (A → Option B) → Option B
none >>= f = none
some a >>= f = f a

-- `AppConfig::default`, which panics where an address does not parse.
unfoldable pub default : AddrParsers → Option AppConfig
default parsers = do
  bind_addr ← parsers.socket default_bind_addr
  first_proxy ← parsers.ip "127.0.0.1"
  second_proxy ← parsers.ip "::1"
  some (record {
    bind_addr = bind_addr;
    database_path = default_database_path;
    public_base_url = default_public_base_url;
    max_secret_bytes = default_max_secret_bytes;
    max_ciphertext_bytes = default_max_ciphertext_bytes;
    default_ttl_seconds = default_default_ttl_seconds;
    max_ttl_seconds = default_max_ttl_seconds;
    enable_create = default_enable_create;
    global_max_active_secrets = default_global_max_active_secrets;
    global_max_storage_bytes = default_global_max_storage_bytes;
    create_rate_limit_per_minute = default_create_rate_limit_per_minute;
    create_rate_limit_per_hour = default_create_rate_limit_per_hour;
    read_rate_limit_per_minute = default_read_rate_limit_per_minute;
    maintenance_interval_seconds = default_maintenance_interval_seconds;
    ip_hash_salt = "test-ip-hash-salt";
    trusted_proxy_ips = first_proxy ∷ second_proxy ∷ [];
    turnstile_site_key = "test-turnstile-site-key";
    turnstile_secret_key = "test-turnstile-secret-key";
    turnstile_verify_url = default_turnstile_verify_url;
  })
