-- ===== src/Config/Validity.antt =====
-- Which configurations src/config.rs accepts.
use psst_rs.Prelude.{
  ℕ, ◌≤◌, ◌<◌, String, ◌≡◌, ◌≢◌, ◌↔◌, true, false, [], arith, ◌+◌, ◌-◌, ◌*◌, some, nat_eq,
  Bool-cases, Option-cases, inl, inr,
}
use psst_rs.Prelude.Text.{is_empty, trim}
use psst_rs.Prelude.Exec.{ok}
use psst_rs.Prelude.Fallible.{◌>>=◌, Ensures-bind, Ensures-ok}
use psst_rs.Net.{AddrParsers, is_loopback}
use psst_rs.Config.{AppConfig, validate}
use psst_rs.Config.Load.{Lookup, env_or_string, env_or_parse, from_lookup}
use psst_rs.Prelude.Int.{u64_mod}
use psst_rs.Prelude.Decimal.{parse_digits, parse_u64}
use Prim.Native.Char.{code}

-- What the program relies on: it listens on the host only, every limit lets something through, the
-- size and TTL limits are ordered, clients are pseudonymised with a salt, and creation, where it is
-- enabled, can ask the verifier.
pub record IsValidConfig (c : AppConfig) : Type 0 where
  pub loopback : is_loopback c.bind_addr.ip ≡ true
  pub path : is_empty c.database_path ≡ false
  pub url : is_empty (trim c.public_base_url) ≡ false
  pub secret_bytes : 0 < c.max_secret_bytes
  pub ciphertext_bytes : c.max_secret_bytes ≤ c.max_ciphertext_bytes
  pub default_ttl : 0 < c.default_ttl_seconds
  pub max_ttl : c.default_ttl_seconds ≤ c.max_ttl_seconds
  pub active_secrets : 0 < c.global_max_active_secrets
  pub storage_bytes : 0 < c.global_max_storage_bytes
  pub create_minute : 0 < c.create_rate_limit_per_minute
  pub create_hour : 0 < c.create_rate_limit_per_hour
  pub read_minute : 0 < c.read_rate_limit_per_minute
  pub interval : 0 < c.maintenance_interval_seconds
  pub salt : is_empty (trim c.ip_hash_salt) ≡ false
  pub proxies : c.trusted_proxy_ips ≢ []
  pub site_key : c.enable_create ≡ true → is_empty (trim c.turnstile_site_key) ≡ false
  pub secret_key : c.enable_create ≡ true → is_empty (trim c.turnstile_secret_key) ≡ false
  pub verify_url : c.enable_create ≡ true → is_empty (trim c.turnstile_verify_url) ≡ false

-- Validation accepts a configuration exactly when all of these hold.
pub validate_iff : (c : AppConfig) → (validate c ≡ ok tt) ↔ IsValidConfig c
unfolding validate ◌>>=◌
validate_iff c = (λ h. ground arith, λ v. ground arith)

-- The numbers of a configuration fit a `u64`.
pub record InRange (c : AppConfig) : Type 0 where
  pub secret_bytes : c.max_secret_bytes < u64_mod
  pub ciphertext_bytes : c.max_ciphertext_bytes < u64_mod
  pub default_ttl : c.default_ttl_seconds < u64_mod
  pub max_ttl : c.max_ttl_seconds < u64_mod
  pub active_secrets : c.global_max_active_secrets < u64_mod
  pub storage_bytes : c.global_max_storage_bytes < u64_mod
  pub create_minute : c.create_rate_limit_per_minute < u64_mod
  pub create_hour : c.create_rate_limit_per_hour < u64_mod
  pub read_minute : c.read_rate_limit_per_minute < u64_mod
  pub interval : c.maintenance_interval_seconds < u64_mod

parse_digits-lt :
    (n : ℕ) (s : String) (v : ℕ) → n < u64_mod → parse_digits n s ≡ some v → v < u64_mod
unfolding parse_digits
parse_digits-lt n String.[] v h e = ground arith
parse_digits-lt n (String.◌∷◌ c s) v h e =
    ground (arith, parse_digits-lt (n * 10 + (code c - 48)) s v)

pub parse_u64-lt : (s : String) (v : ℕ) → parse_u64 s ≡ some v → v < u64_mod
unfolding parse_u64
parse_u64-lt String.[] v e = cc
parse_u64-lt (String.◌∷◌ c String.[]) v e = parse_digits-lt 0 (String.◌∷◌ c "") v (omega arith) e
parse_u64-lt (String.◌∷◌ c (String.◌∷◌ d s)) v e = elim (Bool-cases (nat_eq (code c) b'+')) [
  | inl f ↦ parse_digits-lt 0 (String.◌∷◌ d s) v (omega arith) (rw f at e)
  | inr f ↦ parse_digits-lt 0 (String.◌∷◌ c (String.◌∷◌ d s)) v (omega arith) (rw f at e)
]

number-lt :
    (get_var : Lookup) (key default : String) (v : ℕ)
    → env_or_parse parse_u64 get_var key default ≡ ok v
    → v < u64_mod
unfolding env_or_parse
number-lt get_var key default v e =
    elim (Option-cases (parse_u64 (env_or_string get_var key default))) [
      | inl f ↦ absurd (ground arith)
      | inr (n, f) ↦ parse_u64-lt (env_or_string get_var key default) v (ground arith)
    ]

abbrev IsLoaded : AppConfig → Type 0
IsLoaded c = IsValidConfig c × InRange c

-- Whatever the environment holds, a configuration that loads is valid and its numbers fit a `u64`.
pub from_lookup-IsValidConfig :
    (parsers : AddrParsers) (get_var : Lookup) (c : AppConfig)
    → from_lookup parsers get_var ≡ ok c
    → IsValidConfig c × InRange c
unfolding from_lookup
from_lookup-IsValidConfig parsers get_var c = Ensures-ok IsLoaded (from_lookup parsers get_var) c (
    Ensures-bind IsLoaded _ _ λ bind_addr _. Ensures-bind IsLoaded _ _ λ n₁ e₁.
      Ensures-bind IsLoaded _ _ λ n₂ e₂. Ensures-bind IsLoaded _ _ λ n₃ e₃.
        Ensures-bind IsLoaded _ _ λ n₄ e₄. Ensures-bind IsLoaded _ _ λ enable_create _.
          Ensures-bind IsLoaded _ _ λ n₅ e₅. Ensures-bind IsLoaded _ _ λ n₆ e₆.
            Ensures-bind IsLoaded _ _ λ n₇ e₇. Ensures-bind IsLoaded _ _ λ n₈ e₈.
              Ensures-bind IsLoaded _ _ λ n₉ e₉. Ensures-bind IsLoaded _ _ λ n₀ e₀.
                Ensures-bind IsLoaded _ _ λ trusted_proxy_ips _.
                  Ensures-bind IsLoaded _ _ λ _ accepted. (
                    (validate_iff _).0 accepted,
                    record {
                      secret_bytes = number-lt get_var _ _ n₁ e₁;
                      ciphertext_bytes = number-lt get_var _ _ n₂ e₂;
                      default_ttl = number-lt get_var _ _ n₃ e₃;
                      max_ttl = number-lt get_var _ _ n₄ e₄;
                      active_secrets = number-lt get_var _ _ n₅ e₅;
                      storage_bytes = number-lt get_var _ _ n₆ e₆;
                      create_minute = number-lt get_var _ _ n₇ e₇;
                      create_hour = number-lt get_var _ _ n₈ e₈;
                      read_minute = number-lt get_var _ _ n₉ e₉;
                      interval = number-lt get_var _ _ n₀ e₀;
                    },
                  ))
