-- ===== src/Examples/Data.antt =====
-- Concrete inputs: a toy encoding in the place of base64 and SHA-256, a database and a configuration.
use Prim.Native.Char.{code}
use psst_rs.Prelude.{
  ℕ, zero, suc, ◌+◌, String, ◌≡◌, refl, ap, ◌∙◌, Bool, true, false, Option, none, some, List, [],
  ◌∷◌, length, nat_eq, if◌then◌else◌, arith,
}
use psst_rs.Prelude.Int.{pos}
use psst_rs.Prelude.Exec.{ok}
use psst_rs.Crypto.{Crypto, IsBytes}
use psst_rs.Net.{IpAddr, v4, AddrParsers}
use psst_rs.RequestContext.{ClientIp, HeaderMap}
use psst_rs.Secret.{CreateSecretRequest}
use psst_rs.Secret.Digests.{IsGenerator}
use psst_rs.Config.{AppConfig}
use psst_rs.Metrics.{zeroed}
use psst_rs.Db.Tables.{SecretRow, RateLimitRow, Tables, NewSecretRecord}
use psst_rs.Db.Connection.{Sqlite, Database, read_write, create}
use psst_rs.Db.Spec.{IsValid}
use psst_rs.Http.Api.{World}
use psst_rs.Http.Turnstile.{TurnstileClient}

abbrev pub cons : ℕ → Option (List ℕ) → Option (List ℕ)
cons n none = none
cons n (some ns) = some (n ∷ ns)

-- A byte is written in unary.
abbrev pub unary : ℕ → String → String
unary zero s = String.◌∷◌ "b" s
unary (suc n) s = String.◌∷◌ "a" (unary n s)

abbrev pub encode : List ℕ → String
encode [] = ""
encode (n ∷ ns) = unary n (encode ns)

abbrev pub decode_from : ℕ → String → Option (List ℕ)
decode_from n String.[] = some []
decode_from n (String.◌∷◌ c s) =
    let more = decode_from (suc n) s in
    let rest = decode_from 0 s in if nat_eq (code c) 97 then more else cons n rest

decode_from-unary :
    (m n : ℕ) (s : String) → decode_from m (unary n s) ≡ cons (n + m) (decode_from 0 s)
decode_from-unary m zero s = ap (λ k. cons k (decode_from 0 s)) (omega arith)
decode_from-unary m (suc n) s =
    decode_from-unary (suc m) n s ∙ ap (λ k. cons k (decode_from 0 s)) (omega arith)

pub decode-encode_lem : (ns : List ℕ) → decode_from 0 (encode ns) ≡ some ns
decode-encode_lem [] = refl
decode-encode_lem (n ∷ ns) =
    decode_from-unary 0 n (encode ns) ∙ (λ i. cons (right_zero i) (decode-encode_lem ns i))
  where
    right_zero : n + 0 ≡ n
    right_zero = omega arith

-- 32 zeros.
abbrev pub digest_bytes : List ℕ
digest_bytes =
    0 ∷ 0 ∷ 0 ∷ 0 ∷ 0 ∷ 0 ∷ 0 ∷ 0 ∷ 0 ∷ 0 ∷ 0 ∷ 0 ∷ 0 ∷ 0 ∷ 0 ∷ 0 ∷ 0 ∷ 0 ∷ 0 ∷ 0 ∷ 0 ∷ 0 ∷ 0 ∷ 0
    ∷ 0 ∷ 0 ∷ 0 ∷ 0 ∷ 0 ∷ 0 ∷ 0 ∷ 0 ∷ []

pub digest_bytes-IsBytes : IsBytes digest_bytes
digest_bytes-IsBytes = ground arith

abbrev pub crypto : Crypto
crypto = record {
  encode = encode;
  decode = decode_from 0;
  sha256 = λ bytes. digest_bytes;
  decode-encode = λ bytes h. decode-encode_lem bytes;
  sha256-length = λ bytes. refl;
  sha256-IsBytes = λ bytes. digest_bytes-IsBytes;
}

-- The digest of every text.
abbrev pub digest : String
digest = "bbbbbbbbbbbbbbbbbbbbbbbbbbbbbbbb"

abbrev pub no_fault : ℕ → Bool
no_fault n = false

abbrev pub database : Database
database = record {
  path = record { display = "secrets.db"; parent = none };
  open_flags = read_write ∷ create ∷ [];
  busy_timeout = 5;
}

abbrev pub row : SecretRow
row = record {
  id = "first";
  ciphertext = "cipher";
  nonce = "nonce";
  created_at = pos 100;
  expires_at = pos 1000;
  consumed_at = none;
  delete_token_hash = digest;
  key_digest = digest;
  size_bytes = pos 6;
  requester_ip_hash = none;
}

-- A row that has expired at 500.
abbrev pub old_row : SecretRow
old_row = record row { id = "second"; expires_at = pos 500 }

abbrev pub counter_row : RateLimitRow
counter_row = record { key = "read-minute:host"; bucket = pos 8; count = pos 3 }

abbrev pub filled : Tables
filled = record { secrets = row ∷ old_row ∷ []; rate_limits = counter_row ∷ [] }

abbrev pub sqlite : Sqlite
sqlite = record {
  tables = filled;
  schema = record { secrets = none; rate_limits = none; indexes = [] };
  calls = 0;
}

pub filled-IsValid : IsValid filled
filled-IsValid = record {
  ids = (refl, (refl, tt));
  stored = (
    record { unconsumed = refl; sized = omega arith },
    (record { unconsumed = refl; sized = omega arith }, tt),
  );
  counters = (refl, tt);
  counted = (omega arith, tt);
}

abbrev pub fresh_record : NewSecretRecord
fresh_record = record {
  id = "third";
  ciphertext = "new";
  nonce = "n";
  created_at = pos 500;
  expires_at = pos 1400;
  delete_token_hash = digest;
  key_digest = digest;
  size_bytes = 3;
  requester_ip_hash = none;
}

abbrev pub world : World
world = record { sqlite = sqlite; metrics = zeroed }

abbrev pub address : IpAddr
address = v4 (127 ∷ 0 ∷ 0 ∷ 1 ∷ [])

abbrev pub config : AppConfig
config = record {
  bind_addr = record { ip = address; port = 3000 };
  database_path = "secrets.db";
  public_base_url = "https://example.tld";
  max_secret_bytes = 16;
  max_ciphertext_bytes = 64;
  default_ttl_seconds = 900;
  max_ttl_seconds = 3600;
  enable_create = true;
  global_max_active_secrets = 10;
  global_max_storage_bytes = 100;
  create_rate_limit_per_minute = 5;
  create_rate_limit_per_hour = 10;
  read_rate_limit_per_minute = 5;
  maintenance_interval_seconds = 60;
  ip_hash_salt = "salt";
  trusted_proxy_ips = address ∷ [];
  turnstile_site_key = "site";
  turnstile_secret_key = "key";
  turnstile_verify_url = "https://verify";
}

abbrev pub client_ip : Option ClientIp
client_ip = some (record { ip = address })

abbrev pub creation : CreateSecretRequest
creation = record {
  ciphertext = "new";
  nonce = "n";
  key_digest = digest;
  expires_in_seconds = 900;
  turnstile_token = "token";
}

-- A verifier that agrees.
abbrev pub client : TurnstileClient
client = record {
  show_ip = λ ip. "127.0.0.1";
  encode = λ r. ok "body";
  build = λ url body. ok "request";
  request = λ r. ok "response";
  collect = λ r. ok [];
  from_slice = λ bytes. ok (record { success = true; error_codes = [] });
}

abbrev pub headers : HeaderMap
headers name = some (record { to_str = some digest })

-- `AddrParsers` that know one address.
abbrev pub parsers : AddrParsers
parsers = record {
  ip = λ text. some address;
  socket = λ text. some (record { ip = address; port = 3000 });
}

-- Other requests that change nothing.
abbrev pub idle : World → World
idle w = w

-- A generator of random bytes.
abbrev pub random_bytes : ℕ → List ℕ
random_bytes zero = []
random_bytes (suc n) = 7 ∷ random_bytes n

pub random_bytes-IsGenerator : IsGenerator random_bytes
random_bytes-IsGenerator = record { bytes = small; size = asked }
  where
    small : (n : ℕ) → IsBytes (random_bytes n)
    small zero = tt
    small (suc n) = (omega arith, small n)

    asked : (n : ℕ) → length (random_bytes n) ≡ n
    asked zero = refl
    asked (suc n) = ap suc (asked n)
