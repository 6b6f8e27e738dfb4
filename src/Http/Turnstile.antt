-- ===== src/Http/Turnstile.antt =====
-- `verify_turnstile` of src/http.rs. Encoding, building, sending, receiving and decoding are calls of
-- other crates and of the network: a parameter, each of whose steps may fail.
pub mod Verdict
use Prim.Native.String.{◌++◌}
use psst_rs.Prelude.{
  ℕ, String, Bool, true, false, not, Option, none, some, List, [], ◌∷◌, if◌then◌else◌,
}
use psst_rs.Prelude.Text.{is_empty}
use psst_rs.Prelude.Exec.{Result, ok, err}
use psst_rs.Prelude.Fallible.{bail_if, ◌>>=◌, ◌>>◌}
use psst_rs.Net.{IpAddr}
use psst_rs.Config.{AppConfig}
use psst_rs.Secret.{CreateSecretRequest}
use psst_rs.Http.Api.{ApiError, bad_request, service_unavailable, internal}

pub record TurnstileVerifyRequest : Type 0 where
  pub secret : String
  pub response : String
  pub remoteip : Option String

pub record TurnstileVerifyResponse : Type 0 where
  pub success : Bool
  pub error_codes : List String

-- What the crates and the network answer to this request.
pub record TurnstileClient : Type 0 where
  pub show_ip : IpAddr → String
  pub encode : TurnstileVerifyRequest → Result String String
  pub build : (url body : String) → Result String String
  pub request : String → Result String String
  pub collect : String → Result String (List ℕ)
  pub from_slice : List ℕ → Result String TurnstileVerifyResponse

abbrev pub map_error : {A : Type 0} → (String → ApiError) → Result String A → Result ApiError A
map_error f (ok a) = ok a
map_error f (err e) = err (f e)

abbrev pub unavailable : String → ApiError
unavailable e = service_unavailable ("turnstile verification is unavailable: " ++ e)

-- `join(",")`
unfoldable pub join : List String → String
join [] = ""
join (code ∷ []) = code
join (code ∷ codes) = code ++ ("," ++ join codes)

abbrev pub details : List String → String
details [] = "unknown error"
details codes = join codes

abbrev pub show_remote : TurnstileClient → Option IpAddr → Option String
show_remote client none = none
show_remote client (some ip) = some (client.show_ip ip)

unfoldable pub verify_turnstile :
    TurnstileClient → AppConfig → Option IpAddr → CreateSecretRequest → Result ApiError Unit
verify_turnstile client config client_ip payload = do
  bail_if (is_empty payload.turnstile_token) (bad_request "turnstile_token must not be empty")
  body ←
      map_error (λ e. internal ("failed to encode turnstile verification payload: " ++ e))
        (client.encode (record {
          secret = config.turnstile_secret_key;
          response = payload.turnstile_token;
          remoteip = show_remote client client_ip;
        }))
  request ←
      map_error (λ e. internal ("failed to build turnstile verification request: " ++ e))
        (client.build config.turnstile_verify_url body)
  response ← map_error unavailable (client.request request)
  response_body ← map_error unavailable (client.collect response)
  verification ← map_error unavailable (client.from_slice response_body)
  bail_if (not verification.success)
      (bad_request ("turnstile verification failed: " ++ details verification.error_codes))
