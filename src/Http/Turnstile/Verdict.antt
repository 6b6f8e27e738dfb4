-- ===== src/Http/Turnstile/Verdict.antt =====
-- When `verify_turnstile` of src/http.rs lets a request through.
use psst_rs.Prelude.{ℕ, String, ◌≡◌, true, false, Option, List, arith}
use psst_rs.Prelude.Text.{is_empty}
use psst_rs.Prelude.Exec.{Result, ok, err}
use psst_rs.Net.{IpAddr}
use psst_rs.Config.{AppConfig}
use psst_rs.Secret.{CreateSecretRequest}
use psst_rs.Http.Turnstile.{
  TurnstileVerifyResponse, TurnstileClient, show_remote, map_error, verify_turnstile,
}
use psst_rs.Prelude.Fallible.{bind-ok}
use psst_rs.Http.Api.{ApiError}

-- The token is there, and the configured verifier, asked about it with the configured key, answered
-- that it is good.
pub record IsVerified (client : TurnstileClient) (config : AppConfig) (ip : Option IpAddr)
    (payload : CreateSecretRequest) : Type 0 where
  pub token : is_empty payload.turnstile_token ≡ false
  pub body : String
  pub request : String
  pub response : String
  pub bytes : List ℕ
  pub verification : TurnstileVerifyResponse
  pub encoded :
      client.encode (record {
        secret = config.turnstile_secret_key;
        response = payload.turnstile_token;
        remoteip = show_remote client ip;
      })
      ≡ ok body
  pub built : client.build config.turnstile_verify_url body ≡ ok request
  pub sent : client.request request ≡ ok response
  pub received : client.collect response ≡ ok bytes
  pub decoded : client.from_slice bytes ≡ ok verification
  pub success : verification.success ≡ true

map_error-ok :
    {A : Type 0} (f : String → ApiError) (r : Result String A) {a : A}
    → map_error f r ≡ ok a
    → r ≡ ok a
map_error-ok f (ok b) h = ground arith
map_error-ok f (err e) h = cc

-- A request passes only if it brings a token, and a request with the configured secret, this token
-- and the client's address was encoded, built, sent to the configured URL and answered, and the
-- answer decodes to a success: any failure on the way refuses it.
pub verify_turnstile-IsVerified :
    (client : TurnstileClient) (config : AppConfig) (ip : Option IpAddr)
    (payload : CreateSecretRequest)
    → verify_turnstile client config ip payload ≡ ok tt
    → IsVerified client config ip payload
unfolding verify_turnstile
verify_turnstile-IsVerified client config ip payload h =
    let (_, token, h₁) = bind-ok h in
    let (body, e₁, h₂) = bind-ok h₁ in
    let (request, e₂, h₃) = bind-ok h₂ in
    let (response, e₃, h₄) = bind-ok h₃ in
    let (bytes, e₄, h₅) = bind-ok h₄ in
    let (verification, e₅, h₆) = bind-ok h₅ in
    record {
      token = ground arith;
      body = body;
      request = request;
      response = response;
      bytes = bytes;
      verification = verification;
      encoded = map_error-ok _ _ e₁;
      built = map_error-ok _ _ e₂;
      sent = map_error-ok _ _ e₃;
      received = map_error-ok _ _ e₄;
      decoded = map_error-ok _ _ e₅;
      success = ground arith;
    }
