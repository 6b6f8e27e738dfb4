-- ===== src/Http/Router.antt =====
-- The router of src/http.rs: its routes, the endpoints without state, and the layers around them.
-- `axum` is a parameter: `dispatch` finds the route of a request, which bears the pattern of the route
-- that it matches, reads the body within the limit and calls the handler.
pub mod Endpoints
pub mod Sealed
use Prim.Native.String.{◌++◌}
use psst_rs.Prelude.{
  ℕ, ◌+◌, ◌-◌, ◌^◌, String, ◌==◌, Bool, true, false, not, Option, none, some, List, [], ◌∷◌, first,
  select, ltb, if◌then◌else◌,
}
use psst_rs.Prelude.Int.{u64_mod}
use psst_rs.Config.{AppConfig}
use psst_rs.Net.{AddrParsers, SocketAddr}
use psst_rs.RequestContext.{HeaderMap, ClientIp, from_request}
use psst_rs.Metrics.{AppMetrics}
use psst_rs.Metrics.Render.{render}
use psst_rs.Http.Api.{ApiError, World}

-- The header names and the values of a response.
abbrev pub Headers : Type 0
Headers = List (String × String)

-- `HeaderMap::get` and `HeaderMap::insert`, which replaces what stands under the name.
abbrev pub value_of : Option (String × String) → Option String
value_of none = none
value_of (some (name, value)) = some value

abbrev pub get : String → Headers → Option String
get name headers = value_of (first (λ h. h.0 == name) headers)

abbrev pub insert : String → String → Headers → Headers
insert name value headers = (name, value) ∷ select (λ h. not (h.0 == name)) headers

pub record Response : Type 0 where
  pub status : ℕ
  pub headers : Headers
  pub body : String

-- A request with its extensions: the matched route, the address of the peer, and the client's.
pub record Request : Type 0 where
  pub method : String
  pub uri : String
  pub headers : HeaderMap
  pub body : String
  pub matched_path : Option String
  pub connect_info : Option SocketAddr
  pub client_ip : Option ClientIp

-- What one line of the log holds.
pub record LogEntry : Type 0 where
  pub method : String
  pub path : String
  pub status : ℕ
  pub latency_ms : ℕ
  pub has_client_ip : Bool

-- The state of the handlers and the log, the newest line first.
pub record Server : Type 0 where
  pub world : World
  pub log : List LogEntry

-- `Next::run`
abbrev pub Next : Type 0
Next = Request → Server → Response × Server

abbrev pub html_csp : String
html_csp =
    "default-src 'self'; "
    ++ ("script-src 'self' https://challenges.cloudflare.com; "
        ++ ("frame-src https://challenges.cloudflare.com; "
            ++ ("style-src 'self'; "
                ++ ("img-src 'self'; "
                    ++ ("connect-src 'self'; "
                        ++ ("base-uri 'none'; "
                            ++ ("form-action 'self'; " ++ "frame-ancestors 'none'")))))))

-- The five headers, in the order in which they are set.
unfoldable pub with_security_headers : Headers → Headers
with_security_headers headers =
    let headers = insert "content-security-policy" html_csp headers in
    let headers = insert "referrer-policy" "no-referrer" headers in
    let headers = insert "x-content-type-options" "nosniff" headers in
    let headers = insert "x-frame-options" "DENY" headers in
    insert "permissions-policy" "camera=(), microphone=(), geolocation=(), payment=()" headers

unfoldable pub apply_security_headers : Next → Next
unfolding with_security_headers
apply_security_headers next request server =
    let (response, server) = next request server in
    (record response { headers = with_security_headers response.headers }, server)

abbrev pub with_client_ip : AddrParsers → AppConfig → Request → Option SocketAddr → Request
with_client_ip parsers config request none = request
with_client_ip parsers config request (some peer_addr) = record request {
  client_ip = some (from_request parsers peer_addr.ip request.headers config.trusted_proxy_ips);
}

unfoldable pub extract_client_ip : AddrParsers → AppConfig → Next → Next
extract_client_ip parsers config next request server =
    next (with_client_ip parsers config request request.connect_info) server

abbrev pub is_some : {A : Type 0} → Option A → Bool
is_some none = false
is_some (some a) = true

unfoldable pub matched_path_or_uri : Request → String
matched_path_or_uri request = elim request.matched_path [ none ↦ "unmatched" | some path ↦ path ]

abbrev pub log_request_completed : String → String → ℕ → ℕ → Bool → Server → Server
log_request_completed method path status elapsed_ms has_client_ip server = record server {
  log =
      (record {
        method = method;
        path = path;
        status = status;
        latency_ms = elapsed_ms;
        has_client_ip = has_client_ip;
      })
      ∷ server.log;
}

-- The time that the request took is an argument.
unfoldable pub log_request : ℕ → Next → Next
unfolding matched_path_or_uri
log_request elapsed_ms next request server =
    let method = request.method in
    let path = matched_path_or_uri request in
    let has_client_ip = is_some request.client_ip in
    let (response, server) = next request server in
    (response, log_request_completed method path response.status elapsed_ms has_client_ip server)

pub data Endpoint : Type 0 where
  index read_secret_page healthz metrics_handler static_app_css static_app_js : Endpoint
  create_secret_stub delete_secret read_secret : Endpoint

-- The method, the pattern and the handler.
pub record Route : Type 0 where
  pub method : String
  pub pattern : String
  pub endpoint : Endpoint

abbrev route : String → String → Endpoint → Route
route method pattern endpoint = record { method = method; pattern = pattern; endpoint = endpoint }

abbrev pub routes : List Route
routes =
    route "GET" "/" Endpoint.index
    ∷ route "GET" "/s/{id}" Endpoint.read_secret_page
    ∷ route "GET" "/healthz" Endpoint.healthz
    ∷ route "GET" "/metrics" Endpoint.metrics_handler
    ∷ route "GET" "/static/app.css" Endpoint.static_app_css
    ∷ route "GET" "/static/app.js" Endpoint.static_app_js
    ∷ route "POST" "/api/create" Endpoint.create_secret_stub
    ∷ route "POST" "/api/delete/{id}" Endpoint.delete_secret
    ∷ route "GET" "/api/secrets/{id}" Endpoint.read_secret
    ∷ []

-- `u64::saturating_add`; `usize` has 64 bits.
abbrev pub max_json_body_bytes : AppConfig → ℕ
max_json_body_bytes config =
    let sum = config.max_ciphertext_bytes + 4096 in if ltb sum u64_mod then sum else u64_mod - 1

unfoldable pub build_router_with_metrics :
    (List Route → ℕ → Next) → AddrParsers → ℕ → AppConfig → Next
unfolding apply_security_headers extract_client_ip log_request
build_router_with_metrics dispatch parsers elapsed_ms config = apply_security_headers (
    extract_client_ip parsers config
      (log_request elapsed_ms (dispatch routes (max_json_body_bytes config))))
