-- ===== src/Http/Router/Sealed.antt =====
-- What the layers of src/http.rs make of every response, and what they log.
use psst_rs.Prelude.{
  ℕ, String, ◌==◌, eq_refl, eq_iff, ◌≡◌, refl, ap, ◌∙◌, Bool, false, not, Option, none, some, List,
  [], ◌∷◌, first, select, any, ◌||◌, Bool-cases, inl, inr, if◌then◌else◌, arith,
}
use psst_rs.Config.{AppConfig}
use psst_rs.Net.{AddrParsers, SocketAddr}
use psst_rs.Http.Router.{
  Headers, get, insert, value_of, Request, Response, LogEntry, Server, Next, Route, html_csp,
  routes, max_json_body_bytes, with_security_headers, with_client_ip, is_some, matched_path_or_uri,
  build_router_with_metrics,
}

get-insert :
    (name value : String) (headers : Headers) → get name (insert name value headers) ≡ some value
get-insert name value headers = rw (eq_refl name) refl

first-others :
    (name other : String) (headers : Headers)
    → (other == name) ≡ false
    → first (λ h. h.0 == name) (select (λ h. not (h.0 == other)) headers)
      ≡ first (λ h. h.0 == name) headers
first-others name other [] e = refl
first-others name other ((key, value) ∷ headers) e = elim (Bool-cases (key == other)) [
  | inl same ↦
      let apart : (key == name) ≡ false = ap (λ k. k == name) ((eq_iff key other).0 same) ∙ e in
      rw (same, apart) (first-others name other headers e)
  | inr different ↦ rw different (
      ap (λ rest. if key == name then some (key, value) else rest)
        (first-others name other headers e))
]

-- Setting one header leaves the others.
get-insert-other :
    (name other value : String) (headers : Headers)
    → (other == name) ≡ false
    → get name (insert other value headers) ≡ get name headers
get-insert-other name other value headers e = rw e (ap value_of (first-others name other headers e))

-- One of the headers that the outermost layer sets.
abbrev pub is_security_header : String → Bool
is_security_header name =
    any (λ n. n == name)
      ("content-security-policy" ∷ "referrer-policy" ∷ "x-content-type-options" ∷ "x-frame-options"
        ∷ "permissions-policy" ∷ [])

abbrev pub line_of : Request → ℕ → ℕ → Bool → LogEntry
line_of request status elapsed_ms has_client_ip = record {
  method = request.method;
  path = matched_path_or_uri request;
  status = status;
  latency_ms = elapsed_ms;
  has_client_ip = has_client_ip;
}

-- What a response and the log are, given what the handler returned and logged.
pub record Sealed (request : Request) (elapsed_ms : ℕ) (inner : Response × Server)
    (outer : Response × Server) : Type 0 where
  pub csp : get "content-security-policy" outer.0.headers ≡ some html_csp
  pub referrer : get "referrer-policy" outer.0.headers ≡ some "no-referrer"
  pub sniffing : get "x-content-type-options" outer.0.headers ≡ some "nosniff"
  pub framing : get "x-frame-options" outer.0.headers ≡ some "DENY"
  pub permissions :
      get "permissions-policy" outer.0.headers
      ≡ some "camera=(), microphone=(), geolocation=(), payment=()"
  pub others :
      (name : String)
      → is_security_header name ≡ false
      → get name outer.0.headers ≡ get name inner.0.headers
  pub kept : (outer.0.status ≡ inner.0.status) × (outer.0.body ≡ inner.0.body)
  pub world : outer.1.world ≡ inner.1.world
  pub logged :
      outer.1.log
      ≡ line_of request inner.0.status elapsed_ms
          (is_some request.connect_info || is_some request.client_ip)
        ∷ inner.1.log

abbrev with_csp : Headers → Headers
with_csp headers = insert "content-security-policy" html_csp headers

abbrev with_referrer : Headers → Headers
with_referrer headers = insert "referrer-policy" "no-referrer" (with_csp headers)

abbrev with_sniffing : Headers → Headers
with_sniffing headers = insert "x-content-type-options" "nosniff" (with_referrer headers)

abbrev with_framing : Headers → Headers
with_framing headers = insert "x-frame-options" "DENY" (with_sniffing headers)

module _ (headers : Headers) where
  kept_header :
      (name : String)
      → is_security_header name ≡ false
      → get name (with_security_headers headers) ≡ get name headers
  unfolding with_security_headers
  kept_header name h =
      get-insert-other name "permissions-policy" _ (with_framing headers) (ground (arith, h))
      ∙ get-insert-other name "x-frame-options" "DENY" (with_sniffing headers) (ground (arith, h))
      ∙ get-insert-other name "x-content-type-options" "nosniff" (with_referrer headers)
          (ground (arith, h))
      ∙ get-insert-other name "referrer-policy" "no-referrer" (with_csp headers) (ground (arith, h))
      ∙ get-insert-other name "content-security-policy" html_csp headers (ground (arith, h))

-- Finding the client's address changes nothing else that is logged.
line_of-with_client_ip :
    (parsers : AddrParsers) (config : AppConfig) (request : Request) (peer : Option SocketAddr)
    (status elapsed_ms : ℕ)
    → line_of
        (with_client_ip parsers config request peer)
        status
        elapsed_ms
        (is_some (with_client_ip parsers config request peer).client_ip)
      ≡ line_of request status elapsed_ms (is_some peer || is_some request.client_ip)
unfolding matched_path_or_uri
line_of-with_client_ip parsers config request none status elapsed_ms = refl
line_of-with_client_ip parsers config request (some peer_addr) status elapsed_ms = refl

-- Whatever `dispatch` answers, the response bears the five security headers with their values, and
-- else the headers, the status and the body are those of the answer; the state is the answer's too.
-- One line is added to the log, which holds the method, the pattern of the route or "unmatched", the
-- status, the time taken and whether the client has an address: nothing of the URI, of the headers or
-- of the body.
pub build_router-Sealed :
    (dispatch : List Route → ℕ → Next) (parsers : AddrParsers) (elapsed_ms : ℕ) (config : AppConfig)
    (request : Request) (server : Server)
    → Sealed request elapsed_ms
        (dispatch routes
          (max_json_body_bytes config)
          (with_client_ip parsers config request request.connect_info)
          server)
        (build_router_with_metrics dispatch parsers elapsed_ms config request server)
unfolding build_router_with_metrics with_security_headers matched_path_or_uri
build_router-Sealed dispatch parsers elapsed_ms config request server =
    let found : Request = with_client_ip parsers config request request.connect_info in
    let answer : Response × Server = dispatch routes (max_json_body_bytes config) found server in
    record {
      csp = refl;
      referrer = refl;
      sniffing = refl;
      framing = refl;
      permissions = refl;
      others = kept_header _;
      kept = (refl, refl);
      world = refl;
      logged =
          ap (λ (line : LogEntry). line ∷ answer.1.log)
            (line_of-with_client_ip parsers config request request.connect_info answer.0.status
              elapsed_ms);
    }
