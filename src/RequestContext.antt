-- ===== src/RequestContext.antt =====
-- src/request_context.rs: the address of a client behind trusted proxies, and its pseudonym.
-- A `HeaderMap` is read by `get`; `to_str` fails on a value that is not visible ASCII.
pub mod Trust
use mathlib.Core.List
use psst_rs.Prelude.{ℕ, String, Bool, Option, none, some, List, [], ◌∷◌, any, if◌then◌else◌}
use psst_rs.Prelude.Text.{as_bytes, trim, split}
use psst_rs.Crypto.{Crypto}
use psst_rs.Net.{IpAddr, v4, v6, AddrParsers, same_ip}

pub record HeaderValue : Type 0 where
  pub to_str : Option String

abbrev pub HeaderMap : Type 0
HeaderMap = String → Option HeaderValue

pub record ClientIp : Type 0 where
  pub ip : IpAddr

infixl 10 ◌>>=◌
abbrev pub ◌>>=◌ : {A B : Type 0} → Option A → (A → Option B) → Option B
none >>= f = none
some a >>= f = f a

abbrev pub or_else : {A : Type 0} → Option A → Option A → Option A
or_else none other = other
or_else (some a) other = some a

abbrev pub next : List String → Option String
next [] = none
next (piece ∷ pieces) = some piece

abbrev pub ip_or : IpAddr → Option IpAddr → ClientIp
ip_or peer_ip none = record { ip = peer_ip }
ip_or peer_ip (some ip) = record { ip = ip }

module _ (parsers : AddrParsers) where
  unfoldable pub first_ip_from_header : HeaderMap → String → Option IpAddr
  first_ip_from_header headers header_name = do
    value ← headers header_name
    text ← value.to_str
    parsers.ip (trim text)

  unfoldable pub first_forwarded_for_ip : HeaderMap → Option IpAddr
  first_forwarded_for_ip headers = do
    value ← headers "x-forwarded-for"
    text ← value.to_str
    piece ← next (split b',' text)
    parsers.ip (trim piece)

  unfoldable pub from_request : IpAddr → HeaderMap → List IpAddr → ClientIp
  unfolding first_ip_from_header first_forwarded_for_ip
  from_request peer_ip headers trusted_proxy_ips =
      if any (same_ip peer_ip) trusted_proxy_ips
      then ip_or peer_ip (
          or_else (first_ip_from_header headers "cf-connecting-ip")
            (or_else (first_ip_from_header headers "x-real-ip") (first_forwarded_for_ip headers)))
      else record { ip = peer_ip }

-- The tag of the family, and the octets.
unfoldable pub family_octets : IpAddr → List ℕ
family_octets (v4 octets) = 4 ∷ octets
family_octets (v6 octets) = 6 ∷ octets

unfoldable pub hashed_identifier : Crypto → ClientIp → String → String
unfolding family_octets
hashed_identifier crypto client salt =
    crypto.encode (crypto.sha256 (List.◌++◌ (as_bytes salt) (0 ∷ family_octets client.ip)))
