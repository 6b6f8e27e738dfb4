-- ===== src/RequestContext/Trust.antt =====
-- Whose word src/request_context.rs takes for a client's address.
use psst_rs.Prelude.{◌≡◌, refl, true, false, Option, none, some, List, any, inl, inr, Bool-cases}
use psst_rs.Net.{IpAddr, AddrParsers, same_ip}
use psst_rs.RequestContext.{
  HeaderMap, ClientIp, or_else, ip_or, from_request, first_ip_from_header, first_forwarded_for_ip,
}

-- Where the address comes from.
pub data Source (parsers : AddrParsers) (peer : IpAddr) (headers : HeaderMap)
    (trusted : List IpAddr) (client : ClientIp) : Type 0 where
  untrusted :
      any (same_ip peer) trusted ≡ false
      → client.ip ≡ peer
      → Source parsers peer headers trusted client
  connecting :
      any (same_ip peer) trusted ≡ true
      → first_ip_from_header parsers headers "cf-connecting-ip" ≡ some client.ip
      → Source parsers peer headers trusted client
  real :
      any (same_ip peer) trusted ≡ true
      → first_ip_from_header parsers headers "cf-connecting-ip" ≡ none
      → first_ip_from_header parsers headers "x-real-ip" ≡ some client.ip
      → Source parsers peer headers trusted client
  forwarded :
      any (same_ip peer) trusted ≡ true
      → first_ip_from_header parsers headers "cf-connecting-ip" ≡ none
      → first_ip_from_header parsers headers "x-real-ip" ≡ none
      → first_forwarded_for_ip parsers headers ≡ some client.ip
      → Source parsers peer headers trusted client
  silent :
      any (same_ip peer) trusted ≡ true
      → first_ip_from_header parsers headers "cf-connecting-ip" ≡ none
      → first_ip_from_header parsers headers "x-real-ip" ≡ none
      → first_forwarded_for_ip parsers headers ≡ none
      → client.ip ≡ peer
      → Source parsers peer headers trusted client

-- The address of a client is that of the peer unless the peer is a trusted proxy; then it is what the
-- first readable of `cf-connecting-ip`, `x-real-ip` and `x-forwarded-for` says, in this order, or
-- that of the peer where none is readable. No header of an untrusted peer is believed.
pub from_request-Source :
    (parsers : AddrParsers) (peer : IpAddr) (headers : HeaderMap) (trusted : List IpAddr)
    → Source parsers peer headers trusted (from_request parsers peer headers trusted)
unfolding from_request
from_request-Source parsers peer headers trusted = elim (Bool-cases (any (same_ip peer) trusted)) [
  | inr e ↦ rw e (untrusted e refl)
  | inl e ↦ rw e (
      go e (first_ip_from_header parsers headers "cf-connecting-ip") refl
        (first_ip_from_header parsers headers "x-real-ip") refl
        (first_forwarded_for_ip parsers headers) refl)
]
  where
    go :
        any (same_ip peer) trusted ≡ true
        → (a : Option IpAddr) → first_ip_from_header parsers headers "cf-connecting-ip" ≡ a
        → (b : Option IpAddr) → first_ip_from_header parsers headers "x-real-ip" ≡ b
        → (c : Option IpAddr) → first_forwarded_for_ip parsers headers ≡ c
        → Source parsers peer headers trusted (ip_or peer (or_else a (or_else b c)))
    go t (some ip) a b' b c' c = connecting t a
    go t none a (some ip) b c' c = real t a b
    go t none a none b (some ip) c = forwarded t a b c
    go t none a none b none c = silent t a b c refl
