-- ===== src/Net.antt =====
-- What the program uses of Rust's `std::net`. Parsing an address is a parameter.
use psst_rs.Prelude.{ℕ, Bool, true, false, ◌&&◌, Option, List, [], ◌∷◌, String, nat_eq}

-- The octets of an address: four, or sixteen.
pub data IpAddr : Type 0 where
  v4 v6 : List ℕ → IpAddr

pub record SocketAddr : Type 0 where
  pub ip : IpAddr
  pub port : ℕ

-- `IpAddr::from_str` and `SocketAddr::from_str`
pub record AddrParsers : Type 0 where
  pub ip : String → Option IpAddr
  pub socket : String → Option SocketAddr

abbrev pub same_octets : List ℕ → List ℕ → Bool
same_octets [] [] = true
same_octets (a ∷ as') (b ∷ bs) = nat_eq a b && same_octets as' bs
same_octets _ _ = false

unfoldable pub same_ip : IpAddr → IpAddr → Bool
same_ip (v4 a) (v4 b) = same_octets a b
same_ip (v6 a) (v6 b) = same_octets a b
same_ip _ _ = false

-- 127.0.0.0/8, and ::1.
unfoldable pub is_loopback : IpAddr → Bool
is_loopback (v4 (a ∷ rest)) = nat_eq a 127
is_loopback (v4 []) = false
is_loopback (v6 octets) =
    same_octets octets (0 ∷ 0 ∷ 0 ∷ 0 ∷ 0 ∷ 0 ∷ 0 ∷ 0 ∷ 0 ∷ 0 ∷ 0 ∷ 0 ∷ 0 ∷ 0 ∷ 0 ∷ 1 ∷ [])
