-- ===== src/Config/Proxies.antt =====
-- A printed list of addresses, as src/config.rs reads it.
use Prim.Native.Char.{code}
use Prim.Native.String.{◌++◌}
use text.Mathlib.TextLemmas.{append_assoc, append-nil, nil-append, cons-append}
use mathlib.Core.List.{cons-ne-nil}
use psst_rs.Prelude.{
  ℕ, String, ◌≡◌, ◌≢◌, refl, ap, ◌∙◌, sym, false, Option, some, All, List, [], ◌∷◌, arith, nat_eq,
}
use psst_rs.Prelude.Text.{
  codes, is_empty, is_whitespace, trim, trim_start, trim_end, split, split_from,
}
use psst_rs.Prelude.Exec.{ok}
use psst_rs.Prelude.Fallible.{◌>>=◌}
use psst_rs.Net.{IpAddr}
use psst_rs.Config.Load.{ip_list}

-- A character of a printed address.
pub record IsSolid (c : ℕ) : Type 0 where
  pub comma : c ≢ b','
  pub space : is_whitespace c ≡ false

-- What printing an address relies on: its text is not empty, has no comma and no space, and parses as
-- the address.
pub record IsPrinted (show : IpAddr → String) (parse : String → Option IpAddr) (ip : IpAddr)
    : Type 0 where
  pub solid : All IsSolid (codes (show ip))
  pub nonempty : is_empty (show ip) ≡ false
  pub parsed : parse (show ip) ≡ some ip

abbrev pub show_ips : (IpAddr → String) → List IpAddr → String
show_ips show [] = ""
show_ips show (ip ∷ []) = show ip
show_ips show (ip ∷ ips) = show ip ++ ("," ++ show_ips show ips)

trim_start-IsSolid : (s : String) → All IsSolid (codes s) → trim_start s ≡ s
unfolding trim_start
trim_start-IsSolid String.[] h = refl
trim_start-IsSolid (String.◌∷◌ c s) (h, hs) = rw h.space refl

trim_end-IsSolid : (s : String) → All IsSolid (codes s) → trim_end s ≡ s
unfolding trim_end
trim_end-IsSolid String.[] h = refl
trim_end-IsSolid (String.◌∷◌ c s) (h, hs) =
    rw h.space (ap (λ rest. String.◌∷◌ c rest) (trim_end-IsSolid s hs))

trim-IsSolid : (s : String) → All IsSolid (codes s) → trim s ≡ s
unfolding trim
trim-IsSolid s h = ap trim_end (trim_start-IsSolid s h) ∙ trim_end-IsSolid s h

-- The text up to a comma is one piece.
split_from-append :
    (s cur rest : String)
    → All IsSolid (codes s)
    → split_from b',' cur (s ++ rest) ≡ split_from b',' (cur ++ s) rest
unfolding split_from
split_from-append String.[] cur rest h =
    λ i. split_from b',' (sym (append-nil cur) i) (nil-append rest i)
split_from-append (String.◌∷◌ c s) cur rest (h, hs) =
    ap (split_from b',' cur) (cons-append c s rest)
    ∙ rw (comma h) (split_from-append s (cur ++ String.◌∷◌ c "") rest hs)
    ∙ ap (λ text. split_from b',' text rest)
        (append_assoc cur (String.◌∷◌ c "") s
          ∙ ap (λ text. cur ++ text) (cons-append c "" s ∙ ap (String.◌∷◌ c) (nil-append s)))
  where
    comma : IsSolid (code c) → nat_eq (code c) b',' ≡ false
    comma k = ground (arith, k.comma)

split_from-last : (s : String) → All IsSolid (codes s) → split_from b',' "" s ≡ s ∷ []
unfolding split_from
split_from-last s h =
    ap (split_from b',' "") (sym (append-nil s))
    ∙ split_from-append s "" "" h
    ∙ ap (λ text. text ∷ []) (nil-append s)

split_from-more :
    (s rest : String)
    → All IsSolid (codes s)
    → split_from b',' "" (s ++ ("," ++ rest)) ≡ s ∷ split_from b',' "" rest
unfolding split_from
split_from-more s rest h = split_from-append s "" ("," ++ rest) h ∙ (λ i.
    split_from b',' (nil-append s i)
      ((cons-append "," "" rest ∙ ap (String.◌∷◌ ",") (nil-append rest)) i))

module _ (show : IpAddr → String) (parse : String → Option IpAddr) (key : String) where
  ip_list-show :
      (ip : IpAddr) (ips : List IpAddr) (pieces : List String)
      → IsPrinted show parse ip
      → ip_list parse key pieces ≡ ok ips
      → ip_list parse key (show ip ∷ pieces) ≡ ok (ip ∷ ips)
  unfolding ip_list ◌>>=◌
  ip_list-show ip ips pieces h e = rw (trim-IsSolid (show ip) h.solid, h.nonempty, h.parsed, e) refl

  -- A printed list that is not empty is read back.
  pub ip_list-show_ips :
      (ips : List IpAddr)
      → ips ≢ []
      → All (IsPrinted show parse) ips
      → ip_list parse key (split b',' (show_ips show ips)) ≡ ok ips
  unfolding split ip_list
  ip_list-show_ips [] e h = absurd (e refl)
  ip_list-show_ips (ip ∷ []) e (h, hs) =
      ap (ip_list parse key) (split_from-last (show ip) h.solid) ∙ ip_list-show ip [] [] h refl
  ip_list-show_ips (ip ∷ other ∷ ips) e (h, hs) =
      ap (ip_list parse key) (split_from-more (show ip) (show_ips show (other ∷ ips)) h.solid)
      ∙ ip_list-show ip (other ∷ ips) (split_from b',' "" (show_ips show (other ∷ ips))) h
          (ip_list-show_ips (other ∷ ips) (cons-ne-nil other ips) hs)
