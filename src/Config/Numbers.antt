-- ===== src/Config/Numbers.antt =====
-- The printed numbers that src/config.rs parses.
use Prim.Native.Char.{code}
use psst_rs.Prelude.{
  ℕ, ◌+◌, ◌-◌, ◌*◌, ◌≤◌, ◌<◌, String, ◌≡◌, ◌≢◌, refl, ap, ◌∙◌, sym, subst, Bool, true, false, some,
  All, List, [], ◌∷◌, arith,
}
use psst_rs.Prelude.Int.{u64_mod}
use psst_rs.Prelude.Text.{codes}
use psst_rs.Prelude.Decimal.{parse_digits, parse_u64, parse_bool}
use psst_rs.Prelude.Show.{show_u64, read_on, IsDigit, IsDecimal, show_u64-IsDecimal}

read_on-le : (n : ℕ) (s : List ℕ) → n ≤ read_on n s
read_on-le n [] = omega arith
read_on-le n (c ∷ s) = omega (arith, read_on-le (n * 10 + (c - 48)) s)

-- Digits parse as what they stand for, if it fits a `u64`.
parse_digits-read_on :
    (n : ℕ) (s : String)
    → All IsDigit (codes s)
    → read_on n (codes s) < u64_mod
    → parse_digits n s ≡ some (read_on n (codes s))
unfolding parse_digits
parse_digits-read_on n String.[] h fits = refl
parse_digits-read_on n (String.◌∷◌ c s) (d, ds) fits = ground (
  arith,
  d.low,
  d.high,
  read_on-le (n * 10 + (code c - 48)) (codes s),
  parse_digits-read_on (n * 10 + (code c - 48)) s ds fits,
)

parse_u64-digits :
    (s : String) (n : ℕ) → All IsDigit (codes s) → s ≢ "" → parse_u64 s ≡ parse_digits 0 s
unfolding parse_u64
parse_u64-digits String.[] n h e = absurd (e refl)
parse_u64-digits (String.◌∷◌ c String.[]) n h e = refl
parse_u64-digits (String.◌∷◌ c (String.◌∷◌ d s)) n (h, hs) e = ground (arith, h.low)

-- Every `u64` is read back from its decimal print.
pub parse_u64-show_u64 : (n : ℕ) → n < u64_mod → parse_u64 (show_u64 n) ≡ some n
parse_u64-show_u64 n fits =
    parse_u64-digits (show_u64 n) n h.digits (λ e. h.nonempty (ap codes e))
    ∙ parse_digits-read_on 0 (show_u64 n) h.digits (subst (λ m. m < u64_mod) (sym h.value) fits)
    ∙ ap some h.value
  where
    h : IsDecimal n (codes (show_u64 n))
    h = show_u64-IsDecimal n

-- `to_string` of a `bool`
abbrev pub show_bool : Bool → String
show_bool true = "true"
show_bool false = "false"

pub parse_bool-show_bool : (b : Bool) → parse_bool (show_bool b) ≡ some b
unfolding parse_bool
parse_bool-show_bool true = refl
parse_bool-show_bool false = refl
