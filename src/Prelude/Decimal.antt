-- ===== src/Prelude/Decimal.antt =====
-- Rust's `u64::from_str` and `bool::from_str`.
use Prim.Native.Char.{code}
use Prim.Native.String.{String}
use Prim.Native.Nat.{ℕ, ◌+◌, ◌-◌, ◌*◌}
use mathlib.Core.Bool.{Bool, true, false, ◌&&◌}
use mathlib.Core.Option.{Option, none, some}
use text.Mathlib.Text.{◌==◌}
use psst_rs.Prelude.Tests.{ltb, leb, nat_eq, if◌then◌else◌}
use psst_rs.Prelude.Int.{u64_mod}

-- The digits from left to right; a value above `u64::MAX` is an error where it arises.
unfoldable pub parse_digits : ℕ → String → Option ℕ
parse_digits n String.[] = some n
parse_digits n (String.◌∷◌ c s) =
    let value = n * 10 + (code c - 48) in
    let rest = parse_digits value s in
    if leb 48 (code c) && leb (code c) 57 then (if ltb value u64_mod then rest else none) else none

-- A sign `+` is allowed; an empty text and a sign alone are errors.
unfoldable pub parse_u64 : String → Option ℕ
unfolding parse_digits
parse_u64 String.[] = none
parse_u64 (String.◌∷◌ c String.[]) = parse_digits 0 (String.◌∷◌ c "")
parse_u64 (String.◌∷◌ c (String.◌∷◌ d s)) =
    if nat_eq (code c) b'+'
    then parse_digits 0 (String.◌∷◌ d s)
    else parse_digits 0 (String.◌∷◌ c (String.◌∷◌ d s))

unfoldable pub parse_bool : String → Option Bool
parse_bool text = if text == "true" then some true else if text == "false" then some false else none
