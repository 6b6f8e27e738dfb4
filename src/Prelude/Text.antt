-- ===== src/Prelude/Text.antt =====
-- What the program uses of Rust's `str`: UTF-8 bytes, code points, `trim`, and SQLite's `LIKE`.
use Prim.Native.Nat.{ℕ, ◌+◌, ◌/◌, ◌%◌}
use Prim.Native.Char.{code}
use Prim.Native.String.{String, ◌++◌}
use mathlib.Core.Path.{◌≡◌, ap}
use mathlib.Core.Bool.{Bool, true, false, ◌&&◌, ◌||◌}
use mathlib.Core.List.{List, [], ◌∷◌}
use mathlib.Core.List
use text.Mathlib.Text.{◌==◌}
use text.Mathlib.TextLemmas.{nil-append, cons-append}
use psst_rs.Prelude.Tests.{ltb, leb, nat_eq, if◌then◌else◌}
use psst_rs.Prelude.Lists.{length}

-- The code points, `chars()`.
abbrev pub codes : String → List ℕ
codes String.[] = []
codes (String.◌∷◌ c s) = code c ∷ codes s

pub codes-append : (s t : String) → codes (s ++ t) ≡ List.◌++◌ (codes s) (codes t)
codes-append String.[] t = rw nil-append
codes-append (String.◌∷◌ c s) t = rw cons-append (ap (λ l. code c ∷ l) (codes-append s t))

-- The UTF-8 form of one code point.
abbrev pub utf8 : ℕ → List ℕ
utf8 c =
    if ltb c 0x80
    then c ∷ []
    else if ltb c 0x800
    then (0xC0 + c / 64) ∷ (0x80 + c % 64) ∷ []
    else if ltb c 0x10000
    then (0xE0 + c / 4096) ∷ (0x80 + c / 64 % 64) ∷ (0x80 + c % 64) ∷ []
    else (0xF0 + c / 262144) ∷ (0x80 + c / 4096 % 64) ∷ (0x80 + c / 64 % 64) ∷ (0x80 + c % 64) ∷ []

-- `as_bytes`, and `len`, which counts bytes.
unfoldable pub as_bytes : String → List ℕ
as_bytes String.[] = []
as_bytes (String.◌∷◌ c s) = List.◌++◌ (utf8 (code c)) (as_bytes s)

unfoldable pub len : String → ℕ
unfolding as_bytes
len s = length (as_bytes s)

abbrev pub is_empty : String → Bool
is_empty s = s == ""

-- `char::is_whitespace`: the property White_Space of Unicode.
unfoldable pub is_whitespace : ℕ → Bool
is_whitespace c =
    leb 9 c && leb c 13
    || nat_eq c 0x20
    || nat_eq c 0x85
    || nat_eq c 0xA0
    || nat_eq c 0x1680
    || leb 0x2000 c && leb c 0x200A
    || nat_eq c 0x2028
    || nat_eq c 0x2029
    || nat_eq c 0x202F
    || nat_eq c 0x205F
    || nat_eq c 0x3000

unfoldable pub trim_start : String → String
unfolding is_whitespace
trim_start String.[] = ""
trim_start (String.◌∷◌ c s) =
    let rest = trim_start s in if is_whitespace (code c) then rest else String.◌∷◌ c s

unfoldable pub trim_end : String → String
unfolding is_whitespace
trim_end String.[] = ""
trim_end (String.◌∷◌ c s) =
    let rest = trim_end s in
    if is_whitespace (code c) && is_empty rest then "" else String.◌∷◌ c rest

unfoldable pub trim : String → String
unfolding trim_start trim_end
trim s = trim_end (trim_start s)

-- `split(sep)`, with the piece read so far.
unfoldable pub split_from : ℕ → String → String → List String
split_from sep cur String.[] = cur ∷ []
split_from sep cur (String.◌∷◌ c s) =
    let closed = cur ∷ split_from sep "" s in
    let longer = split_from sep (cur ++ String.◌∷◌ c "") s in
    if nat_eq (code c) sep then closed else longer

unfoldable pub split : ℕ → String → List String
unfolding split_from
split sep s = split_from sep "" s

-- SQLite's `LIKE` folds the case of ASCII letters.
abbrev pub fold_case : ℕ → ℕ
fold_case c = if leb b'A' c && leb c b'Z' then c + 32 else c

unfoldable pub like_any : (List ℕ → Bool) → List ℕ → Bool
like_any rest [] = rest []
like_any rest (c ∷ s) = rest (c ∷ s) || like_any rest s

-- `text LIKE pattern`: `%` stands for any text and `_` for any character.
unfoldable pub like : List ℕ → List ℕ → Bool
unfolding like_any
like [] [] = true
like [] (c ∷ s) = false
like (p ∷ ps) [] = nat_eq p b'%' && like ps []
like (p ∷ ps) (c ∷ s) =
    let skip = like_any (like ps) (c ∷ s) in
    let step = like ps s in
    if nat_eq p b'%' then skip else (nat_eq p b'_' || nat_eq (fold_case p) (fold_case c)) && step
