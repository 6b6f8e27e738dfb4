-- ===== src/Prelude/Show.antt =====
-- Rust's `Display` of integers: decimal digits, with a sign before a negative number.
use Prim.Native.Nat.{ℕ, zero, suc, ◌+◌, ◌-◌, ◌*◌, ◌/◌, ◌%◌, ◌<◌, ◌≤◌}
use Prim.Native.Char.{Char, code}
use Prim.Native.String.{String, ◌++◌}
use mathlib.Core.Path.{◌≡◌, refl, sym, ◌∙◌, subst}
use mathlib.Core.List.{List, [], ◌∷◌, cons-ne-nil}
use mathlib.Core.List
use mathlib.Core.Logic.{◌≢◌, ite, dite}
use mathlib.Core.WellFounded
use mathlib.Core.WellFounded.{Acc, Acc-prop, WellFounded}
use native.Mathlib.Decide.{dec_lt}
use native.Mathlib.Omega.{arith}
use psst_rs.Prelude.Tests.{nat_eq, if◌then◌else◌}
use psst_rs.Prelude.Int.{ℤ, pos, negsuc}
use psst_rs.Prelude.Lists.{All, All-append}
use psst_rs.Prelude.Text.{codes, codes-append}

smaller_acc : (bound n : ℕ) → n < bound → Acc ◌<◌ n
smaller_acc zero n h = absurd (omega arith)
smaller_acc (suc bound) n h = Acc.intro n λ m lt. smaller_acc bound m (omega arith)

by_size : WellFounded ◌<◌
by_size = record { apply = λ n. smaller_acc (suc n) n (omega arith) }

unfoldable pub digit : ℕ → Char
digit d =
    if nat_eq d 1
    then "1"
    else if nat_eq d 2
    then "2"
    else if nat_eq d 3
    then "3"
    else if nat_eq d 4
    then "4"
    else if nat_eq d 5
    then "5"
    else if nat_eq d 6
    then "6"
    else if nat_eq d 7
    then "7"
    else if nat_eq d 8
    then "8"
    else if nat_eq d 9
    then "9"
    else "0"

abbrev one : Char → String
one c = String.◌∷◌ c ""

-- The last digit follows the digits of the rest.
show_from : (n : ℕ) → Acc ◌<◌ n → String
unfolding digit
show_from n (Acc.intro _ smaller) =
    dite (dec_lt 9 n)
      (λ h. show_from (n / 10) (smaller (n / 10) (omega arith)) ++ one (digit (n % 10)))
      (λ _. one (digit n))

unfoldable pub show_u64 : ℕ → String
unfolding show_from by_size smaller_acc dec_lt
show_u64 n = show_from n (by_size.apply n)

unfoldable pub show_i64 : ℤ → String
unfolding show_u64
show_i64 (pos n) = show_u64 n
show_i64 (negsuc n) = "-" ++ show_u64 (suc n)

unfoldable pub hex_digit : ℕ → Char
unfolding digit
hex_digit d =
    if nat_eq d 10
    then "a"
    else if nat_eq d 11
    then "b"
    else if nat_eq d 12
    then "c"
    else if nat_eq d 13
    then "d"
    else if nat_eq d 14
    then "e"
    else if nat_eq d 15
    then "f"
    else digit d

-- `format!("{byte:02x}")`
unfoldable pub show_hex_byte : ℕ → String
unfolding hex_digit
show_hex_byte byte = String.◌∷◌ (hex_digit (byte / 16)) (one (hex_digit (byte % 16)))

code-digit : (d : ℕ) → d < 10 → code (digit d) ≡ 48 + d
unfolding digit
code-digit zero h = refl
code-digit (suc zero) h = refl
code-digit (suc (suc zero)) h = refl
code-digit (suc (suc (suc zero))) h = refl
code-digit (suc (suc (suc (suc zero)))) h = refl
code-digit (suc (suc (suc (suc (suc zero))))) h = refl
code-digit (suc (suc (suc (suc (suc (suc zero)))))) h = refl
code-digit (suc (suc (suc (suc (suc (suc (suc zero))))))) h = refl
code-digit (suc (suc (suc (suc (suc (suc (suc (suc zero)))))))) h = refl
code-digit (suc (suc (suc (suc (suc (suc (suc (suc (suc zero))))))))) h = refl
code-digit (suc (suc (suc (suc (suc (suc (suc (suc (suc (suc d)))))))))) h = absurd (omega arith)

show_from_step :
    (n : ℕ) (w : Acc ◌<◌ n) (w' : Acc ◌<◌ (n / 10))
    → show_from n w
      ≡ ite (dec_lt 9 n) (show_from (n / 10) w' ++ one (digit (n % 10))) (one (digit n))
unfolding show_from
show_from_step n (Acc.intro _ smaller) w' = λ i.
    dite (dec_lt 9 n)
      (λ h.
        show_from (n / 10) (Acc-prop (smaller (n / 10) (omega arith)) w' i) ++ one (digit (n % 10)))
      (λ _. one (digit n))

show_u64_step :
    (n : ℕ)
    → show_u64 n ≡ ite (dec_lt 9 n) (show_u64 (n / 10) ++ one (digit (n % 10))) (one (digit n))
unfolding show_u64
show_u64_step n = show_from_step n (by_size.apply n) (by_size.apply (n / 10))

-- What the digits stand for, read after the number `n`.
abbrev pub read_on : ℕ → List ℕ → ℕ
read_on n [] = n
read_on n (c ∷ s) = read_on (n * 10 + (c - 48)) s

read_on-append : (n : ℕ) (s t : List ℕ) → read_on n (List.◌++◌ s t) ≡ read_on (read_on n s) t
read_on-append n [] t = refl
read_on-append n (c ∷ s) t = read_on-append (n * 10 + (c - 48)) s t

pub record IsDigit (c : ℕ) : Type 0 where
  pub low : 48 ≤ c
  pub high : c ≤ 57

-- Some digits that stand for the number.
pub record IsDecimal (n : ℕ) (s : List ℕ) : Type 0 where
  pub digits : All IsDigit s
  pub value : read_on 0 s ≡ n
  pub nonempty : s ≢ []

one-IsDecimal : (d : ℕ) → d < 10 → IsDecimal d (codes (one (digit d)))
one-IsDecimal d h = record {
  digits =
      (record { low = omega (arith, code-digit d h); high = omega (arith, code-digit d h) }, tt);
  value = omega (arith, code-digit d h);
  nonempty = cons-ne-nil (code (digit d)) [];
}

snoc-ne-nil : (xs : List ℕ) (x : ℕ) → List.◌++◌ xs (x ∷ []) ≢ []
snoc-ne-nil [] x = cons-ne-nil x []
snoc-ne-nil (y ∷ xs) x = cons-ne-nil y (List.◌++◌ xs (x ∷ []))

append-IsDecimal :
    (n : ℕ) (s : String)
    → IsDecimal (n / 10) (codes s)
    → IsDecimal n (codes (s ++ one (digit (n % 10))))
append-IsDecimal n s h = subst (IsDecimal n) (sym (codes-append s (one (digit (n % 10))))) (record {
  digits = All-append IsDigit (codes s) _ h.digits last.digits;
  value =
      read_on-append 0 (codes s) _ ∙ rw h.value (omega (arith, code-digit (n % 10) (omega arith)));
  nonempty = snoc-ne-nil (codes s) (code (digit (n % 10)));
})
  where
    last : IsDecimal (n % 10) (codes (one (digit (n % 10))))
    last = one-IsDecimal (n % 10) (omega arith)

pub show_u64-IsDecimal : (n : ℕ) → IsDecimal n (codes (show_u64 n))
show_u64-IsDecimal n =
    WellFounded.induction by_size {C = λ m. IsDecimal m (codes (show_u64 m))} n λ m smaller.
      subst (λ s. IsDecimal m (codes s)) (sym (show_u64_step m))
        (either m (show_u64 (m / 10) ++ one (digit (m % 10))) (one (digit m)) (dec_lt 9 m)
          (λ h. append-IsDecimal m (show_u64 (m / 10)) (smaller (m / 10) (omega arith)))
          (λ h. one-IsDecimal m (omega arith)))
  where
    either :
        (m : ℕ) (long short : String) (d : Dec (9 < m))
        → (9 < m → IsDecimal m (codes long))
        → (¬ (9 < m) → IsDecimal m (codes short))
        → IsDecimal m (codes (ite d long short))
    either m _ _ (yes h) f g = f h
    either m _ _ (no h) f g = g h
