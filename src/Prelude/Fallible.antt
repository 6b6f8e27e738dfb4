-- ===== src/Prelude/Fallible.antt =====
-- Fallible code with no state: the bind of `Result`, and what holds of every value returned.
use mathlib.Core.Path.{◌≡◌, refl, subst}
use mathlib.Core.Bool.{Bool, true, false}
use mathlib.Core.Option.{Option, none, some}
use psst_rs.Prelude.Exec.{Result, ok, err}

infixl 10 ◌>>=◌ ◌>>◌
unfoldable pub ◌>>=◌ {ℓ} : {E A B : Type ℓ} → Result E A → (A → Result E B) → Result E B
ok a >>= f = f a
err e >>= f = err e

abbrev pub ◌>>◌ {ℓ} : {E A B : Type ℓ} → Result E A → Result E B → Result E B
m >> n = m >>= λ _. n

abbrev pub ok_or : {E A : Type 0} → Option A → E → Result E A
ok_or none e = err e
ok_or (some a) e = ok a

-- `if b { bail!(e) }`
abbrev pub bail_if : {E : Type 0} → Bool → E → Result E Unit
bail_if true e = err e
bail_if false e = ok tt

-- `P` holds of the value, if there is one.
abbrev pub Ensures : {E A : Type 0} → (A → Type 0) → Result E A → Type 0
Ensures P (ok a) = P a
Ensures P (err e) = Unit

pub Ensures-bind :
    {E A B : Type 0} (P : B → Type 0) (m : Result E A) (f : A → Result E B)
    → ((a : A) → m ≡ ok a → Ensures P (f a))
    → Ensures P (m >>= f)
unfolding ◌>>=◌
Ensures-bind P (ok a) f h = h a refl
Ensures-bind P (err e) f h = tt

pub Ensures-ok :
    {E A : Type 0} (P : A → Type 0) (m : Result E A) (a : A) → Ensures P m → m ≡ ok a → P a
Ensures-ok P (ok b) a h e = let same : b ≡ a = cc in subst P same h
Ensures-ok P (err x) a h e = cc

pub bind-ok :
    {E A B : Type 0} {m : Result E A} {f : A → Result E B} {b : B}
    → (m >>= f) ≡ ok b
    → (a : A) × (m ≡ ok a) × (f a ≡ ok b)
unfolding ◌>>=◌
bind-ok {m} {f} h = go m f h
  where
    go :
        {E A B : Type 0} (r : Result E A) (k : A → Result E B) {b : B}
        → (r >>= k) ≡ ok b
        → (a : A) × (r ≡ ok a) × (k a ≡ ok b)
    go (ok a) k e = (a, refl, e)
    go (err x) k e = cc
