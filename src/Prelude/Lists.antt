-- ===== src/Prelude/Lists.antt =====
-- Lists measured by native numbers and filtered by Boolean tests, and predicates over lists.
use Prim.Native.Nat.{ℕ, suc, ◌+◌}
use mathlib.Core.Path.{◌≡◌, refl, subst}
use mathlib.Core.Bool.{Bool, true, false, not, ◌||◌}
use mathlib.Core.Option.{Option, none, some}
use mathlib.Core.List.{List, [], ◌∷◌, ◌++◌}
use native.Mathlib.Omega.{arith}
use psst_rs.Prelude.Tests.{if◌then◌else◌, Bool-cases}
use mathlib.Core.Logic.{inl, inr}

module _ {ℓ} {A : Type ℓ} where
  abbrev pub length : List A → ℕ
  length [] = 0
  length (x ∷ xs) = suc (length xs)

  abbrev pub any : (A → Bool) → List A → Bool
  any p [] = false
  any p (x ∷ xs) = p x || any p xs

  -- The rows that pass a test.
  abbrev pub select : (A → Bool) → List A → List A
  select p [] = []
  select p (x ∷ xs) = let rest = select p xs in if p x then x ∷ rest else rest

  abbrev pub first : (A → Bool) → List A → Option A
  first p [] = none
  first p (x ∷ xs) = if p x then some x else first p xs

  abbrev pub count : (A → Bool) → List A → ℕ
  count p [] = 0
  count p (x ∷ xs) = if p x then suc (count p xs) else count p xs

module _ {ℓ κ} {A : Type ℓ} (P : A → Type κ) where
  abbrev pub All : List A → Type κ
  All [] = Unit
  All (x ∷ xs) = P x × All xs

  pub All-select : (p : A → Bool) (xs : List A) → All xs → All (select p xs)
  All-select p [] h = tt
  All-select p (x ∷ xs) (h, hs) = elim (Bool-cases (p x)) [
    | inl e ↦ rw e (h, All-select p xs hs)
    | inr e ↦ rw e (All-select p xs hs)
  ]

  pub All-append : (xs ys : List A) → All xs → All ys → All (xs ++ ys)
  All-append [] ys h k = k
  All-append (x ∷ xs) ys (h, hs) k = (h, All-append xs ys hs k)

  pub first-All : (p : A → Bool) (xs : List A) (a : A) → All xs → first p xs ≡ some a → P a
  first-All p [] a h e = cc
  first-All p (x ∷ xs) a (h, hs) e = elim (Bool-cases (p x)) [
    | inl t ↦ subst P (ground arith) h
    | inr f ↦ first-All p xs a hs (rw f at e)
  ]

module _ {ℓ} {A : Type ℓ} where
  pub length-select-not :
      (p : A → Bool) (xs : List A) → length (select (λ x. not (p x)) xs) + count p xs ≡ length xs
  length-select-not p [] = refl
  length-select-not p (x ∷ xs) = ground (arith, length-select-not p xs)

  pub first-satisfies : (p : A → Bool) (xs : List A) (a : A) → first p xs ≡ some a → p a ≡ true
  first-satisfies p [] a e = cc
  first-satisfies p (x ∷ xs) a e = ground (arith, first-satisfies p xs a)

  pub count-eq-zero : (p : A → Bool) (xs : List A) → any p xs ≡ false → count p xs ≡ 0
  count-eq-zero p [] h = refl
  count-eq-zero p (x ∷ xs) h = ground (arith, count-eq-zero p xs)

  pub any-of_first :
      (p q : A → Bool)
      → ((x : A) → p x ≡ true → q x ≡ true)
      → (xs : List A) (a : A) → first p xs ≡ some a
      → any q xs ≡ true
  any-of_first p q imp [] a e = cc
  any-of_first p q imp (x ∷ xs) a e = ground (arith, imp x, any-of_first p q imp xs a)

  -- Removing rows that fail a test leaves the first row that passes it where it is.
  pub first-select :
      (p q : A → Bool)
      → ((x : A) → p x ≡ true → q x ≡ true)
      → (xs : List A) → first p (select q xs) ≡ first p xs
  first-select p q imp [] = refl
  first-select p q imp (x ∷ xs) = ground (arith, imp x, first-select p q imp xs)

  pub first-select-none :
      (p q : A → Bool)
      → ((x : A) → p x ≡ true → q x ≡ false)
      → (xs : List A) → first p (select q xs) ≡ none
  first-select-none p q imp [] = refl
  first-select-none p q imp (x ∷ xs) = ground (arith, imp x, first-select-none p q imp xs)

  pub select_all : (p : A → Bool) (xs : List A) → any (λ x. not (p x)) xs ≡ false → select p xs ≡ xs
  select_all p [] h = refl
  select_all p (x ∷ xs) h = ground (arith, select_all p xs)

  pub any-select : (p q : A → Bool) (xs : List A) → any p xs ≡ false → any p (select q xs) ≡ false
  any-select p q [] h = refl
  any-select p q (x ∷ xs) h = ground (arith, any-select p q xs)

module _ {ℓ} {A : Type ℓ} where
  pub length-select : (p : A → Bool) (xs : List A) → length (select p xs) ≡ count p xs
  length-select p [] = refl
  length-select p (x ∷ xs) = ground (arith, length-select p xs)

  pub any-select-not : (p : A → Bool) (xs : List A) → any p (select (λ x. not (p x)) xs) ≡ false
  any-select-not p [] = refl
  any-select-not p (x ∷ xs) = ground (arith, any-select-not p xs)

  pub first-none : (p : A → Bool) (xs : List A) → any p xs ≡ false → first p xs ≡ none
  first-none p [] h = refl
  first-none p (x ∷ xs) h = ground (arith, first-none p xs)

  pub any_imp :
      (p q : A → Bool)
      → ((x : A) → p x ≡ true → q x ≡ true)
      → (xs : List A) → any q xs ≡ false
      → any p xs ≡ false
  any_imp p q imp [] h = refl
  any_imp p q imp (x ∷ xs) h = ground (arith, imp x, any_imp p q imp xs)

module _ {ℓ} {A : Type ℓ} (same : A → A → Bool) where
  -- No two rows share a key.
  abbrev pub Distinct : List A → Type 0
  Distinct [] = Unit
  Distinct (x ∷ xs) = (any (same x) xs ≡ false) × Distinct xs

  pub Distinct-select : (q : A → Bool) (xs : List A) → Distinct xs → Distinct (select q xs)
  Distinct-select q [] h = tt
  Distinct-select q (x ∷ xs) (h, hs) = elim (Bool-cases (q x)) [
    | inl e ↦ rw e (any-select (same x) q xs h, Distinct-select q xs hs)
    | inr e ↦ rw e (Distinct-select q xs hs)
  ]
