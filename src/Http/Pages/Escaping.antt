-- ===== src/Http/Pages/Escaping.antt =====
-- What the escaping of src/http.rs keeps out of an attribute.
use Prim.Native.Char.{Char, code}
use mathlib.Core.List
use psst_rs.Prelude.{
  ℕ, String, ◌≢◌, subst, sym, inl, inr, nat_eq, List, [], ◌∷◌, All, Bool-cases, arith,
}
use psst_rs.Prelude.Text.{codes, codes-append}
use psst_rs.Http.Pages.{escape_char, escape_html_attribute}

-- Neither a quote nor an angle bracket.
pub record IsPlain (c : ℕ) : Type 0 where
  pub quote : c ≢ b'"'
  pub less : c ≢ b'<'
  pub greater : c ≢ b'>'
  pub apostrophe : c ≢ 39

All-append : (xs ys : List ℕ) → All IsPlain xs → All IsPlain ys → All IsPlain (List.◌++◌ xs ys)
All-append [] ys h k = k
All-append (x ∷ xs) ys (h, hs) k = (h, All-append xs ys hs k)

escape_char-IsPlain : (ch : Char) → All IsPlain (codes (escape_char ch))
unfolding escape_char
escape_char-IsPlain ch = elim (Bool-cases (nat_eq (code ch) b'&')) [
  | inl e ↦ rw e (ground arith)
  | inr e ↦ rw e (elim (Bool-cases (nat_eq (code ch) b'"')) [
    | inl f ↦ rw f (ground arith)
    | inr f ↦ rw f (elim (Bool-cases (nat_eq (code ch) b'<')) [
      | inl g ↦ rw g (ground arith)
      | inr g ↦ rw g (elim (Bool-cases (nat_eq (code ch) b'>')) [
        | inl h ↦ rw h (ground arith)
        | inr h ↦ rw h (elim (Bool-cases (nat_eq (code ch) 39)) [
          | inl k ↦ rw k (ground arith)
          | inr k ↦ rw k (ground arith)
        ])
      ])
    ])
  ])
]

-- No escaped text has a quote or an angle bracket, so that a value neither ends its attribute nor
-- opens a tag.
pub escape_html_attribute-IsPlain : (s : String) → All IsPlain (codes (escape_html_attribute s))
unfolding escape_html_attribute
escape_html_attribute-IsPlain String.[] = tt
escape_html_attribute-IsPlain (String.◌∷◌ ch s) =
    subst (All IsPlain) (sym (codes-append (escape_char ch) (escape_html_attribute s))) (
      All-append (codes (escape_char ch)) (codes (escape_html_attribute s)) (escape_char-IsPlain ch)
        (escape_html_attribute-IsPlain s))
