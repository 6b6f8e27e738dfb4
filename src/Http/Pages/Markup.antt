-- ===== src/Http/Pages/Markup.antt =====
-- What in the read page of src/http.rs depends on the id in its path.
use Prim.Native.Char.{code}
use Prim.Native.String.{◌++◌, count}
use mathlib.Core.List
use psst_rs.Prelude.{
  ℕ, zero, suc, ◌-◌, String, ◌≡◌, refl, sym, ap, ◌∙◌, Bool, false, ◌||◌, List, [], ◌∷◌, nat_eq,
  select, All, Bool-cases, inl, inr, arith, if◌then◌else◌,
}
use psst_rs.Prelude.Text.{codes, codes-append}
use psst_rs.Crypto.{Crypto}
use psst_rs.Http.Pages.{escape_html_attribute}
use psst_rs.Http.Pages.Escaping.{IsPlain, escape_html_attribute-IsPlain}
use psst_rs.Http.Pages.Templates.{
  starts_with, replace_from, replace, render_template, render_read_page, app_css_url, app_js_url,
}

-- A quote or an angle bracket, the characters that delimit tags and attribute values.
unfoldable pub is_markup : ℕ → Bool
is_markup c = nat_eq c b'"' || nat_eq c 39 || nat_eq c b'<' || nat_eq c b'>'

-- The delimiters of a text, in order.
abbrev pub markup : String → List ℕ
markup text = select is_markup (codes text)

select-append :
    (xs ys : List ℕ)
    → select is_markup (List.◌++◌ xs ys) ≡ List.◌++◌ (select is_markup xs) (select is_markup ys)
select-append [] ys = refl
select-append (x ∷ xs) ys = elim (Bool-cases (is_markup x)) [
  | inl e ↦ rw e (ap (λ rest. x ∷ rest) (select-append xs ys))
  | inr e ↦ rw e (select-append xs ys)
]

markup-append : (s t : String) → markup (s ++ t) ≡ List.◌++◌ (markup s) (markup t)
markup-append s t = ap (select is_markup) (codes-append s t) ∙ select-append (codes s) (codes t)

unmarked : (c : ℕ) → IsPlain c → is_markup c ≡ false
unfolding is_markup
unmarked c h = ground (arith, h.quote, h.less, h.greater, h.apostrophe)

select-IsPlain : (xs : List ℕ) → All IsPlain xs → select is_markup xs ≡ []
select-IsPlain [] h = refl
select-IsPlain (x ∷ xs) (h, hs) = rw (unmarked x h) (select-IsPlain xs hs)

-- An escaped text delimits nothing.
markup-escape_html_attribute : (s : String) → markup (escape_html_attribute s) ≡ []
markup-escape_html_attribute s =
    select-IsPlain (codes (escape_html_attribute s)) (escape_html_attribute-IsPlain s)

module _ (pattern : String) where
  -- Replacing by values with the same delimiters gives texts with the same delimiters.
  replace_from-markup :
      (v v' : String) (k : ℕ) (text : String)
      → markup v ≡ markup v'
      → markup (replace_from pattern v k text) ≡ markup (replace_from pattern v' k text)
  unfolding replace_from
  replace_from-markup v v' k String.[] h = refl
  replace_from-markup v v' (suc k) (String.◌∷◌ c cs) h = replace_from-markup v v' k cs h
  replace_from-markup v v' zero (String.◌∷◌ c cs) h =
      elim (Bool-cases (starts_with pattern (String.◌∷◌ c cs))) [
        | inl e ↦ rw e (
            markup-append v _
            ∙ (λ i. List.◌++◌ (h i) (replace_from-markup v v' (count pattern - 1) cs h i))
            ∙ sym (markup-append v' _))
        | inr e ↦ rw e (
            ap (λ rest. if is_markup (code c) then code c ∷ rest else rest)
              (replace_from-markup v v' zero cs h))
      ]

module _ (crypto : Crypto) (app_css app_js create_html read_html : String) where
  -- The quotes and angle brackets of the read page are the same and in the same order for every id:
  -- whatever the template, no id adds one, removes one or moves one past another.
  pub markup-render_read_page :
      (secret_id other : String)
      → markup (render_read_page crypto app_css app_js create_html read_html secret_id)
        ≡ markup (render_read_page crypto app_css app_js create_html read_html other)
  unfolding render_read_page render_template replace
  markup-render_read_page secret_id other =
      replace_from-markup "{{SECRET_ID}}" (escape_html_attribute secret_id)
        (escape_html_attribute other) 0
        (replace "{{APP_JS_URL}}" (app_js_url crypto app_css app_js create_html read_html) (
          replace "{{APP_CSS_URL}}" (app_css_url crypto app_css app_js create_html read_html)
            read_html))
        (markup-escape_html_attribute secret_id ∙ sym (markup-escape_html_attribute other))
