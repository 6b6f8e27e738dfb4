-- ===== src/Http/Pages/Templates.antt =====
-- The rendering of the pages of src/http.rs. The files that `include_str!` reads at compile time are
-- parameters.
use Prim.Native.Char.{code}
use Prim.Native.String.{◌++◌, count}
use mathlib.Core.List
use psst_rs.Prelude.{
  ℕ, zero, suc, ◌-◌, String, Bool, true, false, ◌&&◌, List, [], ◌∷◌, nat_eq, if◌then◌else◌,
}
use psst_rs.Prelude.Text.{as_bytes}
use psst_rs.Prelude.Show.{show_u64, show_hex_byte}
use psst_rs.Crypto.{Crypto}
use psst_rs.Config.{AppConfig}
use psst_rs.Secret.{allowed_ttl_seconds}
use psst_rs.Http.Pages.{ttl_label, escape_html_attribute}

-- `str::starts_with`
unfoldable pub starts_with : String → String → Bool
starts_with String.[] text = true
starts_with (String.◌∷◌ p ps) String.[] = false
starts_with (String.◌∷◌ p ps) (String.◌∷◌ c cs) = nat_eq (code p) (code c) && starts_with ps cs

-- `str::replace` for a pattern that is not empty, from left to right; the number is how much of a
-- match is still to be passed over.
unfoldable pub replace_from : (pattern value : String) → ℕ → String → String
replace_from pattern value k String.[] = ""
replace_from pattern value (suc k) (String.◌∷◌ c cs) = replace_from pattern value k cs
replace_from pattern value zero (String.◌∷◌ c cs) =
    let matched = replace_from pattern value (count pattern - 1) cs in
    let unmatched = replace_from pattern value zero cs in
    if starts_with pattern (String.◌∷◌ c cs) then value ++ matched else String.◌∷◌ c unmatched

unfoldable pub replace : (pattern value text : String) → String
unfolding replace_from starts_with
replace pattern value text = replace_from pattern value 0 text

unfoldable pub render_template : String → List (String × String) → String
unfolding replace
render_template rendered [] = rendered
render_template rendered ((placeholder, value) ∷ replacements) =
    render_template (replace placeholder value rendered) replacements

-- The loop over the TTLs, which writes to `ttl_options`.
unfoldable pub write_ttl_options : ℕ → String → List ℕ → String
unfolding ttl_label show_u64
write_ttl_options default_ttl_seconds ttl_options [] = ttl_options
write_ttl_options default_ttl_seconds ttl_options (ttl_seconds ∷ rest) =
    let selected = if nat_eq ttl_seconds default_ttl_seconds then " selected" else "" in
    write_ttl_options default_ttl_seconds
      (ttl_options
        ++ ("<option value=\""
            ++ (show_u64 ttl_seconds
                ++ ("\"" ++ (selected ++ (">" ++ (ttl_label ttl_seconds ++ "</option>")))))))
      rest

-- `hash[..6]` in hexadecimal
abbrev pub hex_of : ℕ → List ℕ → String
hex_of zero bytes = ""
hex_of (suc n) [] = ""
hex_of (suc n) (byte ∷ bytes) = show_hex_byte byte ++ hex_of n bytes

module _ (crypto : Crypto) (app_css app_js create_html read_html : String) where
  unfoldable pub asset_version : String
  unfolding show_hex_byte
  asset_version = hex_of 6 (crypto.sha256 (List.◌++◌ (as_bytes app_css) (as_bytes app_js)))

  abbrev pub app_css_url : String
  app_css_url = "/static/app.css?v=" ++ asset_version

  abbrev pub app_js_url : String
  app_js_url = "/static/app.js?v=" ++ asset_version

  unfoldable pub render_index_page : AppConfig → String
  unfolding asset_version escape_html_attribute show_u64 write_ttl_options render_template
  render_index_page config = render_template create_html (
      ("{{APP_CSS_URL}}", app_css_url)
      ∷ ("{{APP_JS_URL}}", app_js_url)
      ∷ ("{{PUBLIC_BASE_URL}}", escape_html_attribute config.public_base_url)
      ∷ ("{{MAX_SECRET_BYTES}}", show_u64 config.max_secret_bytes)
      ∷ ("{{ENABLE_CREATE}}", if config.enable_create then "true" else "false")
      ∷ ("{{TURNSTILE_SITE_KEY}}", escape_html_attribute config.turnstile_site_key)
      ∷ ("{{TTL_OPTIONS}}", write_ttl_options config.default_ttl_seconds "" allowed_ttl_seconds)
      ∷ [])

  unfoldable pub render_read_page : String → String
  unfolding asset_version escape_html_attribute render_template
  render_read_page secret_id = render_template read_html (
      ("{{APP_CSS_URL}}", app_css_url)
      ∷ ("{{APP_JS_URL}}", app_js_url)
      ∷ ("{{SECRET_ID}}", escape_html_attribute secret_id)
      ∷ [])
