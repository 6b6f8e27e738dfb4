-- ===== src/Http/Pages.antt =====
-- The pages of src/http.rs: the labels of the TTLs, the escaping of attributes and the templates.
pub mod Escaping
pub mod Labels
pub mod Templates
pub mod Markup
use Prim.Native.Char.{Char, code}
use Prim.Native.String.{◌++◌}
use psst_rs.Prelude.{ℕ, ◌*◌, String, Bool, nat_eq, if◌then◌else◌}

unfoldable pub ttl_label : ℕ → String
ttl_label ttl_seconds =
    if nat_eq ttl_seconds (15 * 60)
    then "15 minutes"
    else if nat_eq ttl_seconds (60 * 60)
    then "1 hour"
    else if nat_eq ttl_seconds (24 * 60 * 60)
    then "24 hours"
    else if nat_eq ttl_seconds (7 * 24 * 60 * 60)
    then "7 days"
    else "Unsupported TTL"

-- One turn of the loop over the characters.
unfoldable pub escape_char : Char → String
escape_char ch =
    if nat_eq (code ch) b'&'
    then "&amp;"
    else if nat_eq (code ch) b'"'
    then "&quot;"
    else if nat_eq (code ch) b'<'
    then "&lt;"
    else if nat_eq (code ch) b'>'
    then "&gt;"
    else if nat_eq (code ch) 39
    then "&#39;"
    else String.◌∷◌ ch ""

unfoldable pub escape_html_attribute : String → String
unfolding escape_char
escape_html_attribute String.[] = ""
escape_html_attribute (String.◌∷◌ ch chars) = escape_char ch ++ escape_html_attribute chars
