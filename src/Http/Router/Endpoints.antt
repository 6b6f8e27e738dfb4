-- ===== src/Http/Router/Endpoints.antt =====
-- The endpoints of src/http.rs without a state of their own, and the form of an error.
use psst_rs.Prelude.{ℕ, String, Option, [], ◌∷◌}
use psst_rs.Config.{AppConfig}
use psst_rs.Crypto.{Crypto}
use psst_rs.Metrics.{AppMetrics}
use psst_rs.Metrics.Render.{render}
use psst_rs.Http.Api.{ApiError}
use psst_rs.Http.Pages.Templates.{render_index_page, render_read_page}
use psst_rs.Http.Router.{Headers}

pub record ErrorResponse : Type 0 where
  pub error : String

-- The status and the value that is sent as JSON.
abbrev pub into_response : ApiError → ℕ × ErrorResponse
into_response e = (e.status, record { error = e.message })

abbrev pub healthz : String
healthz = "ok"

-- The header and the body of the endpoints that set a content type.
abbrev pub metrics_handler :
    Option String → Option String → String → AppMetrics → AppConfig → Headers × String
metrics_handler build_version build_commit package_version metrics config = (
  ("content-type", "text/plain; version=0.0.4; charset=utf-8") ∷ [],
  render build_version build_commit package_version metrics config,
)

abbrev pub static_app_css : String → Headers × String
static_app_css app_css = (("content-type", "text/css; charset=utf-8") ∷ [], app_css)

abbrev pub static_app_js : String → Headers × String
static_app_js app_js = (("content-type", "text/javascript; charset=utf-8") ∷ [], app_js)

-- The two pages.
module _ (crypto : Crypto) (app_css app_js create_html read_html : String) where
  abbrev pub index : AppConfig → String
  index = render_index_page crypto app_css app_js create_html read_html

  abbrev pub read_secret_page : String → String
  read_secret_page = render_read_page crypto app_css app_js create_html read_html
