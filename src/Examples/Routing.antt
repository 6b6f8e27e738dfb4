-- ===== src/Examples/Routing.antt =====
-- The theorems on the layers and the pages of src/http.rs, at a request and two ids.
use psst_rs.Prelude.{ℕ, ◌≡◌, none, some, List, []}
use psst_rs.Http.Router.{
  Request, Server, Next, Route, routes, max_json_body_bytes, with_client_ip,
  build_router_with_metrics,
}
use psst_rs.Http.Router.Sealed.{Sealed, build_router-Sealed}
use psst_rs.Http.Pages.Templates.{render_read_page}
use psst_rs.Http.Pages.Markup.{markup, markup-render_read_page}
use psst_rs.Examples.Data.{config, world, headers, parsers, address, crypto}

abbrev request : Request
request = record {
  method = "GET";
  uri = "/s/first?token=1";
  headers = headers;
  body = "";
  matched_path = some "/s/{id}";
  connect_info = some (record { ip = address; port = 4000 });
  client_ip = none;
}

abbrev server : Server
server = record { world = world; log = [] }

abbrev answer : List Route → ℕ → Next
answer table limit r s = (record { status = 200; headers = []; body = "page" }, s)

build_router-Sealed_example :
    Sealed request 12
      (answer routes
        (max_json_body_bytes config)
        (with_client_ip parsers config request request.connect_info)
        server)
      (build_router_with_metrics answer parsers 12 config request server)
build_router-Sealed_example = build_router-Sealed answer parsers 12 config request server

markup-render_read_page_example :
    markup (render_read_page crypto "css" "js" "" "<main id=\"{{SECRET_ID}}\">" "first")
    ≡ markup (render_read_page crypto "css" "js" "" "<main id=\"{{SECRET_ID}}\">" "\"><script>")
markup-render_read_page_example =
    markup-render_read_page crypto "css" "js" "" "<main id=\"{{SECRET_ID}}\">" "first" "\"><script>"
