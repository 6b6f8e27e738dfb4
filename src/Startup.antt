-- ===== src/Startup.antt =====
-- src/main.rs: the program's start, up to the point where it serves requests.
use psst_rs.Prelude.{ℕ, String, Bool, List}
use psst_rs.Prelude.Exec.{Result, pure, lift, ◌>>=◌, ◌>>◌}
use psst_rs.Net.{AddrParsers, SocketAddr}
use psst_rs.Config.{AppConfig}
use psst_rs.Config.Load.{Lookup, from_env}
use psst_rs.Metrics.{AppMetrics, zeroed}
use psst_rs.Db.Connection.{Db, Database, FilePath, bootstrap}
use psst_rs.Http.Router.{Next, Route, build_router_with_metrics}

-- What `init_tracing` uses without a filter in the environment.
abbrev pub default_log_filter : String
default_log_filter = "psst_rs=info,warn"

-- What serves the requests, and what the maintenance loop is started with.
pub record Application : Type 0 where
  pub config : AppConfig
  pub database : Database
  pub metrics : AppMetrics
  pub router : ℕ → Next

-- The environment, the form of a path, the listener and `axum` are parameters. The router has the time
-- that each request takes as an argument.
module _ (fault : ℕ → Bool) (parsers : AddrParsers) (environment : Lookup)
    (path_of : String → FilePath) (bind : SocketAddr → Result String Unit)
    (dispatch : List Route → ℕ → Next) where
  unfoldable pub main : Db Application
  main = do
    config ← lift (from_env parsers environment)
    database ← bootstrap fault (path_of config.database_path)
    lift (bind config.bind_addr)
    pure (record {
      config = config;
      database = database;
      metrics = zeroed;
      router = λ elapsed_ms. build_router_with_metrics dispatch parsers elapsed_ms config;
    })
