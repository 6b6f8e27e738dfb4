-- ===== src/Http/Api.antt =====
-- The state and the errors of the handlers of src/http.rs. A handler that returns an error keeps
-- what it has written before, in the database and in the metrics.
use psst_rs.Prelude.{ℕ, String, Option, none, some}
use psst_rs.Prelude.Exec.{Result, ok, err, Exec}
use psst_rs.Prelude.Int.{ℤ, i64_try_from}
use psst_rs.Metrics.{AppMetrics}
use psst_rs.Db.Connection.{Sqlite, Db}

pub record ApiError : Type 0 where
  pub status : ℕ
  pub message : String

unfoldable pub bad_request : String → ApiError
bad_request message = record { status = 400; message = message }

unfoldable pub service_unavailable : String → ApiError
service_unavailable message = record { status = 503; message = message }

unfoldable pub too_many_requests : ApiError
too_many_requests = record { status = 429; message = "rate limit exceeded" }

unfoldable pub internal : String → ApiError
internal message = record { status = 500; message = message }

unfoldable pub secret_not_found : ApiError
secret_not_found = record { status = 404; message = "secret not found" }

-- What the handlers share: the database file and the metrics.
pub record World : Type 0 where
  pub sqlite : Sqlite
  pub metrics : AppMetrics

abbrev pub Handler : Type 0 → Type 0
Handler A = Exec World ApiError A

-- A change of the metrics.
abbrev pub meter : (AppMetrics → AppMetrics) → Handler Unit
meter f w = (ok tt, record w { metrics = f w.metrics })

-- `map_err`: an error is counted and passed on.
abbrev pub on_error :
    {A : Type 0} → (AppMetrics → AppMetrics) → Result ApiError A × World → Result ApiError A × World
on_error f (ok a, w) = (ok a, w)
on_error f (err e, w) = (err e, record w { metrics = f w.metrics })

abbrev pub map_err : {A : Type 0} → (AppMetrics → AppMetrics) → Handler A → Handler A
map_err f m w = on_error f (m w)

-- A call of the store, whose error becomes an `ApiError`.
abbrev pub stored :
    {A : Type 0}
    → World
    → (String → ApiError)
    → Result String A × Sqlite
    → Result ApiError A × World
stored w f (ok a, s) = (ok a, record w { sqlite = s })
stored w f (err e, s) = (err (f e), record w { sqlite = s })

abbrev pub store_call : {A : Type 0} → Db A → (String → ApiError) → Handler A
store_call m f w = stored w f (m w.sqlite)

-- `SystemTime::now()` is an argument: the seconds since the epoch, if it is not before it.
unfoldable pub current_timestamp : Option ℕ → Result ApiError ℤ
unfolding internal
current_timestamp none = err (internal "system clock is before the Unix epoch")
current_timestamp (some seconds) = elim (i64_try_from seconds) [
  | none ↦ err (internal "current timestamp exceeds supported range")
  | some now ↦ ok now
]
