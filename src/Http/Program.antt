-- ===== src/Http/Program.antt =====
-- Requests of src/http.rs and the maintenance task of src/maintenance.rs as programs that run in
-- steps. A step is one call of the store, one change of the metrics or one wait; between two steps of
-- a program any other may run, which is how tokio's threads interleave the handlers.
pub mod Costs
pub mod Calls
pub mod Funding
use psst_rs.Prelude.{ℕ, zero, suc, String, Bool, true, false, List, [], ◌∷◌}
use psst_rs.Prelude.Exec.{Result, ok, err}
use psst_rs.Metrics.{AppMetrics}
use psst_rs.Db.Connection.{Db}
use psst_rs.Http.Api.{ApiError, World, Handler, meter}

-- A step changes the shared state, and the rest depends on the state that it found.
pub data Program (A : Type 0) : Type 0 where
  finished : A → Program A
  step : (World → World) → (World → Program A) → Program A

abbrev pub Task : Type 0 → Type 0
Task A = Program (Result ApiError A)

module _ {A : Type 0} where
  -- A handler that nothing interrupts.
  abbrev pub atomically : Handler A → Task A
  atomically m = step (λ w. (m w).1) (λ w. finished (m w).0)

  -- A check that touches nothing shared is no step.
  abbrev pub settled : Result ApiError A → Task A
  settled r = finished r

  -- One call of the store, whose error is not an `ApiError` yet.
  abbrev pub call : Db A → Program (Result String A)
  call m = step (λ w. record w { sqlite = (m w.sqlite).1 }) (λ w. finished (m w.sqlite).0)

-- A change of the metrics.
abbrev pub metered : (AppMetrics → AppMetrics) → Program Unit
metered f = step (λ w. record w { metrics = f w.metrics }) (λ w. finished tt)

module _ {A B : Type 0} where
  -- `p`, then what follows its result.
  unfoldable pub and_then : Program A → (A → Program B) → Program B
  and_then (finished a) k = k a
  and_then (step f next) k = step f (λ w. and_then (next w) k)

-- The `?` of the source.
module _ {E A B : Type 0} where
  abbrev pub on_ok : (A → Program (Result E B)) → Result E A → Program (Result E B)
  on_ok k (ok a) = k a
  on_ok k (err e) = finished (err e)

  infixl 10 ◌>>=◌ ◌>>◌
  abbrev pub ◌>>=◌ : Program (Result E A) → (A → Program (Result E B)) → Program (Result E B)
  m >>= k = and_then m (on_ok k)

  abbrev pub ◌>>◌ : Program (Result E A) → Program (Result E B) → Program (Result E B)
  m >> n = m >>= λ _. n

-- `map_err` with a counter: the error is counted in a step of its own.
module _ {A : Type 0} where
  abbrev pub count_error : (AppMetrics → AppMetrics) → Result ApiError A → Task A
  count_error f (ok a) = finished (ok a)
  count_error f (err e) = and_then (metered f) (λ _. finished (err e))

  abbrev pub counting : (AppMetrics → AppMetrics) → Task A → Task A
  counting f m = and_then m (count_error f)

-- `.await`: the others may run. The source waits without a time limit: where the answer never comes,
-- a schedule gives the thread no further turn.
abbrev pub pause : Task Unit
pause = step (λ w. w) (λ w. finished (ok tt))

module _ {A : Type 0} where
  -- One step of one program; a finished one has none.
  abbrev pub turn : Program A → World → Program A × World
  turn (finished a) w = (finished a, w)
  turn (step f next) w = (next w, f w)

  -- The turn of the `n`-th program, if there is one.
  unfoldable pub advance : ℕ → List (Program A) → World → List (Program A) × World
  advance n [] w = ([], w)
  advance zero (p ∷ ps) w = let (p', w') = turn p w in (p' ∷ ps, w')
  advance (suc n) (p ∷ ps) w = let (ps', w') = advance n ps w in (p ∷ ps', w')

  -- Any interleaving: whose turn it is, one after the other.
  unfoldable pub run_schedule : List ℕ → List (Program A) → World → List (Program A) × World
  run_schedule [] ps w = (ps, w)
  run_schedule (n ∷ ns) ps w = let (ps', w') = advance n ps w in run_schedule ns ps' w'
