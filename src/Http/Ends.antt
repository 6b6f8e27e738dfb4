-- ===== src/Http/Ends.antt =====
-- How a handler of src/http.rs ends: what holds of its answer and the state, and what of its error.
use psst_rs.Prelude.{subst, ℕ, String, ◌≡◌, refl, ◌⊎◌, inl, inr, Bool}
use psst_rs.Prelude.Exec.{Result, ok, err, continue, lift, ◌>>=◌}
use psst_rs.Metrics.{AppMetrics}
use psst_rs.Db.Tables.{Tables}
use psst_rs.Db.Connection.{Sqlite, Db}
use psst_rs.Db.Transactions.{Failed, Outcome}
use psst_rs.Http.Api.{ApiError, World, Handler, on_error, map_err, stored, store_call}

abbrev pub Ended :
    {A : Type 0}
    → (A → World → Type 0)
    → (ApiError → World → Type 0)
    → Result ApiError A × World
    → Type 0
Ended P Q (ok a, w) = P a w
Ended P Q (err e, w) = Q e w

pub record Ends {A : Type 0} (P : A → World → Type 0) (Q : ApiError → World → Type 0)
    (r : Result ApiError A × World) : Type 0 where
  pub at : Ended P Q r

abbrev pub tables : World → Tables
tables w = w.sqlite.tables

module _ {A : Type 0} where
  -- A step, then the rest.
  pub Ends-bind :
      {B : Type 0} {P : A → World → Type 0} {Q : ApiError → World → Type 0} (R : B → World → Type 0)
      (S : ApiError → World → Type 0) (m : Handler A) (f : A → Handler B) (w : World)
      → Ends P Q (m w)
      → ((e : ApiError) (w' : World) → Q e w' → S e w')
      → ((a : A) (w' : World) → P a w' → Ends R S (f a w'))
      → Ends R S ((m >>= f) w)
  Ends-bind {B} {P} {Q} R S m f w h fails rest = go (m w) h
    where
      go : (r : Result ApiError A × World) → Ends P Q r → Ends R S (continue f r)
      go (ok a, w') k = rest a w' k.at
      go (err e, w') k = record { at = fails e w' k.at }

  pub Ends-imp :
      {P : A → World → Type 0} {Q : ApiError → World → Type 0} (R : A → World → Type 0)
      (S : ApiError → World → Type 0) (r : Result ApiError A × World)
      → Ends P Q r
      → ((a : A) (w : World) → P a w → R a w)
      → ((e : ApiError) (w : World) → Q e w → S e w)
      → Ends R S r
  Ends-imp R S (ok a, w) h p q = record { at = p a w h.at }
  Ends-imp R S (err e, w) h p q = record { at = q e w h.at }

  -- `map_err` passes the error on.
  pub Ends-map_err :
      {P : A → World → Type 0} {Q : ApiError → World → Type 0} (S : ApiError → World → Type 0)
      (f : AppMetrics → AppMetrics) (m : Handler A) (w : World)
      → Ends P Q (m w)
      → ((e : ApiError) (w' : World) → Q e w' → S e (record w' { metrics = f w'.metrics }))
      → Ends P S (map_err f m w)
  Ends-map_err {P} {Q} S f m w h keep = go (m w) h
    where
      go : (r : Result ApiError A × World) → Ends P Q r → Ends P S (on_error f r)
      go (ok a, w') k = record { at = k.at }
      go (err e, w') k = record { at = keep e w' k.at }

  -- A pure check.
  pub Ends-lift :
      (r : Result ApiError A) (w : World)
      → Ends (λ a w'. (r ≡ ok a) × (w' ≡ w)) (λ e w'. (r ≡ err e) × (w' ≡ w)) (lift r w)
  Ends-lift (ok a) w = record { at = (refl, refl) }
  Ends-lift (err e) w = record { at = (refl, refl) }

  -- A call of the store, from what the store promises.
  pub Ends-store_call :
      (fault : ℕ → Bool) (why : Type 0) (good : A → Tables → Type 0) (f : String → ApiError)
      (m : Db A) (w : World)
      → Outcome fault (tables w) why good (m w.sqlite)
      → Ends
          (λ a w'. good a (tables w') × (w'.metrics ≡ w.metrics))
          (λ e w'. (tables w' ≡ tables w) × (w'.metrics ≡ w.metrics) × (Failed fault ⊎ why))
          (store_call m f w)
  Ends-store_call fault why good f m w h = go (m w.sqlite) h
    where
      go :
          (r : Result String A × Sqlite)
          → Outcome fault (tables w) why good r
          → Ends
              (λ a w'. good a (tables w') × (w'.metrics ≡ w.metrics))
              (λ e w'. (tables w' ≡ tables w) × (w'.metrics ≡ w.metrics) × (Failed fault ⊎ why))
              (stored w f r)
      go (ok a, s) k = record { at = (k, refl) }
      go (err e, s) (same, because) = record { at = (same, refl, because) }

pub never : {A : Type 0} → A ⊎ ⊥ → A
never (inl a) = a
never (inr b) = absurd b

-- A handler returns a value.
pub record Succeeds {A : Type 0} (P : A → World → Type 0) (r : Result ApiError A × World)
    : Type 0 where
  pub value : A
  pub state : World
  pub run : r ≡ (ok value, state)
  pub holds : P value state

-- Where no reason for an error holds, there is none.
pub Ends-Succeeds :
    {A : Type 0} (P : A → World → Type 0) {Q : ApiError → World → Type 0}
    (r : Result ApiError A × World)
    → Ends P Q r
    → ((e : ApiError) (w : World) → ¬ Q e w)
    → Succeeds P r
Ends-Succeeds P (ok a, w) h sure = record { value = a; state = w; run = refl; holds = h.at }
Ends-Succeeds P (err e, w) h sure = absurd (sure e w h.at)

-- A handler returns an error.
pub record Fails {A : Type 0} (Q : ApiError → World → Type 0) (r : Result ApiError A × World)
    : Type 0 where
  pub error : ApiError
  pub state : World
  pub run : r ≡ (err error, state)
  pub holds : Q error state

pub Ends-Fails :
    {A : Type 0} {P : A → World → Type 0} (Q : ApiError → World → Type 0)
    (r : Result ApiError A × World)
    → Ends P Q r
    → ((a : A) (w : World) → ¬ P a w)
    → Fails Q r
Ends-Fails Q (ok a, w) h sure = absurd (sure a w h.at)
Ends-Fails Q (err e, w) h sure = record { error = e; state = w; run = refl; holds = h.at }

-- What a handler that returned a value promises of it.
pub Ends-ok :
    {A : Type 0} {P : A → World → Type 0} {Q : ApiError → World → Type 0}
    {r : Result ApiError A × World} {a : A} {w : World}
    → Ends P Q r
    → r ≡ (ok a, w)
    → P a w
Ends-ok {P} {Q} h e = (subst (Ends P Q) e h).at
