-- ===== src/Db/Transactions.antt =====
-- Rules for reasoning about calls of SQLite: a call, a connection and an immediate transaction,
-- whichever calls fail.
use psst_rs.Prelude.{ℕ, suc, String, ◌≡◌, refl, ◌⊎◌, inl, inr, Bool, true, Bool-cases}
use psst_rs.Prelude.Exec.{Result, ok, err, pure, continue, ◌>>=◌, ◌>>◌}
use psst_rs.Db.Tables.{Tables}
use psst_rs.Db.Connection.{
  Sqlite, Db, Database, engine, open_connection, rolled_back, with_immediate_transaction,
}

-- Some call of SQLite fails.
abbrev pub Failed : (ℕ → Bool) → Type 0
Failed fault = (n : ℕ) × (fault n ≡ true)

-- A value comes with `good`. An error comes only of a failed call or for the reason `why`, and has
-- changed no table.
abbrev pub Outcome :
    {A : Type 0}
    → (ℕ → Bool)
    → Tables
    → Type 0
    → (A → Tables → Type 0)
    → Result String A × Sqlite
    → Type 0
Outcome fault t why good (ok a, s) = good a s.tables
Outcome fault t why good (err e, s) = (s.tables ≡ t) × (Failed fault ⊎ why)

-- The same inside a transaction, which may have changed the tables before an error.
abbrev pub Inner :
    {A : Type 0} → (ℕ → Bool) → Type 0 → (A → Tables → Type 0) → Result String A × Sqlite → Type 0
Inner fault why good (ok a, s) = good a s.tables
Inner fault why good (err e, s) = Failed fault ⊎ why

module _ (fault : ℕ → Bool) where
  pub engine-step :
      {B : Type 0} (P : Result String B × Sqlite → Type 0) (context : String) (k : Unit → Db B)
      (s : Sqlite)
      → ((m : ℕ) → Failed fault → P (err context, record s { calls = m }))
      → ((m : ℕ) → P (k tt (record s { calls = m })))
      → P ((engine fault context >>= k) s)
  unfolding engine
  engine-step P context k s fails goes = elim (Bool-cases (fault s.calls)) [
    | inl e ↦ rw e (fails (suc s.calls) (s.calls, e))
    | inr e ↦ rw e (goes (suc s.calls))
  ]

  pub engine-end :
      (P : Result String Unit × Sqlite → Type 0) (context : String) (s : Sqlite)
      → ((m : ℕ) → Failed fault → P (err context, record s { calls = m }))
      → ((m : ℕ) → P (ok tt, record s { calls = m }))
      → P (engine fault context s)
  unfolding engine
  engine-end P context s fails goes = elim (Bool-cases (fault s.calls)) [
    | inl e ↦ rw e (fails (suc s.calls) (s.calls, e))
    | inr e ↦ rw e (goes (suc s.calls))
  ]

  pub open-step :
      {B : Type 0} (database : Database) (P : Result String B × Sqlite → Type 0) (k : Unit → Db B)
      (s : Sqlite)
      → ((e : String) (m : ℕ) → Failed fault → P (err e, record s { calls = m }))
      → ((m : ℕ) → P (k tt (record s { calls = m })))
      → P ((open_connection fault database >>= k) s)
  unfolding open_connection
  open-step database P k s fails goes =
      engine-step (λ r. P (continue k r)) _ _ s (fails _)
        λ m.
          engine-step (λ r. P (continue k r)) _ _ (record s { calls = m }) (fails _)
            λ n. engine-end (λ r. P (continue k r)) _ (record s { calls = n }) (fails _) goes

  -- One statement on a connection of its own.
  pub statement-step :
      {B : Type 0} (database : Database) (P : Result String B × Sqlite → Type 0) (context : String)
      (k : Unit → Db B) (s : Sqlite)
      → ((e : String) (m : ℕ) → Failed fault → P (err e, record s { calls = m }))
      → ((m : ℕ) → P (k tt (record s { calls = m })))
      → P ((open_connection fault database >>= λ _. engine fault context >>= k) s)
  statement-step database P context k s fails goes =
      open-step database P _ s fails
        λ m. engine-step P context k (record s { calls = m }) (fails context) goes

  finish :
      {A : Type 0} (t : Tables) (why : Type 0) (good : A → Tables → Type 0)
      (r : Result String A × Sqlite)
      → Inner fault why good r
      → Outcome fault t why good (
          rolled_back t (
            continue
              (λ result. engine fault "failed to commit SQLite transaction" >> pure result)
              r))
  finish t why good (err e, s) f = (refl, f)
  finish t why good (ok a, s) g =
      engine-step (λ r. Outcome fault t why good (rolled_back t r)) _ _ s (λ m f. (refl, inl f))
        (λ m. g)

  -- A transaction that returns an error has changed no table, wherever it failed.
  pub transaction-step :
      {A : Type 0} (database : Database) (why : Type 0) (good : A → Tables → Type 0)
      (operation : Db A) (s : Sqlite)
      → ((m : ℕ) → Inner fault why good (operation (record s { calls = m })))
      → Outcome fault s.tables why good (with_immediate_transaction fault database operation s)
  unfolding with_immediate_transaction
  transaction-step database why good operation s runs =
      open-step database (Outcome fault s.tables why good) _ s (λ e m f. (refl, inl f))
        λ m.
          engine-step (Outcome fault s.tables why good) _ _ (record s { calls = m })
            (λ n f. (refl, inl f))
            λ n. finish s.tables why good (operation (record s { calls = n })) (runs n)
