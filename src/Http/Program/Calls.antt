-- ===== src/Http/Program/Calls.antt =====
-- What a call of the store costs, from what the store promises.
use psst_rs.Prelude.{ℕ, String, ◌≡◌, subst, sym, Bool, arith}
use psst_rs.Prelude.Exec.{Result, ok, err}
use psst_rs.Db.Tables.{Tables}
use psst_rs.Db.Connection.{Sqlite, Db}
use psst_rs.Db.Transactions.{Outcome}
use psst_rs.Http.Api.{ApiError, World, Handler, store_call, stored}
use psst_rs.Http.Ends.{tables, Ends}
use psst_rs.Http.Program.{atomically, call}
use psst_rs.Http.Program.Costs.{
  Pays, Affords, Keeps, IsQuiet, atomically-Affords, atomically-Keeps, call-Keeps,
}

module _ (Inv : Tables → Type 0) (measure : Tables → ℕ) where
  -- The same tables cost nothing.
  pub same-IsQuiet : (t t' : Tables) → Inv t → t' ≡ t → IsQuiet Inv measure t t'
  same-IsQuiet t t' v same = subst (IsQuiet Inv measure t) (sym same) (omega arith, v)

  -- A handler of which the same is known whether it returns a value or an error.
  pub Ends-Keeps :
      {A : Type 0} {P : World → A → World → Type 0} {Q : World → ApiError → World → Type 0}
      (m : Handler A) (n : ℕ)
      → ((w : World) → Inv (tables w) → Ends (P w) (Q w) (m w))
      → ((w w' : World) (a : A)
          → Inv (tables w)
          → P w a w'
          → IsQuiet Inv measure (tables w) (tables w'))
      → ((w w' : World) (e : ApiError)
          → Inv (tables w)
          → Q w e w'
          → IsQuiet Inv measure (tables w) (tables w'))
      → Keeps Inv measure n (atomically m)
  Ends-Keeps {A} {P} {Q} m n h good bad =
      atomically-Keeps Inv measure m n (λ w v. go w v (m w) (h w v))
    where
      go :
          (w : World)
          → Inv (tables w)
          → (r : Result ApiError A × World) → Ends (P w) (Q w) r
          → IsQuiet Inv measure (tables w) (tables r.1)
      go w v (ok a, w') k = good w w' a v k.at
      go w v (err e, w') k = bad w w' e v k.at

  module _ {A : Type 0} (fault : ℕ → Bool) (why : Tables → Type 0)
      (good : Tables → A → Tables → Type 0) (m : Db A) (n : ℕ)
      (promise : (s : Sqlite)
        → Inv s.tables
        → Outcome fault s.tables (why s.tables) (good s.tables) (m s)) where
    pub store_call-Affords :
        (f : String → ApiError) (Q : ℕ → Result ApiError A → Type 0)
        → ((a : A) (t t' : Tables)
            → Inv t
            → good t a t'
            → (k : ℕ) × Pays Inv measure n t k t' × Q k (ok a))
        → ((e : String) → Q n (err (f e)))
        → Affords Inv measure Q n (atomically (store_call m f))
    store_call-Affords f Q pays fails =
        atomically-Affords Inv measure (store_call m f) Q n
          (λ w v. go w v (m w.sqlite) (promise w.sqlite v))
      where
        go :
            (w : World)
            → Inv (tables w)
            → (r : Result String A × Sqlite)
            → Outcome fault (tables w) (why (tables w)) (good (tables w)) r
            → (k : ℕ) × Pays Inv measure n (tables w) k (tables (stored w f r).1)
              × Q k (stored w f r).0
        go w v (ok a, s) h = pays a (tables w) s.tables v h
        go w v (err e, s) h =
            let (le, v') = same-IsQuiet (tables w) s.tables v h.0 in
            (n, (omega (arith, le), v'), fails e)

    quiet :
        ((a : A) (t t' : Tables) → Inv t → good t a t' → IsQuiet Inv measure t t')
        → (s : Sqlite) → Inv s.tables
        → IsQuiet Inv measure s.tables (m s).1.tables
    quiet keep s v = go (m s) (promise s v)
      where
        go :
            (r : Result String A × Sqlite)
            → Outcome fault s.tables (why s.tables) (good s.tables) r
            → IsQuiet Inv measure s.tables r.1.tables
        go (ok a, s') h = keep a s.tables s'.tables v h
        go (err e, s') h = same-IsQuiet s.tables s'.tables v h.0

    pub outcome-Keeps :
        ((a : A) (t t' : Tables) → Inv t → good t a t' → IsQuiet Inv measure t t')
        → Keeps Inv measure n (call m)
    outcome-Keeps keep = call-Keeps Inv measure m n (quiet keep)
