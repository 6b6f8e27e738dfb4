-- ===== src/Http/Program/Costs.antt =====
-- Programs of src/http.rs with a credit: each step pays for what it adds to a measure of the tables,
-- and a program that takes from the measure gains.
use psst_rs.Prelude.{ℕ, ◌+◌, ◌≤◌, ◌≡◌, refl, subst, sym, arith}
use psst_rs.Prelude.Exec.{Result, ok, err}
use psst_rs.Metrics.{AppMetrics}
use psst_rs.Db.Tables.{Tables}
use psst_rs.Db.Connection.{Sqlite, Db}
use psst_rs.Http.Api.{ApiError, World, Handler, meter}
use psst_rs.Http.Ends.{tables}
use psst_rs.Http.Program.{
  Program, finished, step, Task, atomically, call, metered, and_then, ◌>>=◌, on_ok, count_error,
  counting, pause,
}

module _ (Inv : Tables → Type 0) (measure : Tables → ℕ) where
  -- The tables may change from `t` to `t'` with credit `n` before and `m` after.
  abbrev pub Pays : ℕ → Tables → ℕ → Tables → Type 0
  Pays n t m t' = (m + measure t' ≤ n + measure t) × Inv t'

  -- The steps are paid from the credit `n`, and `Q` holds of what is left and of the result.
  abbrev pub Costs : {A : Type 0} → (ℕ → A → Type 0) → ℕ → Program A → Type 0
  Costs Q n (finished a) = Q n a
  Costs Q n (step f next) =
      (w : World)
      → Inv (tables w)
      → (m : ℕ) × Pays n (tables w) m (tables (f w)) × Costs Q m (next w)

  pub record Affords {A : Type 0} (Q : ℕ → A → Type 0) (n : ℕ) (p : Program A) : Type 0 where
    pub at : Costs Q n p

  -- The credit is left as it was.
  abbrev pub Keeps : {A : Type 0} → ℕ → Program A → Type 0
  Keeps {A} n p = Affords (λ m (a : A). m ≡ n) n p

  pub finished-Affords :
      {A : Type 0} (Q : ℕ → A → Type 0) (n : ℕ) (a : A) → Q n a → Affords Q n (finished a)
  finished-Affords Q n a q = record { at = q }

  pub finished-Keeps : {A : Type 0} {a : A} (n : ℕ) → Keeps n (finished a)
  finished-Keeps n = record { at = refl }

  Costs-and_then :
      {A B : Type 0} (Q : ℕ → A → Type 0) (R : ℕ → B → Type 0) (p : Program A) (k : A → Program B)
      (n : ℕ)
      → Costs Q n p
      → ((m : ℕ) (a : A) → Q m a → Costs R m (k a))
      → Costs R n (and_then p k)
  unfolding and_then
  Costs-and_then Q R (finished a) k n h rest = rest n a h
  Costs-and_then Q R (step f next) k n h rest =
      λ w v. let (m, pays, after) = h w v in (m, pays, Costs-and_then Q R (next w) k m after rest)

  pub and_then-Affords :
      {A B : Type 0} {p : Program A} {k : A → Program B} (Q : ℕ → A → Type 0) (R : ℕ → B → Type 0)
      (n : ℕ)
      → Affords Q n p
      → ((m : ℕ) (a : A) → Q m a → Affords R m (k a))
      → Affords R n (and_then p k)
  and_then-Affords {p} {k} Q R n h rest = record {
    at = Costs-and_then Q R p k n h.at (λ m a q. (rest m a q).at);
  }

  pub bind-Affords :
      {E A B : Type 0} {p : Program (Result E A)} {k : A → Program (Result E B)}
      (Q : ℕ → Result E A → Type 0) (R : ℕ → Result E B → Type 0) (n : ℕ)
      → Affords Q n p
      → ((m : ℕ) (e : E) → Q m (err e) → R m (err e))
      → ((m : ℕ) (a : A) → Q m (ok a) → Affords R m (k a))
      → Affords R n (p >>= k)
  bind-Affords {E} {A} {k} Q R n h fails rest = and_then-Affords Q R n h λ m r q. go m r q
    where
      go : (m : ℕ) (r : Result E A) → Q m r → Affords R m (on_ok k r)
      go m (ok a) q = rest m a q
      go m (err e) q = finished-Affords R m (err e) (fails m e q)

  -- After a part that keeps the credit.
  pub Keeps-Affords :
      {E A B : Type 0} {p : Program (Result E A)} {k : A → Program (Result E B)}
      (R : ℕ → Result E B → Type 0) (n : ℕ)
      → Keeps n p
      → ((e : E) → R n (err e))
      → ((a : A) → Affords R n (k a))
      → Affords R n (p >>= k)
  Keeps-Affords {k} R n h fails rest =
      bind-Affords _ R n h (λ m e q. subst (λ j. R j (err e)) (sym q) (fails e))
        (λ m a q. subst (λ j. Affords R j (k a)) (sym q) (rest a))

  pub bind-Keeps :
      {E A B : Type 0} {p : Program (Result E A)} {k : A → Program (Result E B)} (n : ℕ)
      → Keeps n p
      → ((a : A) → Keeps n (k a))
      → Keeps n (p >>= k)
  bind-Keeps n h rest = Keeps-Affords (λ m _. m ≡ n) n h (λ e. refl) rest

  -- The metrics cost nothing.
  pub metered-Keeps : (f : AppMetrics → AppMetrics) (n : ℕ) → Keeps n (metered f)
  metered-Keeps f n = record { at = λ w v. (n, (omega arith, v), refl) }

  pub counting-Affords :
      {A : Type 0} {p : Task A} (f : AppMetrics → AppMetrics) (Q : ℕ → Result ApiError A → Type 0)
      (n : ℕ)
      → Affords Q n p
      → Affords Q n (counting f p)
  unfolding and_then
  counting-Affords {A} f Q n h = and_then-Affords Q Q n h λ m r q. go m r q
    where
      go : (m : ℕ) (r : Result ApiError A) → Q m r → Affords Q m (count_error f r)
      go m (ok a) q = record { at = q }
      go m (err e) q = record { at = λ w v. (m, (omega arith, v), q) }

  -- One handler as a step.
  pub atomically-Affords :
      {A : Type 0} (m : Handler A) (Q : ℕ → Result ApiError A → Type 0) (n : ℕ)
      → ((w : World)
          → Inv (tables w)
          → (k : ℕ) × Pays n (tables w) k (tables (m w).1) × Q k (m w).0)
      → Affords Q n (atomically m)
  atomically-Affords m Q n h = record { at = h }

  pub meter-Keeps : (f : AppMetrics → AppMetrics) (n : ℕ) → Keeps n (atomically (meter f))
  meter-Keeps f n = record { at = λ w v. (n, (omega arith, v), refl) }

  pub pause-Keeps : (n : ℕ) → Keeps n pause
  pause-Keeps n = record { at = λ w v. (n, (omega arith, v), refl) }

  -- A call of the store whose effect adds nothing.
  abbrev pub IsQuiet : Tables → Tables → Type 0
  IsQuiet t t' = (measure t' ≤ measure t) × Inv t'

  pub atomically-Keeps :
      {A : Type 0} (m : Handler A) (n : ℕ)
      → ((w : World) → Inv (tables w) → IsQuiet (tables w) (tables (m w).1))
      → Keeps n (atomically m)
  atomically-Keeps m n h = record {
    at = λ w v. let (le, v') = h w v in (n, (omega arith, v'), refl);
  }

  pub call-Keeps :
      {A : Type 0} (m : Db A) (n : ℕ)
      → ((s : Sqlite) → Inv s.tables → IsQuiet s.tables (m s).1.tables)
      → Keeps n (call m)
  call-Keeps m n h = record {
    at = λ w v. let (le, v') = h w.sqlite v in (n, (omega arith, v'), refl);
  }
