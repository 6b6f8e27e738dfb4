-- ===== src/Http/Program/Funding.antt =====
-- Interleaved programs of src/http.rs with a credit each: what they have given and what is left never
-- exceed what there was.
use psst_rs.Prelude.{
  ℕ, zero, suc, ◌+◌, ◌≤◌, Bool, false, List, [], ◌∷◌, arith, count, bit, Bool-cases, inl, inr,
}
use psst_rs.Db.Tables.{Tables}
use psst_rs.Http.Api.{World}
use psst_rs.Http.Ends.{tables}
use psst_rs.Http.Program.Costs.{Pays, Affords}
use psst_rs.Http.Program.{Program, finished, step, turn, advance, run_schedule}

module _ {A : Type 0} (gives : A → Bool) where
  -- A result that gives something has a credit of 1.
  abbrev pub IsPaid : ℕ → A → Type 0
  IsPaid n a = bit (gives a) ≤ n

  abbrev pub given : Program A → Bool
  given (finished a) = gives a
  given (step f next) = false

module _ (Inv : Tables → Type 0) (measure : Tables → ℕ) {A : Type 0} (gives : A → Bool) where
  -- The credits of the programs add up to at most `n`.
  abbrev pub Funded : ℕ → List (Program A) → Type 0
  Funded n [] = Unit
  Funded n (p ∷ ps) = (m k : ℕ) × (m + k ≤ n) × Affords Inv measure (IsPaid gives) m p × Funded k ps

  turn-Affords :
      (n : ℕ) (p : Program A) (w : World)
      → Inv (tables w)
      → Affords Inv measure (IsPaid gives) n p
      → (m : ℕ) × Pays Inv measure n (tables w) m (tables (turn p w).1)
        × Affords Inv measure (IsPaid gives) m (turn p w).0
  turn-Affords n (finished a) w v h = (n, (omega arith, v), h)
  turn-Affords n (step f next) w v h =
      let (m, pays, after) = h.at w v in (m, pays, record { at = after })

  advance-Funded :
      (i n : ℕ) (ps : List (Program A)) (w : World)
      → Inv (tables w)
      → Funded n ps
      → (m : ℕ) × Pays Inv measure n (tables w) m (tables (advance i ps w).1)
        × Funded m (advance i ps w).0
  unfolding advance
  advance-Funded i n [] w v h = (n, (omega arith, v), tt)
  advance-Funded zero n (p ∷ ps) w v (m, k, sum, here, there) =
      let (m', pays, after) = turn-Affords m p w v here in
      (m' + k, (omega (arith, pays.0), pays.1), (m', k, omega arith, after, there))
  advance-Funded (suc i) n (p ∷ ps) w v (m, k, sum, here, there) =
      let (k', pays, after) = advance-Funded i k ps w v there in
      (m + k', (omega (arith, pays.0), pays.1), (m, k', omega arith, here, after))

  spent_within :
      (n : ℕ) (p : Program A) → Affords Inv measure (IsPaid gives) n p → bit (given gives p) ≤ n
  spent_within n (finished a) h = h.at
  spent_within n (step f next) h = omega arith

  count-Funded : (n : ℕ) (ps : List (Program A)) → Funded n ps → count (given gives) ps ≤ n
  count-Funded n [] h = omega arith
  count-Funded n (p ∷ ps) (m, k, sum, here, there) =
      let rest = count-Funded k ps there in
      let own = spent_within m p here in
      elim (Bool-cases (given gives p)) [
        | inl e ↦ rw e (omega (arith, rest, (rw e at own)))
        | inr e ↦ rw e (omega (arith, rest))
      ]

  -- What has been given and what is left never exceed what there was, in any interleaving.
  pub run_schedule-Funded :
      (schedule : List ℕ) (n : ℕ) (ps : List (Program A)) (w : World)
      → Inv (tables w)
      → Funded n ps
      → (count (given gives) (run_schedule schedule ps w).0
            + measure (tables (run_schedule schedule ps w).1)
          ≤ n + measure (tables w))
        × Inv (tables (run_schedule schedule ps w).1)
  unfolding run_schedule
  run_schedule-Funded [] n ps w v h = (omega (arith, count-Funded n ps h), v)
  run_schedule-Funded (i ∷ schedule) n ps w v h =
      let (m, pays, after) = advance-Funded i n ps w v h in
      let (le, v') =
        run_schedule-Funded schedule m (advance i ps w).0 (advance i ps w).1 pays.1 after in
      (omega (arith, pays.0, le), v')
