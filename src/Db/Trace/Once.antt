-- ===== src/Db/Trace/Once.antt =====
-- A secret leaves the store of src/db.rs at most once, whatever the threads do.
use psst_rs.Prelude.{
  ℕ, ◌+◌, ◌≤◌, String, ◌≡◌, refl, subst, sym, ◌∙◌, inl, inr, Bool, true, false, not, Option, none,
  some, List, [], ◌∷◌, ◌==◌, eq_iff, arith, any, count, first, All, Distinct, any-select,
  any-select-not, any_imp, first-none, any-of_first, Bool-cases, bit,
}
use psst_rs.Prelude.Int.{ℤ}
use psst_rs.Prelude.Exec.{Result, ok, err}
use psst_rs.Db.Tables.{SecretRow, Tables}
use psst_rs.Db.Statements.{has_id, is_readable, is_owned, is_expired, remaining}
use psst_rs.Db.Connection.{Sqlite, Database}
use psst_rs.Db.Spec.{
  same_id, IsValid, read_step, read_found, delete_step, delete_found, take_step, take_found,
  without, opens,
}
use psst_rs.Db.Transactions.{Outcome}
use psst_rs.Db.Trace.{
  Call, insert, get, read, take, delete, purge, stats, hit, peek, sweep, Reply, outcome, taken,
  deleted, perform, run, ends, inserts,
}
use psst_rs.Db.Trace.Effects.{Effect, perform-Outcome, perform-IsValid}

abbrev pub present : String → Tables → Bool
present id t = any (has_id id) t.secrets

some_ne_none : (row : SecretRow) → ¬ (some row ≡ none)
some_ne_none row e = cc

module _ (id : String) where
  -- Rows may go, and none comes.
  pub kept :
      (p : SecretRow → Bool) (t : Tables) → bit (present id (without p t)) ≤ bit (present id t)
  kept p t = elim (Bool-cases (present id t)) [
    | inl e ↦ rw e (ground arith)
    | inr e ↦ rw (e, any-select (has_id id) (λ row. not (p row)) t.secrets e) (omega arith)
  ]

  -- A row with the id of a secret that was given away is gone.
  gone :
      (i : String) (p : SecretRow → Bool) (t : Tables) (row : SecretRow)
      → ((x : SecretRow) → p x ≡ true → has_id i x ≡ true)
      → first p t.secrets ≡ some row
      → bit (i == id) + bit (present id (without (has_id i) t)) ≤ bit (present id t)
  gone i p t row imp e = elim (Bool-cases (i == id)) [
    | inr f ↦ rw f (omega (arith, kept (has_id i) t))
    | inl f ↦
        let same : i ≡ id = (eq_iff i id).0 f in
        let was : present id t ≡ true =
          subst (λ j. present j t ≡ true) same (any-of_first p (has_id i) imp t.secrets row e) in
        let is : present id (without (has_id i) t) ≡ false =
          subst (λ j. present j (without (has_id i) t) ≡ false) same
            (any-select-not (has_id i) t.secrets) in
        rw (f, was, is) (omega arith)
  ]

  -- An owner's deletion removes the one row of its id.
  owned_gone :
      (i hash : String) (rows : List SecretRow) (row : SecretRow)
      → Distinct same_id rows
      → first (is_owned i hash) rows ≡ some row
      → any (has_id i) (remaining (is_owned i hash) rows) ≡ false
  owned_gone i hash [] row d e = refl
  owned_gone i hash (x ∷ xs) row (d, ds) e = elim (Bool-cases (is_owned i hash x)) [
    | inl own ↦
        let same : x.id ≡ i = (eq_iff x.id i).0 (ground arith) in
        rw own (
          any-select (has_id i) (λ r. not (is_owned i hash r)) xs
            (subst (λ j. any (has_id j) xs ≡ false) same d))
    | inr alien ↦ elim (Bool-cases (x.id == i)) [
      | inr f ↦ rw (alien, f) (owned_gone i hash xs row ds (rw alien at e))
      | inl f ↦
          let same : x.id ≡ i = (eq_iff x.id i).0 f in
          let none_left : any (has_id i) xs ≡ false =
            subst (λ j. any (has_id j) xs ≡ false) same d in
          let none_owned : first (is_owned i hash) xs ≡ none =
            first-none (is_owned i hash) xs
              (any_imp (is_owned i hash) (has_id i) (λ r h. ground arith) xs none_left) in
          let later : first (is_owned i hash) xs ≡ some row = rw alien at e in
          absurd (some_ne_none row (sym later ∙ none_owned))
    ]
  ]

  -- The reply may give the secret away only if it was there and is no longer.
  abbrev pub Spends : {A : Type 0} → Call → (A → Reply) → Tables → A × Tables → Type 0
  Spends call f t (q, t') =
      bit (ends id (call, ok (f q))) + bit (present id t') ≤ bit (present id t)

  pub read-Spends :
      (i digest : String) (now : ℤ) (t : Tables) (o : Option SecretRow)
      → first (is_readable i now) t.secrets ≡ o
      → Spends (read i digest now) outcome t (read_found i digest t o)
  read-Spends i digest now t none e = omega arith
  read-Spends i digest now t (some row) e = elim (Bool-cases (opens row digest)) [
    | inl f ↦ rw f (gone i (is_readable i now) t row (λ x h. ground arith) e)
    | inr f ↦ rw f (omega arith)
  ]

  take-Spends :
      (i : String) (now : ℤ) (t : Tables) (o : Option SecretRow)
      → first (is_readable i now) t.secrets ≡ o
      → Spends (take i now) taken t (take_found i t o)
  take-Spends i now t none e = omega arith
  take-Spends i now t (some row) e = gone i (is_readable i now) t row (λ x h. ground arith) e

  pub delete-Spends :
      (i hash : String) (t : Tables) (o : Option SecretRow)
      → IsValid t
      → first (is_owned i hash) t.secrets ≡ o
      → Spends (delete i hash) deleted t (delete_found i hash t o)
  delete-Spends i hash t none v e = omega arith
  delete-Spends i hash t (some row) v e = elim (Bool-cases (i == id)) [
    | inr f ↦ rw f (omega (arith, kept (is_owned i hash) t))
    | inl f ↦
        let same : i ≡ id = (eq_iff i id).0 f in
        let was : present id t ≡ true =
          subst (λ j. present j t ≡ true) same
            (any-of_first (is_owned i hash) (has_id i) (λ x h. ground arith) t.secrets row e) in
        let left : present id (without (is_owned i hash) t) ≡ false =
          subst (λ j. present j (without (is_owned i hash) t) ≡ false) same
            (owned_gone i hash t.secrets row v.ids e) in
        rw (f, was, left) (omega arith)
  ]

  Effect-Spends :
      (call : Call) (t : Tables) (r : Reply) (t' : Tables)
      → IsValid t
      → inserts id call ≡ false
      → Effect call t r t'
      → Spends call (λ (q : Reply). q) t (r, t')
  unfolding read_step take_step delete_step
  Effect-Spends (insert secret) t r t' v other (e, h) = rw (h.added, other) (omega arith)
  Effect-Spends (get i) t r t' v other h = rw h (omega arith)
  Effect-Spends (stats now) t r t' v other h = rw h (omega arith)
  Effect-Spends (peek key bucket) t r t' v other h = rw h (omega arith)
  Effect-Spends (read i digest now) t r t' v other (q, e, h) =
      rw e
        (subst (Spends (read i digest now) outcome t) (sym h) (read-Spends i digest now t _ refl))
  Effect-Spends (take i now) t r t' v other (q, e, h) =
      rw e (subst (Spends (take i now) taken t) (sym h) (take-Spends i now t _ refl))
  Effect-Spends (delete i hash) t r t' v other (q, e, h) =
      rw e (subst (Spends (delete i hash) deleted t) (sym h) (delete-Spends i hash t _ v refl))
  Effect-Spends (purge now) t r t' v other h = rw h (omega (arith, kept (is_expired now) t))
  Effect-Spends (hit key bucket) t r t' v other (n, h) = rw h.tables (omega arith)
  Effect-Spends (sweep prefix cutoff) t r t' v other (n, h) = rw h.1 (omega arith)

  ends_err : (call : Call) (e : String) → ends id (call, err e) ≡ false
  ends_err (read i digest now) e = refl
  ends_err _ e = refl

  call_spends :
      (fault : ℕ → Bool) (call : Call) (t : Tables) (r : Result String Reply × Sqlite)
      → IsValid t
      → inserts id call ≡ false
      → Outcome fault t Unit (Effect call t) r
      → bit (ends id (call, r.0)) + bit (present id r.1.tables) ≤ bit (present id t)
  call_spends fault call t (ok r, s) v other h = Effect-Spends call t r s.tables v other h
  call_spends fault call t (err e, s) v other (same, _) = rw (ends_err call e, same) (omega arith)

  spends :
      (fault : ℕ → Bool) (database : Database) (calls : List Call) (s : Sqlite)
      → IsValid s.tables
      → All (λ call. inserts id call ≡ false) calls
      → count (ends id) (run fault database calls s).0
          + bit (present id (run fault database calls s).1.tables)
        ≤ bit (present id s.tables)
  unfolding run
  spends fault database [] s v none_inserts = omega arith
  spends fault database (call ∷ calls) s v (other, others) =
      let (reply, s') = perform fault database call s in
      let once =
        call_spends fault call s.tables (perform fault database call s) v other
          (perform-Outcome fault database call s v) in
      let rest = spends fault database calls s' (perform-IsValid fault database call s v) others in
      elim (Bool-cases (ends id (call, reply))) [
        | inl e ↦ rw e (omega (arith, rest, (rw e at once)))
        | inr e ↦ rw e (omega (arith, rest, (rw e at once)))
      ]

-- From valid tables, however the threads' calls interleave and whichever calls of SQLite fail, a
-- secret is given away or deleted by its owner at most once, as long as no insertion brings its id
-- back.
pub run-at_most_once :
    (id : String) (fault : ℕ → Bool) (database : Database) (calls : List Call) (s : Sqlite)
    → IsValid s.tables
    → All (λ call. inserts id call ≡ false) calls
    → count (ends id) (run fault database calls s).0 ≤ 1
run-at_most_once id fault database calls s v others =
    ground (arith, spends id fault database calls s v others)

-- From valid tables, however the threads' calls interleave and whichever calls of SQLite fail, a
-- secret that is not in the store is never given away nor deleted by its owner, and does not come
-- back, as long as no insertion brings its id.
pub run-absent :
    (id : String) (fault : ℕ → Bool) (database : Database) (calls : List Call) (s : Sqlite)
    → IsValid s.tables
    → All (λ call. inserts id call ≡ false) calls
    → present id s.tables ≡ false
    → (count (ends id) (run fault database calls s).0 ≡ 0)
      × (present id (run fault database calls s).1.tables ≡ false)
run-absent id fault database calls s v others absent =
    ground (arith, spends id fault database calls s v others)
