-- ===== src/Db/Reads.antt =====
-- The consuming reads of src/db.rs are the atomic read, whichever calls of SQLite fail.
use psst_rs.Prelude.{
  ℕ, suc, String, ◌≡◌, refl, ap, Bool, true, false, not, ◌&&◌, Option, none, some, List, [], ◌∷◌,
  ◌==◌, eq_iff, arith, first, count, any, Distinct, count-eq-zero, any-of_first, first-All,
  Bool-cases, inl, inr,
}
use psst_rs.Prelude.Int.{ℤ}
use psst_rs.Prelude.Text.{is_empty}
use psst_rs.Prelude.Exec.{Result, err, continue, ◌>>=◌}
use psst_rs.Db.Tables.{SecretRow, consumed}
use psst_rs.Db.Statements.{has_id, is_readable, remaining}
use psst_rs.Db.Connection.{Sqlite, Db, Database}
use psst_rs.Db.Store.{
  map_secret_row, with_secrets, delete_secrets, read_row, consume_found, consume_keyed,
  consume_unexpired_secret_by_id, consume_unexpired_secret_by_id_and_key_digest,
}
use psst_rs.Db.Spec.{
  same_id, IsStored, IsValid, record_of, without, opens, read_found, read_step, take_found,
  take_step,
}
use psst_rs.Db.Transactions.{Outcome, Inner, Failed, engine-step, transaction-step}

-- A primary key is held by one row at most.
pub count-has_id :
    (id : String) (rows : List SecretRow)
    → Distinct same_id rows
    → any (has_id id) rows ≡ true
    → count (has_id id) rows ≡ 1
count-has_id id [] d h = cc
count-has_id id (row ∷ rows) (d, ds) h = elim (Bool-cases (row.id == id)) [
  | inl e ↦
      let same : row.id ≡ id = (eq_iff row.id id).0 e in
      rw e (ap suc (count-eq-zero (has_id id) rows (rw same at d)))
  | inr e ↦ rw e (count-has_id id rows ds (rw e at h))
]

pub map_secret_row-eq : (row : SecretRow) → IsStored row → map_secret_row row ≡ some (record_of row)
unfolding map_secret_row
map_secret_row-eq row h = ground (arith, h.sized)

count-readable :
    (id : String) (now : ℤ) (s : Sqlite) (row : SecretRow)
    → IsValid s.tables
    → first (is_readable id now) s.tables.secrets ≡ some row
    → count (has_id id) s.tables.secrets ≡ 1
count-readable id now s row v e =
    count-has_id id s.tables.secrets v.ids
      (any-of_first (is_readable id now) (has_id id) (λ x h. ground arith) s.tables.secrets row e)

pub delete_secrets-step :
    (fault : ℕ → Bool) {B : Type 0} (P : Result String B × Sqlite → Type 0) (context : String)
    (p : SecretRow → Bool) (k : ℕ → Db B) (s : Sqlite)
    → ((m : ℕ) → Failed fault → P (err context, record s { calls = m }))
    → ((m : ℕ)
        → P (
            k
              (count p s.tables.secrets)
              (with_secrets (remaining p s.tables.secrets) (record s { calls = m }))))
    → P ((delete_secrets fault context p >>= k) s)
delete_secrets-step fault P context p k s fails goes =
    engine-step fault (λ r. P (continue k r)) context _ s fails goes

module _ (fault : ℕ → Bool) (database : Database) (id digest : String) (now : ℤ) where
  consume_row :
      (s : Sqlite) (row : SecretRow)
      → count (has_id id) s.tables.secrets ≡ 1
      → Inner fault ⊥
          (λ r t'. (r, t') ≡ read_found id digest s.tables (some row))
          (consume_keyed fault database id digest (some (record_of row)) s)
  unfolding consume_keyed
  consume_row s row one = elim (Bool-cases (opens row digest)) [
    | inl e ↦
        let open_test : (not (is_empty row.key_digest) && not (row.key_digest == digest)) ≡ false =
          ground arith in
        rw (open_test, e)
          (delete_secrets-step fault
            (Inner fault ⊥
              (λ r t'. (r, t') ≡ (consumed (record_of row), without (has_id id) s.tables)))
            _ _ _ s (λ m f. inl f) (λ m. rw one refl))
    | inr e ↦
        let shut_test : (not (is_empty row.key_digest) && not (row.key_digest == digest)) ≡ true =
          ground arith in
        rw (shut_test, e) refl
  ]

  consume_first :
      (s : Sqlite) (found : Option SecretRow)
      → IsValid s.tables
      → first (is_readable id now) s.tables.secrets ≡ found
      → Inner fault ⊥
          (λ r t'. (r, t') ≡ read_found id digest s.tables found)
          ((read_row "failed to load secret for keyed consumption" map_secret_row found
              >>= consume_keyed fault database id digest)
            s)
  unfolding consume_keyed
  consume_first s none v e = refl
  consume_first s (some row) v e =
      let stored : IsStored row = first-All IsStored _ s.tables.secrets row v.stored e in
      rw (map_secret_row-eq row stored) (consume_row s row (count-readable id now s row v e))

  -- On valid tables, a keyed read is one atomic step: whichever calls of SQLite fail, either it is
  -- `read_step`, or it returns an error, some call has failed, and no table has changed.
  pub consume-Outcome :
      (s : Sqlite)
      → IsValid s.tables
      → Outcome fault s.tables ⊥
          (λ r t'. (r, t') ≡ read_step id digest now s.tables)
          (consume_unexpired_secret_by_id_and_key_digest fault database id digest now s)
  unfolding consume_unexpired_secret_by_id_and_key_digest read_step
  consume-Outcome s v = transaction-step fault database ⊥ _ _ s (λ m.
      engine-step fault
        (λ r.
          Inner fault ⊥ (λ r t'. (r, t') ≡ read_step id digest now s.tables)
            (continue (consume_keyed fault database id digest) r))
        _ _ (record s { calls = m }) (λ n f. inl f)
        (λ n.
          consume_first (record s { calls = n }) (first (is_readable id now) s.tables.secrets) v
            refl))

module _ (fault : ℕ → Bool) (database : Database) (id : String) (now : ℤ) where
  take_first :
      (s : Sqlite) (found : Option SecretRow)
      → IsValid s.tables
      → first (is_readable id now) s.tables.secrets ≡ found
      → Inner fault ⊥
          (λ r t'. (r, t') ≡ take_found id s.tables found)
          ((read_row "failed to load secret for consumption" map_secret_row found
              >>= consume_found fault database id)
            s)
  unfolding consume_found
  take_first s none v e = refl
  take_first s (some row) v e =
      let one = count-readable id now s row v e in
      rw (map_secret_row-eq row (first-All IsStored _ s.tables.secrets row v.stored e)) (
        delete_secrets-step fault
          (Inner fault ⊥ (λ r t'. (r, t') ≡ take_found id s.tables (some row))) _ _ _ s
          (λ m f. inl f) (λ m. rw one refl))

  -- A read with no key is one atomic step too.
  pub take-Outcome :
      (s : Sqlite)
      → IsValid s.tables
      → Outcome fault s.tables ⊥
          (λ r t'. (r, t') ≡ take_step id now s.tables)
          (consume_unexpired_secret_by_id fault database id now s)
  unfolding consume_unexpired_secret_by_id take_step
  take-Outcome s v = transaction-step fault database ⊥ _ _ s (λ m.
      engine-step fault
        (λ r.
          Inner fault ⊥ (λ r t'. (r, t') ≡ take_step id now s.tables)
            (continue (consume_found fault database id) r))
        _ _ (record s { calls = m }) (λ n f. inl f)
        (λ n.
          take_first (record s { calls = n }) (first (is_readable id now) s.tables.secrets) v refl))
