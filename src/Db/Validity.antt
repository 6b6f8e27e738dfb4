-- ===== src/Db/Validity.antt =====
-- Every method of the store of src/db.rs keeps the tables valid, whichever calls of SQLite fail.
use psst_rs.Prelude.{
  ℕ, String, refl, sym, subst, inl, inr, Bool, not, Option, none, some, arith, first,
  Distinct-select, All-select, Bool-cases,
}
use psst_rs.Prelude.Int.{ℤ, pos, ◌≤ℤ◌}
use psst_rs.Prelude.Exec.{Result, ok, err}
use psst_rs.Db.Tables.{SecretRow, RateLimitRow, Tables, NewSecretRecord}
use psst_rs.Db.Statements.{has_id, is_readable, is_owned, upsert_counter}
use psst_rs.Db.Connection.{Sqlite}
use psst_rs.Db.Spec.{
  same_id, same_counter, IsStored, IsValid, without, opens, read_found, read_step, delete_found,
  delete_step, take_found, take_step,
}
use psst_rs.Db.Transactions.{Outcome}
use psst_rs.Db.Writes.{Inserted, PurgedCounters}
use psst_rs.Db.Counters.{Incremented, All-upsert_counter, Distinct-upsert_counter}

pub without-IsValid : (p : SecretRow → Bool) (t : Tables) → IsValid t → IsValid (without p t)
without-IsValid p t v = record {
  ids = Distinct-select same_id (λ row. not (p row)) t.secrets v.ids;
  stored = All-select IsStored (λ row. not (p row)) t.secrets v.stored;
  counters = v.counters;
  counted = v.counted;
}

pub Inserted-IsValid :
    (secret : NewSecretRecord) (t t' : Tables) → Inserted secret t t' → IsValid t → IsValid t'
Inserted-IsValid secret t t' h v = subst IsValid (sym h.added) (record {
  ids = (h.fresh, v.ids);
  stored = (record { unconsumed = refl; sized = omega arith }, v.stored);
  counters = v.counters;
  counted = v.counted;
})

pub upsert_counter-IsValid :
    (key : String) (bucket : ℤ) (t : Tables)
    → IsValid t
    → IsValid (record t { rate_limits = upsert_counter key bucket t.rate_limits })
upsert_counter-IsValid key bucket t v = record {
  ids = v.ids;
  stored = v.stored;
  counters = Distinct-upsert_counter key bucket t.rate_limits v.counters;
  counted = All-upsert_counter key bucket t.rate_limits v.counted;
}

pub Incremented-IsValid :
    (key : String) (bucket : ℤ) (t : Tables) (n : ℕ) (t' : Tables)
    → Incremented key bucket t n t'
    → IsValid t
    → IsValid t'
Incremented-IsValid key bucket t n t' h v =
    subst IsValid (sym h.tables) (upsert_counter-IsValid key bucket t v)

pub PurgedCounters-IsValid :
    (p : RateLimitRow → Bool) (t : Tables) (n : ℕ) (t' : Tables)
    → PurgedCounters p t n t'
    → IsValid t
    → IsValid t'
PurgedCounters-IsValid p t n t' h v = subst IsValid (sym h.1) (record {
  ids = v.ids;
  stored = v.stored;
  counters = Distinct-select same_counter (λ row. not (p row)) t.rate_limits v.counters;
  counted =
      All-select (λ (row : RateLimitRow). pos 1 ≤ℤ row.count) (λ row. not (p row)) t.rate_limits
        v.counted;
})

pub read_step-IsValid :
    (id digest : String) (now : ℤ) (t : Tables) → IsValid t → IsValid (read_step id digest now t).1
unfolding read_step
read_step-IsValid id digest now t v = found (first (is_readable id now) t.secrets)
  where
    found : (o : Option SecretRow) → IsValid (read_found id digest t o).1
    found none = v
    found (some row) = elim (Bool-cases (opens row digest)) [
      | inl e ↦ rw e (without-IsValid (has_id id) t v)
      | inr e ↦ rw e v
    ]

pub delete_step-IsValid :
    (id hash : String) (t : Tables) → IsValid t → IsValid (delete_step id hash t).1
unfolding delete_step
delete_step-IsValid id hash t v = found (first (is_owned id hash) t.secrets)
  where
    found : (o : Option SecretRow) → IsValid (delete_found id hash t o).1
    found none = v
    found (some row) = without-IsValid (is_owned id hash) t v

-- What holds of the tables before an operation and after each of its results holds after it.
pub Outcome-tables :
    {A : Type 0} (P : Tables → Type 0) (fault : ℕ → Bool) (t : Tables) (why : Type 0)
    (good : A → Tables → Type 0) (r : Result String A × Sqlite)
    → Outcome fault t why good r
    → ((a : A) (t' : Tables) → good a t' → P t')
    → P t
    → P r.1.tables
Outcome-tables P fault t why good (ok a, s) h keep p = keep a s.tables h
Outcome-tables P fault t why good (err e, s) (same, f) keep p = subst P (sym same) p

pub take_step-IsValid :
    (id : String) (now : ℤ) (t : Tables) → IsValid t → IsValid (take_step id now t).1
unfolding take_step
take_step-IsValid id now t v = found (first (is_readable id now) t.secrets)
  where
    found : (o : Option SecretRow) → IsValid (take_found id t o).1
    found none = v
    found (some row) = without-IsValid (has_id id) t v
