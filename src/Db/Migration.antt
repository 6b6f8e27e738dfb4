-- ===== src/Db/Migration.antt =====
-- The schema that `initialize_schema` of src/db.rs leaves, for a new database and an old one.
mod Settled
mod Statements
mod Steps
pub use Settled.{has_column, upgraded, is_indexable}
use psst_rs.Prelude.{ℕ, String, ◌≡◌, ◌⊎◌, Bool, true, false, List}
use psst_rs.Prelude.Exec.{Result, ok, err, ◌>>◌, ◌>>=◌}
use psst_rs.Db.Schema.{Schema}
use psst_rs.Db.Connection.{Sqlite, Db}
use psst_rs.Db.Transactions.{Failed}

pub record Ready (s s' : Sqlite) : Type 0 where
  pub schema : s'.schema ≡ upgraded s.schema
  pub possible : is_indexable s.schema ≡ true
  pub tables : s'.tables ≡ s.tables
  pub settled : (upgraded s'.schema ≡ s'.schema) × (is_indexable s'.schema ≡ true)

pub record Stopped (fault : ℕ → Bool) (s s' : Sqlite) : Type 0 where
  pub resumable : upgraded s'.schema ≡ upgraded s.schema
  pub tables : s'.tables ≡ s.tables
  pub why : Failed fault ⊎ (is_indexable s.schema ≡ false)

abbrev pub Prepared : (ℕ → Bool) → Sqlite → Result String Unit × Sqlite → Type 0
Prepared fault s (ok _, s') = Ready s s'
Prepared fault s (err e, s') = Stopped fault s s'
