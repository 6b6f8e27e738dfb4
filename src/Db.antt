-- ===== src/Db.antt =====
-- src/db.rs: the database and the secret store.
pub mod Tables
pub mod Statements
pub mod Schema
pub mod Connection
pub mod Store
pub mod Transactions
pub mod Spec
pub mod Reads
pub mod Writes
pub mod Counters
pub mod Validity
pub mod Stats
pub mod Trace
pub mod Migration
