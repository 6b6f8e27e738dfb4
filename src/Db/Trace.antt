-- ===== src/Db/Trace.antt =====
-- Calls of the store of src/db.rs by any number of threads. Each method is one transaction or one
-- statement, which SQLite serialises, so an interleaving of the threads is a list of calls.
pub mod Effects
pub mod Once
use psst_rs.Prelude.{
  ℕ, String, Bool, true, false, Option, none, some, List, [], ◌∷◌, ◌==◌, ◌&&◌, any, count, All,
  if◌then◌else◌,
}
use psst_rs.Prelude.Int.{ℤ}
use psst_rs.Prelude.Exec.{Result, ok, err, pure, ◌>>=◌, ◌>>◌}
use psst_rs.Db.Tables.{
  SecretRecord, NewSecretRecord, ActiveSecretStats, ConsumeSecretResult, consumed,
}
use psst_rs.Db.Connection.{Sqlite, Db, Database}
use psst_rs.Db.Store

pub data Call : Type 0 where
  insert : NewSecretRecord → Call
  get : String → Call
  read : (id digest : String) (now : ℤ) → Call
  take : (id : String) (now : ℤ) → Call
  delete : (id hash : String) → Call
  purge : (now : ℤ) → Call
  stats : (now : ℤ) → Call
  hit : (key : String) (bucket : ℤ) → Call
  peek : (key : String) (bucket : ℤ) → Call
  sweep : (prefix : String) (cutoff : ℤ) → Call

pub data Reply : Type 0 where
  done : Reply
  found taken : Option SecretRecord → Reply
  outcome : ConsumeSecretResult → Reply
  deleted : Option ℕ → Reply
  number : ℕ → Reply
  figures : ActiveSecretStats → Reply

module _ (fault : ℕ → Bool) (database : Database) where
  pub perform : Call → Db Reply
  perform (insert secret) = do Store.insert_secret fault database secret; pure done
  perform (get id) = do r ← Store.get_secret_by_id fault database id; pure (found r)
  perform (read id digest now) = do
    r ← Store.consume_unexpired_secret_by_id_and_key_digest fault database id digest now
    pure (outcome r)
  perform (take id now) = do
    r ← Store.consume_unexpired_secret_by_id fault database id now
    pure (taken r)
  perform (delete id hash) = do
    r ← Store.delete_secret_by_id_and_token_hash fault database id hash
    pure (deleted r)
  perform (purge now) = do n ← Store.delete_expired_secrets fault database now; pure (number n)
  perform (stats now) = do r ← Store.active_secret_stats fault database now; pure (figures r)
  perform (hit key bucket) = do
    n ← Store.increment_rate_limit_counter fault database key bucket
    pure (number n)
  perform (peek key bucket) = do
    n ← Store.rate_limit_count fault database key bucket
    pure (number n)
  perform (sweep prefix cutoff) = do
    n ← Store.delete_rate_limit_buckets_before fault database prefix cutoff
    pure (number n)

  -- Every call gets its reply, or its error.
  pub run : List Call → Sqlite → List (Call × Result String Reply) × Sqlite
  run [] s = ([], s)
  run (call ∷ calls) s =
      let (reply, s') = perform call s in
      let (replies, end) = run calls s' in ((call, reply) ∷ replies, end)

-- The reply gives the secret away, or confirms that its owner deleted it.
abbrev pub ends : String → Call × Result String Reply → Bool
ends id (read i _ _, ok (outcome (consumed _))) = i == id
ends id (take i _, ok (taken (some _))) = i == id
ends id (delete i _, ok (deleted (some _))) = i == id
ends id _ = false

-- The call may bring the id back.
abbrev pub inserts : String → Call → Bool
inserts id (insert secret) = secret.id == id
inserts id _ = false
