-- ===== src/Http/Threads/Guessing.antt =====
-- The reads of one requester in one minute on the server of src/http.rs: what the rate limit leaves them
-- is the measure that an answer on a secret is paid from.
use psst_rs.Prelude.{
  ℕ, ◌+◌, ◌-◌, ◌≤◌, String, ◌≡◌, refl, ap, ◌∙◌, inl, inr, Bool, true, false, ◌&&◌, ◌||◌, Option,
  none, some, ◌==◌, arith, bit, nat_eq, first, Bool-cases, if◌then◌else◌,
}
use psst_rs.Prelude.Int.{ℤ, pos, negsuc, ◌+ℤ◌, eq_ℤ, pos_part}
use psst_rs.Prelude.Exec.{Result, ok, err}
use psst_rs.Crypto.{Crypto}
use psst_rs.Config.{AppConfig}
use psst_rs.RateLimit.{
  RateLimitBucket, create_minute, create_hour, read_minute, key, bucket_for_timestamp,
}
use psst_rs.RateLimit.Keys.{same_kind}
use psst_rs.RequestContext.{ClientIp}
use psst_rs.Secret.{ReadSecretResponse, DeleteSecretResponse}
use psst_rs.Db.Tables.{SecretRow, Tables, NewSecretRecord}
use psst_rs.Db.Statements.{remaining, is_readable, is_owned}
use psst_rs.Db.Spec.{IsValid, counter, opens, read_found, read_step, delete_found, delete_step}
use psst_rs.Db.Counters.{same, counter-upsert_counter}
use psst_rs.Db.Writes.{Inserted}
use psst_rs.Maintenance.Stale.{is_old, stale, counter-stale}
use psst_rs.Http.Api.{ApiError, current_timestamp}
use psst_rs.Http.Handlers.{hash_of}
use psst_rs.Http.Threads.{Answer, was_read, was_deleted}
use psst_rs.Http.Threads.Tariff.{Tariff, removes, confirms, counted}

-- The error says something about the secret: that it is not there, or that the key is wrong.
abbrev pub tells : ApiError → Bool
tells e = nat_eq e.status 404 || (nat_eq e.status 400 && e.message == "invalid read key")

abbrev pub learns : Result ApiError ReadSecretResponse → Bool
learns (ok response) = true
learns (err e) = tells e

abbrev pub asks_as : String → Option String → Bool
asks_as hash none = false
asks_as hash (some other) = other == hash

abbrev pub asks_in : ℤ → Result ApiError ℤ → Bool
asks_in bucket (ok now) = eq_ℤ (bucket_for_timestamp read_minute now) bucket
asks_in bucket (err e) = false

-- A read by this requester in this minute.
abbrev pub is_theirs : Crypto → AppConfig → String → ℤ → Option ClientIp → Option ℕ → Bool
is_theirs crypto config hash bucket client_ip clock =
    asks_as hash (hash_of crypto config client_ip) && asks_in bucket (current_timestamp clock)

-- An answer from which this requester learns about a secret in this minute.
abbrev pub informs : Crypto → AppConfig → String → ℤ → Answer → Bool
informs crypto config hash bucket (was_read client_ip clock secret_id r) =
    is_theirs crypto config hash bucket client_ip clock && learns r
informs crypto config hash bucket _ = false

-- The maintenance does not delete the counter of this minute.
abbrev pub IsKeptAt : ℤ → ℤ → Type 0
IsKeptAt bucket now = is_old read_minute now bucket ≡ false

-- A step of the store leaves the counters alone.
pub read_step-rate_limits :
    (id digest : String) (now : ℤ) (t : Tables)
    → (read_step id digest now t).1.rate_limits ≡ t.rate_limits
unfolding read_step
read_step-rate_limits id digest now t = found (first (is_readable id now) t.secrets)
  where
    found : (o : Option SecretRow) → (read_found id digest t o).1.rate_limits ≡ t.rate_limits
    found none = refl
    found (some row) = elim (Bool-cases (opens row digest)) [
      | inl e ↦ rw e refl
      | inr e ↦ rw e refl
    ]

delete_step-rate_limits :
    (id hash : String) (t : Tables) → (delete_step id hash t).1.rate_limits ≡ t.rate_limits
unfolding delete_step
delete_step-rate_limits id hash t = found (first (is_owned id hash) t.secrets)
  where
    found : (o : Option SecretRow) → (delete_found id hash t o).1.rate_limits ≡ t.rate_limits
    found none = refl
    found (some row) = refl

one_more : (z : ℤ) → pos_part z ≤ pos_part (z +ℤ pos 1)
unfolding ◌+ℤ◌
one_more (pos n) = ground arith
one_more (negsuc n) = omega arith

module _ (crypto : Crypto) (config : AppConfig) (hash : String) (bucket : ℤ) where
  -- The reads that this requester has left in this minute.
  abbrev pub reads_left : Tables → ℕ
  reads_left t =
      config.read_rate_limit_per_minute
      - pos_part (counter (key read_minute hash) bucket t.rate_limits)

  pub same_counters :
      (t t' : Tables) → t'.rate_limits ≡ t.rate_limits → reads_left t' ≡ reads_left t
  same_counters t t' same =
      ap
        (λ rows.
          config.read_rate_limit_per_minute - pos_part (counter (key read_minute hash) bucket rows))
        same

  more_attempts :
      (z : ℤ) (b : Bool)
      → config.read_rate_limit_per_minute - pos_part (if b then z +ℤ pos 1 else z)
        ≤ config.read_rate_limit_per_minute - pos_part z
  more_attempts z true = omega (arith, one_more z)
  more_attempts z false = omega arith

  pub counted-reads_left :
      (kind : RateLimitBucket) (other : String) (now : ℤ) (t : Tables)
      → reads_left (counted kind other now t) ≤ reads_left t
  counted-reads_left kind other now t =
      rw
        (counter-upsert_counter (key kind other) (key read_minute hash)
          (bucket_for_timestamp kind now) bucket t.rate_limits)
        (more_attempts (counter (key read_minute hash) bucket t.rate_limits)
          (same (key kind other) (key read_minute hash) (bucket_for_timestamp kind now) bucket))

  pub swept-reads_left :
      (kind : RateLimitBucket) (now : ℤ) (t : Tables)
      → IsKeptAt bucket now
      → reads_left (record t { rate_limits = remaining (stale kind now) t.rate_limits })
        ≤ reads_left t
  swept-reads_left kind now t kept =
      rw (counter-stale kind now read_minute hash bucket t.rate_limits, untouched kind)
        (omega arith)
    where
      untouched : (k : RateLimitBucket) → (same_kind k read_minute && is_old k now bucket) ≡ false
      untouched create_minute = refl
      untouched create_hour = refl
      untouched read_minute = kept

  pub uninformed :
      (i : String) (r : Result ApiError DeleteSecretResponse)
      → informs crypto config hash bucket (was_deleted i r) ≡ confirms false r
  uninformed i (ok response) = refl
  uninformed i (err e) = refl

  pub untaken :
      (i digest : String) (q : Option ℕ) (t t' : Tables)
      → IsValid t
      → (q, t') ≡ delete_step i digest t
      → bit (removes false q) + reads_left t' ≤ reads_left t
  untaken i digest q t t' v h =
      rw
        (
          nothing q,
          same_counters t t' ((λ j. (h j).1.rate_limits) ∙ delete_step-rate_limits i digest t),
        )
        (omega arith)
    where
      nothing : (o : Option ℕ) → removes false o ≡ false
      nothing none = refl
      nothing (some size) = refl

  pub unstored :
      (secret : NewSecretRecord) (t t' : Tables)
      → Inserted secret t t'
      → reads_left t' ≤ 0 + reads_left t
  unstored secret t t' h = rw (same_counters t t' (λ j. (h.added j).rate_limits)) (omega arith)

  -- The reads that are left pay for the answers that inform this requester.
  abbrev pub guess_tariff : Tariff reads_left (IsKeptAt bucket)
  guess_tariff = record {
    gives = informs crypto config hash bucket;
    cost = λ i. 0;
    owns = λ i. false;
    stores = unstored;
    takes = untaken;
    expires = λ now t. omega arith;
    counts = counted-reads_left;
    sweeps = swept-reads_left;
    creations = λ r. refl;
    deletions = uninformed;
    turns = refl;
  }
