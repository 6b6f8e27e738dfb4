-- ===== src/Http/Threads/Attempts.antt =====
-- One attempt to read on the server of src/http.rs: it uses up one of the reads that are left, or its
-- refusal says nothing.
use Prim.Native.String.{◌++◌}
use psst_rs.Prelude.{
  suc, ℕ, ◌+◌, ◌-◌, ◌≤◌, String, ◌≡◌, refl, ap, sym, ◌∙◌, subst, inl, inr, Bool, true, false, ◌&&◌,
  some, ◌==◌, eq_iff, arith, bit, ltb, Bool-cases, Option-cases,
}
use psst_rs.Prelude.Int.{ℤ, pos, negsuc, ◌+ℤ◌, ◌≤ℤ◌, eq_ℤ, eq_ℤ_iff, int_laws, pos_part}
use psst_rs.Prelude.Exec.{Result, ok, err, continue, raise_if}
use psst_rs.Prelude.Fallible.{◌>>=◌}
use psst_rs.Crypto.{Crypto}
use psst_rs.Config.{AppConfig}
use psst_rs.RateLimit.{read_minute, key, bucket_for_timestamp}
use psst_rs.RequestContext.{HeaderMap}
use psst_rs.Secret.{is_valid_read_key_digest}
use psst_rs.Db.Tables.{Tables}
use psst_rs.Db.Connection.{Sqlite, Database}
use psst_rs.Db.Spec.{IsValid, counter}
use psst_rs.Db.Store.{increment_rate_limit_counter}
use psst_rs.Db.Transactions.{Outcome}
use psst_rs.Db.Counters.{
  and_eq_true, Incremented, increment-Outcome, counter_nonneg, counter-upsert_self,
}
use psst_rs.Db.Validity.{Incremented-IsValid}
use psst_rs.Http.Api.{ApiError, World, stored, too_many_requests, internal, bad_request}
use psst_rs.Http.Ends.{tables}
use psst_rs.Http.Validate.{extract_read_key_digest}
use psst_rs.Http.Limits.{count_attempt, check_read_rate_limit}
use psst_rs.Http.Program.{atomically}
use psst_rs.Http.Program.Costs.{Pays, Affords, atomically-Affords}
use psst_rs.Http.Program.Calls.{same-IsQuiet}
use psst_rs.Http.Threads.Guessing.{tells, reads_left, counted-reads_left}

-- A refused header says nothing about a secret.
abbrev pub SaysNothing : Result ApiError String → Type 0
SaysNothing (ok digest) = Unit
SaysNothing (err e) = tells e ≡ false

pub header-SaysNothing :
    (crypto : Crypto) (headers : HeaderMap) → SaysNothing (extract_read_key_digest crypto headers)
unfolding extract_read_key_digest bad_request ◌>>=◌
header-SaysNothing crypto headers = elim (Option-cases (headers "x-psst-key-digest")) [
  | inl missing ↦ rw missing refl
  | inr (raw_value, e) ↦ elim (Option-cases raw_value.to_str) [
    | inl foreign ↦ rw (e, foreign) refl
    | inr (digest, f) ↦ elim (Bool-cases (is_valid_read_key_digest crypto digest)) [
      | inl good ↦ rw (e, f, good) tt
      | inr bad ↦ rw (e, f, bad) refl
    ]
  ]
]

-- One attempt fewer is left.
one_fewer :
    (z z' : ℤ) (n limit : ℕ)
    → pos n ≡ z +ℤ pos 1
    → z' ≡ z +ℤ pos 1
    → pos 0 ≤ℤ z
    → n ≤ limit
    → 1 + (limit - pos_part z') ≤ limit - pos_part z
one_fewer (pos m) z' n limit h k nonneg within =
    let same : pos_part z' ≡ pos_part (pos n) = ap pos_part (k ∙ sym h) in
    omega (int_laws, arith, same, ap pos_part h)
one_fewer (negsuc m) z' n limit h k nonneg within = absurd (omega arith)

module _ (crypto : Crypto) (fault : ℕ → Bool) (database : Database) (config : AppConfig)
    (hash : String) (bucket : ℤ) where
  abbrev pub left : Tables → ℕ
  left = reads_left crypto config hash bucket

  -- An attempt within the limit uses one up.
  attempt_pays :
      (n : ℕ) (t t' : Tables)
      → IsValid t
      → Incremented (key read_minute hash) bucket t n t'
      → n ≤ config.read_rate_limit_per_minute
      → 1 + left t' ≤ left t
  attempt_pays n t t' v h within =
      one_fewer (counter (key read_minute hash) bucket t.rate_limits) _ n _ h.value after
        (counter_nonneg (key read_minute hash) bucket t.rate_limits v.counted) within
    where
      after :
          counter (key read_minute hash) bucket t'.rate_limits
          ≡ counter (key read_minute hash) bucket t.rate_limits +ℤ pos 1
      after =
          ap (λ (u : Tables). counter (key read_minute hash) bucket u.rate_limits) h.tables
          ∙ counter-upsert_self (key read_minute hash) bucket t.rate_limits

  -- What an attempt leaves, if it passes and if it does not.
  abbrev pub Passed : Bool → ℕ → Result ApiError Unit → Type 0
  Passed theirs n (ok a) = bit theirs ≤ n
  Passed theirs n (err e) = tells e ≡ false

  pub attempt-Affords :
      (other : String) (now : ℤ) (n : ℕ)
      → Affords IsValid left
          (Passed (other == hash && eq_ℤ (bucket_for_timestamp read_minute now) bucket))
          n
          (atomically (check_read_rate_limit fault database config (some other) now))
  unfolding check_read_rate_limit count_attempt internal too_many_requests
  attempt-Affords other now n = atomically-Affords IsValid left _ _ n (λ w v.
      go w v (increment_rate_limit_counter fault database (key read_minute other) minute w.sqlite)
        (increment-Outcome fault database (key read_minute other) minute w.sqlite v))
    where
      minute : ℤ
      minute = bucket_for_timestamp read_minute now

      theirs : Bool
      theirs = other == hash && eq_ℤ minute bucket

      judge : World → Result String ℕ × Sqlite → Result ApiError Unit × World
      judge w r =
          continue
            (λ count. raise_if (ltb config.read_rate_limit_per_minute count) too_many_requests)
            (stored w (λ error. internal ("failed to update read rate limit: " ++ error)) r)

      fewer :
          (t t' : Tables) (k : ℕ)
          → Incremented (key read_minute other) minute t k t'
          → left t' ≤ left t
      fewer t t' k h =
          subst (λ u. left u ≤ left t) (sym h.tables)
            (counted-reads_left crypto config hash bucket read_minute other now t)

      one_used :
          (t t' : Tables) (k : ℕ)
          → theirs ≡ true
          → IsValid t
          → Incremented (key read_minute other) minute t k t'
          → k ≤ config.read_rate_limit_per_minute
          → 1 + left t' ≤ left t
      one_used t t' k e v h within =
          let (same_hash, same_minute) = and_eq_true _ _ e in
          attempt_pays k t t' v
            (subst (λ j. Incremented (key read_minute hash) j t k t')
              ((eq_ℤ_iff minute bucket).0 same_minute)
              (subst (λ j. Incremented (key read_minute j) minute t k t')
                ((eq_iff other hash).0 same_hash) h))
            within

      go :
          (w : World)
          → IsValid (tables w)
          → (r : Result String ℕ × Sqlite)
          → Outcome fault (tables w) ⊥ (Incremented (key read_minute other) minute (tables w)) r
          → (k : ℕ) × Pays IsValid left n (tables w) k (tables (judge w r).1)
            × Passed theirs k (judge w r).0
      go w v (err e, s) h =
          let (le, v') = same-IsQuiet IsValid left (tables w) s.tables v h.0 in
          (n, (omega (arith, le), v'), refl)
      go w v (ok k, s) h =
          let v' = Incremented-IsValid (key read_minute other) minute (tables w) k s.tables h v in
          let le = fewer (tables w) s.tables k h in
          elim (Bool-cases (ltb config.read_rate_limit_per_minute k)) [
            | inl over ↦ rw over (n, (omega (arith, le), v'), refl)
            | inr within ↦ rw within (elim (Bool-cases theirs) [
              | inl e ↦
                  let used = one_used (tables w) s.tables k e v h (ground arith) in
                  (suc n, (omega (arith, used), v'), rw e (omega arith))
              | inr e ↦ (n, (omega (arith, le), v'), rw e (omega arith))
            ])
          ]
