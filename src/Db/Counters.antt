-- ===== src/Db/Counters.antt =====
-- The rate-limit counters of src/db.rs: an increment adds one to its own counter and to no other.
use psst_rs.Prelude.{
  ℕ, String, ◌≡◌, refl, inl, inr, Bool, true, false, ◌&&◌, Option, none, some, List, [], ◌∷◌, ◌==◌,
  eq_iff, eq_refl, arith, first, any, All, first-All, ◌∙◌, ap, Distinct, Bool-cases, if◌then◌else◌,
}
use psst_rs.Prelude.Int.{
  ℤ, pos, negsuc, ◌+ℤ◌, ◌≤ℤ◌, eq_ℤ, eq_ℤ_iff, int_laws, u64_try_from, pos_part, neg_part, pos_part,
  neg_part,
}
use psst_rs.Prelude.Exec.{ok_or}
use psst_rs.Db.Tables.{RateLimitRow, Tables}
use psst_rs.Db.Statements.{is_counter, upsert_counter}
use psst_rs.Db.Connection.{Sqlite, Database}
use psst_rs.Db.Store.{with_rate_limits, increment_rate_limit_counter, read_counter}
use psst_rs.Db.Spec.{same_counter, IsValid, count_in, counter}
use psst_rs.Db.Transactions.{Outcome, Inner, engine-step, transaction-step}

-- `key = ?1 AND bucket = ?2`, for two counters.
abbrev pub same : String → String → ℤ → ℤ → Bool
same key other bucket b = key == other && eq_ℤ bucket b

pub and_eq_true : (a b : Bool) → (a && b) ≡ true → (a ≡ true) × (b ≡ true)
and_eq_true a b h = ground arith

is_counter-same :
    (key other : String) (bucket b : ℤ) (row : RateLimitRow)
    → is_counter key bucket row ≡ true
    → is_counter other b row ≡ same key other bucket b
is_counter-same key other bucket b row h =
    let (k, n) = and_eq_true _ _ h in
    let k' : row.key ≡ key = (eq_iff row.key key).0 k in
    let n' : row.bucket ≡ bucket = (eq_ℤ_iff row.bucket bucket).0 n in
    λ i. same (k' i) other (n' i) b

not_same :
    (key other : String) (bucket b : ℤ) (row : RateLimitRow)
    → is_counter key bucket row ≡ false
    → is_counter other b row ≡ true
    → same key other bucket b ≡ false
not_same key other bucket b row h g = elim (Bool-cases (same key other bucket b)) [
  | inr e ↦ e
  | inl e ↦
      let (k, n) = and_eq_true _ _ e in
      let k' : key ≡ other = (eq_iff key other).0 k in
      let n' : bucket ≡ b = (eq_ℤ_iff bucket b).0 n in
      let swapped : is_counter key bucket row ≡ is_counter other b row =
        λ i. is_counter (k' i) (n' i) row in
      cc (h, g, swapped)
]

-- After an upsert its own counter is one higher, and every other is as it was.
pub counter-upsert_counter :
    (key other : String) (bucket b : ℤ) (rows : List RateLimitRow)
    → counter other b (upsert_counter key bucket rows)
      ≡ (if same key other bucket b then counter other b rows +ℤ pos 1 else counter other b rows)
unfolding counter upsert_counter
counter-upsert_counter key other bucket b [] = elim (Bool-cases (same key other bucket b)) [
  | inl e ↦ rw e zero_add
  | inr e ↦ rw e
]
  where
    zero_add : pos 1 ≡ pos 0 +ℤ pos 1
    zero_add = omega int_laws
counter-upsert_counter key other bucket b (row ∷ rows) =
    elim (Bool-cases (is_counter key bucket row)) [
      | inl own ↦ rw own (
          rw (is_counter-same key other bucket b row own)
            (elim (Bool-cases (same key other bucket b)) [ inl e ↦ rw e | inr e ↦ rw e ]))
      | inr alien ↦ rw alien (elim (Bool-cases (is_counter other b row)) [
        | inl e ↦ rw (e, not_same key other bucket b row alien e)
        | inr e ↦ rw e (counter-upsert_counter key other bucket b rows)
      ])
    ]

pub counter_nonneg :
    (key : String) (bucket : ℤ) (rows : List RateLimitRow)
    → All (λ row. pos 1 ≤ℤ row.count) rows
    → pos 0 ≤ℤ counter key bucket rows
unfolding counter
counter_nonneg key bucket rows h = go (first (is_counter key bucket) rows) refl
  where
    go : (o : Option RateLimitRow) → first (is_counter key bucket) rows ≡ o → pos 0 ≤ℤ count_in o
    go none e = omega arith
    go (some row) e = omega (
      arith,
      first-All (λ (r : RateLimitRow). pos 1 ≤ℤ r.count) (is_counter key bucket) rows row h e,
    )

pub All-upsert_counter :
    (key : String) (bucket : ℤ) (rows : List RateLimitRow)
    → All (λ row. pos 1 ≤ℤ row.count) rows
    → All (λ row. pos 1 ≤ℤ row.count) (upsert_counter key bucket rows)
unfolding upsert_counter
All-upsert_counter key bucket [] h = (omega arith, tt)
All-upsert_counter key bucket (row ∷ rows) (h, hs) = elim (Bool-cases (is_counter key bucket row)) [
  | inl e ↦ rw e (omega int_laws, hs)
  | inr e ↦ rw e (h, All-upsert_counter key bucket rows hs)
]

any-upsert_counter :
    (key other : String) (bucket b : ℤ) (rows : List RateLimitRow)
    → same key other bucket b ≡ false
    → any (is_counter other b) (upsert_counter key bucket rows) ≡ any (is_counter other b) rows
unfolding upsert_counter
any-upsert_counter key other bucket b [] h = rw h
any-upsert_counter key other bucket b (row ∷ rows) h =
    elim (Bool-cases (is_counter key bucket row)) [
      | inl e ↦ rw e
      | inr e ↦ rw (e, any-upsert_counter key other bucket b rows h)
    ]

same_refl : (key : String) (bucket : ℤ) → same key key bucket bucket ≡ true
same_refl key bucket = rw (eq_refl key) ((eq_ℤ_iff bucket bucket).1 refl)

pub counter-upsert_self :
    (key : String) (bucket : ℤ) (rows : List RateLimitRow)
    → counter key bucket (upsert_counter key bucket rows) ≡ counter key bucket rows +ℤ pos 1
counter-upsert_self key bucket rows =
    counter-upsert_counter key key bucket bucket rows ∙ (rw (same_refl key bucket))

same_sym :
    (key other : String) (bucket b : ℤ)
    → same key other bucket b ≡ false
    → same other key b bucket ≡ false
same_sym key other bucket b h = elim (Bool-cases (same other key b bucket)) [
  | inr e ↦ e
  | inl e ↦
      let (k, n) = and_eq_true _ _ e in
      let k' : other ≡ key = (eq_iff other key).0 k in
      let n' : b ≡ bucket = (eq_ℤ_iff b bucket).0 n in
      let swapped : same key other bucket b ≡ same key key bucket bucket =
        λ i. same key (k' i) bucket (n' i) in
      cc (h, swapped, same_refl key bucket)
]

pub Distinct-upsert_counter :
    (key : String) (bucket : ℤ) (rows : List RateLimitRow)
    → Distinct same_counter rows
    → Distinct same_counter (upsert_counter key bucket rows)
unfolding upsert_counter
Distinct-upsert_counter key bucket [] h = (refl, tt)
Distinct-upsert_counter key bucket (row ∷ rows) (h, hs) =
    elim (Bool-cases (is_counter key bucket row)) [
      | inl e ↦ rw e (h, hs)
      | inr e ↦ rw e (
        any-upsert_counter key row.key bucket row.bucket rows
              (same_sym row.key key row.bucket bucket e)
            ∙ h,
        Distinct-upsert_counter key bucket rows hs,
      )
    ]

-- What an increment does: the counter is one higher and returned, and nothing else changes.
pub record Incremented (key : String) (bucket : ℤ) (t : Tables) (n : ℕ) (t' : Tables) : Type 0 where
  pub value : pos n ≡ counter key bucket t.rate_limits +ℤ pos 1
  pub tables : t' ≡ record t { rate_limits = upsert_counter key bucket t.rate_limits }

module _ (fault : ℕ → Bool) (database : Database) (key : String) (bucket : ℤ) where
  read_first :
      (s : Sqlite) (t : Tables) (o : Option RateLimitRow)
      → s.tables ≡ record t { rate_limits = upsert_counter key bucket t.rate_limits }
      → pos 0 ≤ℤ counter key bucket t.rate_limits
      → count_in o ≡ counter key bucket t.rate_limits +ℤ pos 1
      → Inner fault ⊥ (Incremented key bucket t) (read_counter fault database o s)
  unfolding read_counter
  read_first s t none e low h = absurd (omega (int_laws, ap pos_part h))
  read_first s t (some row) e low h = go row.count h
    where
      go :
          (z : ℤ)
          → z ≡ counter key bucket t.rate_limits +ℤ pos 1
          → Inner fault ⊥
              (Incremented key bucket t)
              (ok_or (u64_try_from z) "rate limit count exceeds supported range" s)
      go (pos n) h = record { value = h; tables = e }
      go (negsuc n) h = absurd (omega (int_laws, ap neg_part h, ap pos_part h))

  -- On valid tables, an increment is one atomic step: it adds one to the counter of its key and
  -- bucket, which starts at 0, and returns the new value; on an error, after a failed call, no
  -- counter has changed.
  pub increment-Outcome :
      (s : Sqlite)
      → IsValid s.tables
      → Outcome fault s.tables ⊥
          (Incremented key bucket s.tables)
          (increment_rate_limit_counter fault database key bucket s)
  unfolding increment_rate_limit_counter
  increment-Outcome s v = transaction-step fault database ⊥ _ _ s λ m.
      engine-step fault (Inner fault ⊥ (Incremented key bucket s.tables)) _ _
        (record s { calls = m }) (λ n f. inl f)
        λ n.
          engine-step fault (Inner fault ⊥ (Incremented key bucket s.tables)) _ _
            (with_rate_limits (upsert_counter key bucket s.tables.rate_limits)
              (record s { calls = n }))
            (λ k f. inl f)
            λ k.
              read_first _ s.tables
                (first (is_counter key bucket) (upsert_counter key bucket s.tables.rate_limits))
                refl (counter_nonneg key bucket s.tables.rate_limits v.counted)
                (unfold counter in counter-upsert_self key bucket s.tables.rate_limits)
