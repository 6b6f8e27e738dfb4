-- ===== src/Db/Stats.antt =====
-- The quota figures of src/db.rs: `active_secret_stats`, and the lookup of a counter.
use psst_rs.Prelude.{
  ℕ, String, ◌≡◌, refl, subst, inl, inr, Bool, Option, none, some, List, [], ◌∷◌, arith, first,
  count, select, length, length-select, All, All-select, first-All, Bool-cases,
}
use psst_rs.Prelude.Int.{
  ℤ, pos, negsuc, ◌≤ℤ◌, ◌<ℤ◌, ltb_ℤ, ltb_ℤ_iff, int_laws, i64_max, u64_try_from,
}
use psst_rs.Prelude.Exec.{ok_or, pure, raise_if, ◌>>=◌}
use psst_rs.Db.Tables.{SecretRow, RateLimitRow, Tables, ActiveSecretStats}
use psst_rs.Db.Statements.{is_active, is_counter, sum_size_bytes}
use psst_rs.Db.Connection.{Sqlite, Database}
use psst_rs.Db.Store.{active_secret_stats, rate_limit_count, read_row}
use psst_rs.Db.Spec.{IsStored, IsValid, counter, count_in}
use psst_rs.Db.Transactions.{Outcome, statement-step}

unfoldable pub active_bytes : ℤ → Tables → ℤ
active_bytes now t = sum_size_bytes (select (is_active now) t.secrets)

pub sum_size_bytes_nonneg :
    (rows : List SecretRow) → All IsStored rows → pos 0 ≤ℤ sum_size_bytes rows
unfolding sum_size_bytes
sum_size_bytes_nonneg [] h = omega arith
sum_size_bytes_nonneg (row ∷ rows) (h, hs) =
    omega (int_laws, h.sized, sum_size_bytes_nonneg rows hs)

pub active_bytes_nonneg : (now : ℤ) (t : Tables) → IsValid t → pos 0 ≤ℤ active_bytes now t
unfolding active_bytes
active_bytes_nonneg now t v =
    sum_size_bytes_nonneg (select (is_active now) t.secrets)
      (All-select IsStored (is_active now) t.secrets v.stored)

-- The figures: how many secrets can be read at `now`, and their size together.
pub record Counted (now : ℤ) (t : Tables) (stats : ActiveSecretStats) (t' : Tables) : Type 0 where
  pub number : stats.active_secret_count ≡ count (is_active now) t.secrets
  pub bytes : pos stats.active_storage_bytes ≡ active_bytes now t
  pub unchanged : t' ≡ t

module _ (fault : ℕ → Bool) (database : Database) where
  -- On valid tables, the figures count exactly the secrets that are unexpired and unread, and sum
  -- their sizes; there are none only after a failed call or if the sum passes an `i64`.
  pub active_secret_stats-Outcome :
      (now : ℤ) (s : Sqlite)
      → IsValid s.tables
      → Outcome fault s.tables
          (pos i64_max <ℤ active_bytes now s.tables)
          (Counted now s.tables)
          (active_secret_stats fault database now s)
  unfolding active_secret_stats active_bytes
  active_secret_stats-Outcome now s v =
      statement-step fault database
        (Outcome fault s.tables (pos i64_max <ℤ active_bytes now s.tables) (Counted now s.tables)) _
        _ s (λ e m f. (refl, inl f))
        (λ m. total m (active_bytes now s.tables) refl (active_bytes_nonneg now s.tables v))
    where
      total :
          (m : ℕ) (z : ℤ)
          → z ≡ active_bytes now s.tables
          → pos 0 ≤ℤ z
          → Outcome fault s.tables
              (pos i64_max <ℤ active_bytes now s.tables)
              (Counted now s.tables)
              ((raise_if (ltb_ℤ (pos i64_max) z) "failed to load active secret stats" >>= λ _.
                  ok_or (u64_try_from z) "failed to load active secret stats" >>= λ bytes.
                  pure (record {
                    active_secret_count = length (select (is_active now) s.tables.secrets);
                    active_storage_bytes = bytes;
                  }))
                (record s { calls = m }))
      total m (negsuc n) e low = absurd (omega arith)
      total m (pos n) e low = elim (Bool-cases (ltb_ℤ (pos i64_max) (pos n))) [
        | inl big ↦
            rw big (
              refl,
              inr (subst (λ w. pos i64_max <ℤ w) e ((ltb_ℤ_iff (pos i64_max) (pos n)).0 big)),
            )
        | inr small ↦ rw small (record {
          number = length-select (is_active now) s.tables.secrets;
          bytes = e;
          unchanged = refl;
        })
      ]

  -- The lookup of a counter returns its value, 0 where there is none.
  pub rate_limit_count-Outcome :
      (key : String) (bucket : ℤ) (s : Sqlite)
      → IsValid s.tables
      → Outcome fault s.tables ⊥
          (λ n t'. (pos n ≡ counter key bucket s.tables.rate_limits) × (t' ≡ s.tables))
          (rate_limit_count fault database key bucket s)
  unfolding rate_limit_count counter
  rate_limit_count-Outcome key bucket s v =
      statement-step fault database
        (Outcome fault s.tables ⊥
          (λ n t'. (pos n ≡ counter key bucket s.tables.rate_limits) × (t' ≡ s.tables)))
        _ _ s (λ e m f. (refl, inl f))
        (λ m. found m (first (is_counter key bucket) s.tables.rate_limits) refl)
    where
      found :
          (m : ℕ) (o : Option RateLimitRow)
          → first (is_counter key bucket) s.tables.rate_limits ≡ o
          → Outcome fault s.tables ⊥
              (λ n t'. (pos n ≡ count_in o) × (t' ≡ s.tables))
              ((read_row "failed to load rate limit count"
                    (λ (r : RateLimitRow). u64_try_from r.count)
                    o
                  >>= λ found. pure (elim found [ none ↦ 0 | some n ↦ n ]))
                (record s { calls = m }))
      found m none e = (refl, refl)
      found m (some row) e = go row.count (
          first-All (λ (r : RateLimitRow). pos 1 ≤ℤ r.count) _ s.tables.rate_limits row v.counted e)
        where
          go :
              (z : ℤ)
              → pos 1 ≤ℤ z
              → Outcome fault s.tables ⊥
                  (λ n t'. (pos n ≡ z) × (t' ≡ s.tables))
                  (((ok_or (u64_try_from z) "failed to load rate limit count" >>= λ a.
                        pure (some a))
                      >>= λ found. pure (elim found [ none ↦ 0 | some n ↦ n ]))
                    (record s { calls = m }))
          go (pos n) h = (refl, refl)
          go (negsuc n) h = absurd (omega arith)
