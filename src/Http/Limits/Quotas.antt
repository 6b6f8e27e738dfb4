-- ===== src/Http/Limits/Quotas.antt =====
-- The global quotas of src/http.rs: a creation passes exactly while the stored secrets and their size
-- leave room for it.
use Prim.Native.String.{◌++◌}
use psst_rs.Prelude.{
  ℕ, ◌+◌, ◌≤◌, ◌<◌, ◌≡◌, subst, ap, ◌⊎◌, inl, inr, Bool, arith, Bool-cases, ltb, leb, ltb→lt,
  leb→le, count,
}
use psst_rs.Prelude.Int.{ℤ, pos, ◌+ℤ◌, ◌≤ℤ◌, ◌<ℤ◌, int_laws, pos_part, neg_part, i64_max, u64_mod}
use psst_rs.Prelude.Exec.{raise_if, ok_or, ◌>>=◌, ◌>>◌}
use psst_rs.Config.{AppConfig}
use psst_rs.Db.Tables.{ActiveSecretStats}
use psst_rs.Db.Statements.{is_active}
use psst_rs.Db.Connection.{Database}
use psst_rs.Db.Store.{active_secret_stats}
use psst_rs.Db.Spec.{IsValid}
use psst_rs.Db.Transactions.{Failed}
use psst_rs.Db.Stats.{Counted, active_bytes, active_secret_stats-Outcome}
use psst_rs.Http.Api.{World, Handler, store_call, internal, service_unavailable}
use psst_rs.Http.Ends.{Ends, tables, Ends-bind, Ends-store_call}
use psst_rs.Http.Limits.{enforce_global_create_quotas, checked_add_u64}

-- The secrets that can be read at `now`.
abbrev pub active : ℤ → World → ℕ
active now w = count (is_active now) (tables w).secrets

pub record HasRoom (config : AppConfig) (now : ℤ) (size : ℕ) (w : World) : Type 0 where
  pub number : active now w < config.global_max_active_secrets
  pub bytes : active_bytes now (tables w) +ℤ pos size ≤ℤ pos config.global_max_storage_bytes

-- Why a creation is refused here.
pub data NoRoom (fault : ℕ → Bool) (config : AppConfig) (now : ℤ) (size : ℕ) (w : World)
    : Type 0 where
  too_many : config.global_max_active_secrets ≤ active now w → NoRoom fault config now size w
  too_big :
      pos config.global_max_storage_bytes <ℤ (active_bytes now (tables w) +ℤ pos size)
      → NoRoom fault config now size w
  past_u64 :
      pos u64_mod ≤ℤ (active_bytes now (tables w) +ℤ pos size) → NoRoom fault config now size w
  past_i64 : pos i64_max <ℤ active_bytes now (tables w) → NoRoom fault config now size w
  unanswered : Failed fault → NoRoom fault config now size w

-- Nothing is written.
abbrev pub IsSame : World → World → Type 0
IsSame w w' = (tables w' ≡ tables w) × (w'.metrics ≡ w.metrics)

-- The source adds natural numbers, the table integers.
module _ (n size m : ℕ) (z : ℤ) (h : pos n ≡ z) where
  sum_over : m ≤ n + size → pos m ≤ℤ (z +ℤ pos size)
  sum_over le = omega (int_laws, ap pos_part h, ap neg_part h)

  sum_past : m < n + size → pos m <ℤ (z +ℤ pos size)
  sum_past lt = omega (int_laws, ap pos_part h, ap neg_part h)

  sum_within : n + size ≤ m → (z +ℤ pos size) ≤ℤ pos m
  sum_within le = omega (int_laws, ap pos_part h, ap neg_part h)

module _ (fault : ℕ → Bool) (database : Database) (config : AppConfig) where
  -- On valid tables, a creation passes only if fewer secrets than the limit can be read and the
  -- size of all of them, with the new one, is within the storage limit. It is refused only if one
  -- of the two is not so, if a sum leaves the machine's integers, or if a call of SQLite fails.
  -- Nothing is written either way.
  pub enforce_global_create_quotas-Ends :
      (now : ℤ) (size : ℕ) (w : World)
      → IsValid (tables w)
      → Ends
          (λ _ w'. HasRoom config now size w × IsSame w w')
          (λ _ w'. NoRoom fault config now size w × IsSame w w')
          (enforce_global_create_quotas fault database config now size w)
  unfolding enforce_global_create_quotas
  enforce_global_create_quotas-Ends now size w v =
      Ends-bind (λ _ w'. HasRoom config now size w × IsSame w w')
        (λ _ w'. NoRoom fault config now size w × IsSame w w')
        (store_call (active_secret_stats fault database now)
          (λ error. internal ("failed to check global quotas: " ++ error)))
        (λ stats. judge stats) w
        (Ends-store_call fault (pos i64_max <ℤ active_bytes now (tables w)) (Counted now (tables w))
          (λ error. internal ("failed to check global quotas: " ++ error))
          (active_secret_stats fault database now) w
          (active_secret_stats-Outcome fault database now w.sqlite v))
        (λ e w' h. (because h.2, (h.0, h.1)))
        (λ stats w' h. decide stats w' h.0 (h.0.unchanged, h.1))
    where
      judge : ActiveSecretStats → Handler Unit
      judge stats = do
        raise_if (leb config.global_max_active_secrets stats.active_secret_count)
            (service_unavailable "global active secret quota has been reached")
        projected_storage_bytes ←
            ok_or (checked_add_u64 stats.active_storage_bytes size)
              (internal "global storage quota calculation overflowed")
        raise_if (ltb config.global_max_storage_bytes projected_storage_bytes)
            (service_unavailable "global storage quota has been reached")

      because :
          Failed fault ⊎ (pos i64_max <ℤ active_bytes now (tables w))
          → NoRoom fault config now size w
      because (inl f) = unanswered f
      because (inr big) = past_i64 big

      decide :
          (stats : ActiveSecretStats) (w' : World)
          → Counted now (tables w) stats (tables w')
          → IsSame w w'
          → Ends
              (λ _ w''. HasRoom config now size w × IsSame w w'')
              (λ _ w''. NoRoom fault config now size w × IsSame w w'')
              (judge stats w')
      decide stats w' h same =
          elim (Bool-cases (leb config.global_max_active_secrets stats.active_secret_count)) [
            | inl full ↦ rw full (record {
              at = (
                too_many
                    (subst (λ n. config.global_max_active_secrets ≤ n) h.number (leb→le _ _ full)),
                same,
              );
            })
            | inr free ↦
                rw free (elim (Bool-cases (ltb (stats.active_storage_bytes + size) u64_mod)) [
                  | inr big ↦
                      rw big
                        (record { at = (past_u64 (sum_over _ _ _ _ h.bytes (ground arith)), same) })
                  | inl fits ↦
                      rw fits
                        (elim (Bool-cases (
                          ltb config.global_max_storage_bytes
                            (stats.active_storage_bytes + size))) [
                              | inl over ↦ rw over (record {
                                at = (too_big (sum_past _ _ _ _ h.bytes (ltb→lt _ _ over)), same);
                              })
                              | inr within ↦ rw within (record {
                                at = (
                                  record {
                                    number =
                                        subst (λ n. n < config.global_max_active_secrets) h.number
                                          (ground arith);
                                    bytes = sum_within _ _ _ _ h.bytes (ground arith);
                                  },
                                  same,
                                );
                              })
                            ])
                ])
          ]
