-- ===== src/Maintenance/Ticks.antt =====
-- One turn of the loop of src/maintenance.rs: what it counts and how it sets the gauges.
use psst_rs.Prelude.{ℕ, String, ◌≡◌, refl, ap, ◌∙◌, sym, subst, ◌⊎◌, Bool, some, count}
use psst_rs.Prelude.Int.{ℤ, pos, ◌<ℤ◌, i64_max, wrap_i64}
use psst_rs.Prelude.Exec.{Result, ok, err}
use psst_rs.Metrics.{AppMetrics, fetch_add}
use psst_rs.Db.Tables.{Tables, ActiveSecretStats}
use psst_rs.Db.Statements.{is_active, is_expired}
use psst_rs.Db.Connection.{Sqlite, Database}
use psst_rs.Db.Store.{active_secret_stats}
use psst_rs.Db.Spec.{IsValid}
use psst_rs.Db.Transactions.{Failed, Outcome}
use psst_rs.Db.Stats.{Counted, active_bytes, active_secret_stats-Outcome}
use psst_rs.Http.Api.{World}
use psst_rs.Http.Ends.{tables}
use psst_rs.Maintenance.{
  MaintenanceRunStats, run_maintenance_pass, maintenance_tick, after_pass, set_gauges,
}
use psst_rs.Maintenance.Purge.{Leaves, Purges, IsPartial, run_maintenance_pass-Purges}

-- The metrics of a pass that deleted `n` secrets.
abbrev pub IsCounted : ℕ → AppMetrics → AppMetrics → Type 0
IsCounted n m m' =
    (m'.purge_runs ≡ fetch_add m.purge_runs 1)
    × (m'.purge_deleted ≡ fetch_add m.purge_deleted n)
    × (m'.secrets_expired ≡ fetch_add m.secrets_expired n)

pub data Ticked (fault : ℕ → Bool) (now : ℤ) (w w' : World) : Type 0 where
  -- The pass is counted and the gauges are the figures of the table.
  swept :
      (stats : MaintenanceRunStats)
      → Purges now (tables w) stats (tables w')
      → IsCounted (count (is_expired now) (tables w).secrets) w.metrics w'.metrics
      → w'.metrics.active_secrets ≡ wrap_i64 (pos (count (is_active now) (tables w').secrets))
      → w'.metrics.storage_bytes ≡ wrap_i64 (active_bytes now (tables w'))
      → Ticked fault now w w'
  -- The figures could not be read, and the gauges stay.
  unread :
      (stats : MaintenanceRunStats)
      → Purges now (tables w) stats (tables w')
      → IsCounted (count (is_expired now) (tables w).secrets) w.metrics w'.metrics
      → w'.metrics.active_secrets ≡ w.metrics.active_secrets
      → w'.metrics.storage_bytes ≡ w.metrics.storage_bytes
      → Failed fault ⊎ (pos i64_max <ℤ active_bytes now (tables w'))
      → Ticked fault now w w'
  -- The pass failed.
  broken :
      IsPartial fault now (tables w) (tables w')
      → w'.metrics ≡ record w.metrics { db_errors_purge = fetch_add w.metrics.db_errors_purge 1 }
      → Ticked fault now w w'

-- On valid tables, a turn counts the pass and the secrets that it deleted, and sets the gauges to
-- the number and the size of the secrets that can be read then, so that they agree with the table
-- whatever they were before. If the pass fails, only its error is counted; if the figures cannot
-- be read, which takes a failed call or a sum above an `i64`, the gauges stay.
pub maintenance_tick-Ticked :
    (fault : ℕ → Bool) (database : Database) (now : ℤ) (w : World)
    → IsValid (tables w)
    → Ticked fault now w (maintenance_tick fault database (some now) w)
unfolding maintenance_tick
maintenance_tick-Ticked fault database now w v =
    pass (run_maintenance_pass fault database now w.sqlite)
      (run_maintenance_pass-Purges fault database now w.sqlite)
  where
    gauges :
        (stats : MaintenanceRunStats) (s : Sqlite)
        → Purges now (tables w) stats s.tables
        → (m : AppMetrics) → IsCounted (count (is_expired now) (tables w).secrets) w.metrics m
        → m.active_secrets ≡ w.metrics.active_secrets
        → m.storage_bytes ≡ w.metrics.storage_bytes
        → (r : Result String ActiveSecretStats × Sqlite)
        → Outcome fault s.tables (pos i64_max <ℤ active_bytes now s.tables) (Counted now s.tables) r
        → Ticked fault now w (set_gauges fault database r m)
    gauges stats s p m c a b (ok active, s') h =
        swept stats (subst (Purges now (tables w) stats) (sym h.unchanged) p) c
          (ap (λ n. wrap_i64 (pos n))
            (h.number ∙ ap (λ (t : Tables). count (is_active now) t.secrets) (sym h.unchanged)))
          (ap wrap_i64 (h.bytes ∙ ap (active_bytes now) (sym h.unchanged)))
    gauges stats s p m c a b (err e, s') (same, because) =
        unread stats (subst (Purges now (tables w) stats) (sym same) p) c a b
          (subst (λ t. Failed fault ⊎ (pos i64_max <ℤ active_bytes now t)) (sym same) because)

    pass :
        (r : Result String MaintenanceRunStats × Sqlite)
        → Leaves (Purges now (tables w)) (IsPartial fault now (tables w)) r
        → Ticked fault now w (after_pass fault database now r w.metrics)
    pass (err e, s) h = broken h refl
    pass (ok stats, s) h =
        gauges stats s h
          (record w.metrics {
            purge_runs = fetch_add w.metrics.purge_runs 1;
            purge_deleted = fetch_add w.metrics.purge_deleted stats.expired_secrets_deleted;
            secrets_expired = fetch_add w.metrics.secrets_expired stats.expired_secrets_deleted;
          })
          (
            refl,
            ap (fetch_add w.metrics.purge_deleted) h.deleted,
            ap (fetch_add w.metrics.secrets_expired) h.deleted,
          )
          refl refl (active_secret_stats fault database now s)
          (active_secret_stats-Outcome fault database now s (h.valid v))
