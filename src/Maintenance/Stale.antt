-- ===== src/Maintenance/Stale.antt =====
-- The counters that a pass of src/maintenance.rs deletes, and those that it leaves.
use psst_rs.Prelude.{
  ℕ, String, ◌≡◌, refl, ap, ◌∙◌, inl, inr, Bool, true, ◌&&◌, List, [], ◌∷◌, Bool-cases,
  if◌then◌else◌, eq_iff,
}
use psst_rs.Prelude.Int.{ℤ, pos, ltb_ℤ, eq_ℤ_iff}
use psst_rs.Prelude.Text.{codes, like}
use psst_rs.RateLimit.{
  RateLimitBucket, create_minute, create_hour, read_minute, key, purge_cutoff_bucket,
}
use psst_rs.RateLimit.Keys.{like-purge_pattern, same_kind, purge_pattern}
use psst_rs.Db.Tables.{RateLimitRow}
use psst_rs.Db.Statements.{is_stale, is_counter, remaining}
use psst_rs.Db.Spec.{counter}
use psst_rs.Db.Counters.{and_eq_true}
use psst_rs.Maintenance.{
  create_minute_buckets_to_keep, create_hour_buckets_to_keep, read_minute_buckets_to_keep,
}

is_counter-stale :
    (pattern : String) (cutoff : ℤ) (key : String) (bucket : ℤ) (row : RateLimitRow)
    → is_counter key bucket row ≡ true
    → is_stale pattern cutoff row ≡ (like (codes pattern) (codes key) && ltb_ℤ bucket cutoff)
is_counter-stale pattern cutoff key bucket row h =
    let (k, n) = and_eq_true _ _ h in
    let k' : row.key ≡ key = (eq_iff row.key key).0 k in
    let n' : row.bucket ≡ bucket = (eq_ℤ_iff row.bucket bucket).0 n in
    λ i. like (codes pattern) (codes (k' i)) && ltb_ℤ (n' i) cutoff

-- A purge of stale counters leaves every counter as it is, or at 0 where it was stale.
counter-remaining :
    (pattern : String) (cutoff : ℤ) (key : String) (bucket : ℤ) (rows : List RateLimitRow)
    → counter key bucket (remaining (is_stale pattern cutoff) rows) ≡ (
        if like (codes pattern) (codes key) && ltb_ℤ bucket cutoff
        then pos 0
        else counter key bucket rows)
unfolding counter
counter-remaining pattern cutoff key bucket [] =
    elim (Bool-cases (like (codes pattern) (codes key) && ltb_ℤ bucket cutoff)) [
      | inl e ↦ rw e refl
      | inr e ↦ rw e refl
    ]
counter-remaining pattern cutoff key bucket (row ∷ rows) =
    elim (Bool-cases (is_counter key bucket row)) [
      | inl own ↦
          let same : is_stale pattern cutoff row
              ≡ (like (codes pattern) (codes key) && ltb_ℤ bucket cutoff) =
            is_counter-stale pattern cutoff key bucket row own in
          elim (Bool-cases (like (codes pattern) (codes key) && ltb_ℤ bucket cutoff)) [
            | inl e ↦ rw (same, e) (counter-remaining pattern cutoff key bucket rows ∙ (rw e refl))
            | inr e ↦ rw (same, e, own) refl
          ]
      | inr alien ↦ elim (Bool-cases (is_stale pattern cutoff row)) [
        | inl e ↦ rw (e, alien) (counter-remaining pattern cutoff key bucket rows)
        | inr e ↦ rw (e, alien) (counter-remaining pattern cutoff key bucket rows)
      ]
    ]

-- The buckets of one kind that a pass keeps.
abbrev pub buckets_to_keep : RateLimitBucket → ℕ
buckets_to_keep create_minute = create_minute_buckets_to_keep
buckets_to_keep create_hour = create_hour_buckets_to_keep
buckets_to_keep read_minute = read_minute_buckets_to_keep

abbrev pub is_old : RateLimitBucket → ℤ → ℤ → Bool
is_old kind now bucket = ltb_ℤ bucket (purge_cutoff_bucket kind now (pos (buckets_to_keep kind)))

-- One purge of counters.
abbrev pub stale : RateLimitBucket → ℤ → RateLimitRow → Bool
stale kind now =
    is_stale (purge_pattern kind) (purge_cutoff_bucket kind now (pos (buckets_to_keep kind)))

pub counter-stale :
    (kind : RateLimitBucket) (now : ℤ) (other : RateLimitBucket) (hash : String) (bucket : ℤ)
    (rows : List RateLimitRow)
    → counter (key other hash) bucket (remaining (stale kind now) rows) ≡ (
        if same_kind kind other && is_old kind now bucket
        then pos 0
        else counter (key other hash) bucket rows)
counter-stale kind now other hash bucket rows =
    counter-remaining (purge_pattern kind) _ (key other hash) bucket rows
    ∙ ap (λ b. if b && is_old kind now bucket then pos 0 else counter (key other hash) bucket rows)
        (like-purge_pattern kind other hash)

pub all_kinds :
    (now : ℤ) (rows : List RateLimitRow) (kind : RateLimitBucket) (hash : String) (bucket : ℤ)
    → counter (key kind hash) bucket (
        remaining
          (stale read_minute now)
          (remaining (stale create_hour now) (remaining (stale create_minute now) rows)))
      ≡ (if is_old kind now bucket then pos 0 else counter (key kind hash) bucket rows)
all_kinds now rows create_minute hash bucket =
    counter-stale read_minute now create_minute hash bucket _
    ∙ counter-stale create_hour now create_minute hash bucket _
    ∙ counter-stale create_minute now create_minute hash bucket rows
all_kinds now rows create_hour hash bucket =
    counter-stale read_minute now create_hour hash bucket _
    ∙ counter-stale create_hour now create_hour hash bucket _
    ∙ ap (λ z. if is_old create_hour now bucket then pos 0 else z)
        (counter-stale create_minute now create_hour hash bucket rows)
all_kinds now rows read_minute hash bucket =
    counter-stale read_minute now read_minute hash bucket _
    ∙ ap (λ z. if is_old read_minute now bucket then pos 0 else z)
        (counter-stale create_hour now read_minute hash bucket _
          ∙ counter-stale create_minute now read_minute hash bucket rows)
