-- ===== src/Db/Migration/Statements.antt =====
-- What the statements of `SCHEMA_SQL` in src/db.rs leave, and when they are refused.
use psst_rs.Db.Migration.Settled.{
  has_column, has_index, with_column, with_index, upgraded, is_indexable, both_indexes, created,
  columns_of-create_table, create_table-some, has_index-with_index,
}
use psst_rs.Prelude.{
  String, ◌≡◌, refl, true, false, ◌||◌, Option, none, some, List, ap, ◌∙◌, sym, arith,
}
use psst_rs.Db.Schema.{Schema, columns_of, create_table, secrets_columns, rate_limits_columns}

-- The last column makes of the created schema the upgraded one.
pub finished :
    (schema : Schema) (secrets : Option (List String))
    → secrets ≡ some (with_column "key_digest" (columns_of (created schema).secrets))
    → record (created schema) { secrets = secrets } ≡ upgraded schema
finished schema secrets e = λ i. record {
  secrets =
      (e
          ∙ ap (λ columns. some (with_column "key_digest" columns))
              (columns_of-create_table secrets_columns schema.secrets))
        i;
  rate_limits = create_table-some rate_limits_columns schema.rate_limits i;
  indexes = both_indexes schema.indexes;
}

pub some-columns_of :
    (table : Option (List String))
    → create_table secrets_columns table ≡ some (columns_of (create_table secrets_columns table))
some-columns_of none = refl
some-columns_of (some existing) = refl

pub expires_refused :
    (schema : Schema)
    → has_index "idx_secrets_expires_at" schema.indexes ≡ false
    → has_column "expires_at" (columns_of (created schema).secrets) ≡ false
    → is_indexable schema ≡ false
expires_refused schema h k =
    rw h (rw (rw (columns_of-create_table secrets_columns schema.secrets) at k) refl)

pub consumes_refused :
    (schema : Schema)
    → has_index "idx_secrets_consumed_at" (with_index "idx_secrets_expires_at" schema.indexes)
      ≡ false
    → has_column "consumed_at" (columns_of (created schema).secrets) ≡ false
    → is_indexable schema ≡ false
consumes_refused schema h k = ground (
  arith,
  sym (has_index-with_index "idx_secrets_expires_at" "idx_secrets_consumed_at" schema.indexes refl)
      ∙ h,
  rw (columns_of-create_table secrets_columns schema.secrets) at k,
)

pub accepted :
    (schema : Schema)
    → (has_index "idx_secrets_expires_at" schema.indexes
        || has_column "expires_at" (columns_of (created schema).secrets))
      ≡ true
    → (has_index "idx_secrets_consumed_at" (with_index "idx_secrets_expires_at" schema.indexes)
        || has_column "consumed_at" (columns_of (created schema).secrets))
      ≡ true
    → is_indexable schema ≡ true
accepted schema h k = rw (rw (columns_of-create_table secrets_columns schema.secrets) at h) (
    rw (has_index-with_index "idx_secrets_expires_at" "idx_secrets_consumed_at" schema.indexes refl)
      at (rw (columns_of-create_table secrets_columns schema.secrets) at k))
