-- ===== src/Db/Migration/Settled.antt =====
-- What an initialisation by src/db.rs is to make of a schema, and that doing it again changes nothing.
use mathlib.Core.List.{◌++◌}
use psst_rs.Prelude.{
  String, ◌≡◌, refl, inl, inr, Bool, true, false, ◌||◌, ◌&&◌, Option, none, some, List, [], ◌∷◌,
  ◌==◌, eq_refl, any, Bool-cases, if◌then◌else◌, arith,
}
use psst_rs.Db.Schema.{Schema, columns_of, create_table, secrets_columns, rate_limits_columns}

abbrev pub has_column : String → List String → Bool
has_column column = any (λ name. name == column)

abbrev pub has_index : String → List String → Bool
has_index name = any (λ index. index == name)

abbrev pub with_column : String → List String → List String
with_column column columns = if has_column column columns then columns else columns ++ (column ∷ [])

abbrev pub with_index : String → List String → List String
with_index name indexes = if has_index name indexes then indexes else name ∷ indexes

-- The columns of a table, or those that it gets where it does not exist.
abbrev pub columns_or : List String → Option (List String) → List String
columns_or columns none = columns
columns_or columns (some existing) = existing

abbrev pub secrets_of : Schema → List String
secrets_of schema =
    columns_or
      ("id" ∷ "ciphertext" ∷ "nonce" ∷ "created_at" ∷ "expires_at" ∷ "consumed_at"
        ∷ "delete_token_hash" ∷ "key_digest" ∷ "size_bytes" ∷ "requester_ip_hash" ∷ [])
      schema.secrets

abbrev pub rate_limits_of : Schema → List String
rate_limits_of schema = columns_or ("key" ∷ "bucket" ∷ "count" ∷ []) schema.rate_limits

abbrev pub both_indexes : List String → List String
both_indexes indexes =
    with_index "idx_secrets_consumed_at" (with_index "idx_secrets_expires_at" indexes)

-- Both tables, the column that an old table may lack, and both indexes.
abbrev pub upgraded : Schema → Schema
upgraded schema = record {
  secrets = some (with_column "key_digest" (secrets_of schema));
  rate_limits = some (rate_limits_of schema);
  indexes = both_indexes schema.indexes;
}

-- The indexes are there, or else the columns that they need.
abbrev pub is_indexable : Schema → Bool
is_indexable schema =
    (has_index "idx_secrets_expires_at" schema.indexes
      || has_column "expires_at" (secrets_of schema))
    && (has_index "idx_secrets_consumed_at" schema.indexes
        || has_column "consumed_at" (secrets_of schema))

pub has_index-with_index :
    (name other : String) (indexes : List String)
    → (name == other) ≡ false
    → has_index other (with_index name indexes) ≡ has_index other indexes
has_index-with_index name other indexes h = elim (Bool-cases (has_index name indexes)) [
  | inl e ↦ rw e refl
  | inr e ↦ rw e (rw h refl)
]

has_index-own :
    (name : String) (indexes : List String) → has_index name (with_index name indexes) ≡ true
has_index-own name indexes = elim (Bool-cases (has_index name indexes)) [
  | inl e ↦ rw e e
  | inr e ↦ rw e (rw (eq_refl name) refl)
]

has_column-append :
    (column : String) (columns : List String) → has_column column (columns ++ (column ∷ [])) ≡ true
has_column-append column [] = rw (eq_refl column) refl
has_column-append column (name ∷ columns) = ground (arith, has_column-append column columns)

pub has_column-with_column :
    (column : String) (columns : List String)
    → has_column column (with_column column columns) ≡ true
has_column-with_column column columns = elim (Bool-cases (has_column column columns)) [
  | inl e ↦ rw e e
  | inr e ↦ rw e (has_column-append column columns)
]

pub with_column-with_column :
    (column : String) (columns : List String)
    → with_column column (with_column column columns) ≡ with_column column columns
with_column-with_column column columns = rw (has_column-with_column column columns) refl

-- The second index leaves the first where it was.
expires-both_indexes :
    (indexes : List String) → has_index "idx_secrets_expires_at" (both_indexes indexes) ≡ true
expires-both_indexes indexes =
    rw
      (has_index-with_index "idx_secrets_consumed_at" "idx_secrets_expires_at"
        (with_index "idx_secrets_expires_at" indexes) refl)
      (has_index-own "idx_secrets_expires_at" indexes)

consumes-both_indexes :
    (indexes : List String) → has_index "idx_secrets_consumed_at" (both_indexes indexes) ≡ true
consumes-both_indexes indexes =
    has_index-own "idx_secrets_consumed_at" (with_index "idx_secrets_expires_at" indexes)

pub both_indexes-both_indexes :
    (indexes : List String) → both_indexes (both_indexes indexes) ≡ both_indexes indexes
both_indexes-both_indexes indexes =
    rw (expires-both_indexes indexes) (rw (consumes-both_indexes indexes) refl)

-- An upgrade of an upgraded schema changes nothing, and its indexes are there.
pub upgraded-upgraded : (schema : Schema) → upgraded (upgraded schema) ≡ upgraded schema
upgraded-upgraded schema = λ i. record {
  secrets = some (with_column-with_column "key_digest" (secrets_of schema) i);
  rate_limits = some (rate_limits_of schema);
  indexes = both_indexes-both_indexes schema.indexes i;
}

pub is_indexable-upgraded : (schema : Schema) → is_indexable (upgraded schema) ≡ true
is_indexable-upgraded schema =
    rw (expires-both_indexes schema.indexes) (rw (consumes-both_indexes schema.indexes) refl)

-- A table that has been created has the columns that the upgrade asks for.
pub columns_of-create_table :
    (columns : List String) (table : Option (List String))
    → columns_of (create_table columns table) ≡ columns_or columns table
columns_of-create_table columns none = refl
columns_of-create_table columns (some existing) = refl

columns_or-create_table :
    (columns : List String) (table : Option (List String))
    → columns_or columns (create_table columns table) ≡ columns_or columns table
columns_or-create_table columns none = refl
columns_or-create_table columns (some existing) = refl

pub create_table-some :
    (columns : List String) (table : Option (List String))
    → create_table columns table ≡ some (columns_or columns table)
create_table-some columns none = refl
create_table-some columns (some existing) = refl

-- The schema once `secrets` exists, with some of the indexes.
abbrev pub with_secrets : List String → Schema → Schema
with_secrets indexes schema = record schema {
  secrets = create_table secrets_columns schema.secrets;
  indexes = indexes;
}

-- The schema that the batch leaves.
abbrev pub created : Schema → Schema
created schema = record (with_secrets (both_indexes schema.indexes) schema) {
  rate_limits = create_table rate_limits_columns schema.rate_limits;
}

-- Wherever the statements stop, an upgrade of what they leave is one of what they found.
pub upgraded-with_secrets :
    (indexes : List String) (schema : Schema)
    → both_indexes indexes ≡ both_indexes schema.indexes
    → upgraded (with_secrets indexes schema) ≡ upgraded schema
upgraded-with_secrets indexes schema same = λ i. record {
  secrets =
      some (with_column "key_digest" (columns_or-create_table secrets_columns schema.secrets i));
  rate_limits = some (rate_limits_of schema);
  indexes = same i;
}

pub upgraded-created : (schema : Schema) → upgraded (created schema) ≡ upgraded schema
upgraded-created schema = λ i. record {
  secrets =
      some (with_column "key_digest" (columns_or-create_table secrets_columns schema.secrets i));
  rate_limits = some (columns_or-create_table rate_limits_columns schema.rate_limits i);
  indexes = both_indexes-both_indexes schema.indexes i;
}

pub both_indexes-with_index :
    (indexes : List String)
    → both_indexes (with_index "idx_secrets_expires_at" indexes) ≡ both_indexes indexes
both_indexes-with_index indexes = rw (has_index-own "idx_secrets_expires_at" indexes) refl
