-- ===== src/Db/Schema.antt =====
-- The schema of src/db.rs: the columns of its two tables and the names of its indexes, and the
-- statements that create them.
use mathlib.Core.List.{◌++◌}
use psst_rs.Prelude.{String, Option, none, some, List, [], ◌∷◌, ◌==◌, any, if◌then◌else◌}

-- A table that does not exist has no list of columns.
pub record Schema : Type 0 where
  pub secrets : Option (List String)
  pub rate_limits : Option (List String)
  pub indexes : List String

abbrev pub secrets_columns : List String
secrets_columns =
    "id" ∷ "ciphertext" ∷ "nonce" ∷ "created_at" ∷ "expires_at" ∷ "consumed_at"
    ∷ "delete_token_hash" ∷ "key_digest" ∷ "size_bytes" ∷ "requester_ip_hash" ∷ []

abbrev pub rate_limits_columns : List String
rate_limits_columns = "key" ∷ "bucket" ∷ "count" ∷ []

abbrev pub columns_of : Option (List String) → List String
columns_of none = []
columns_of (some columns) = columns

-- A statement of `SCHEMA_SQL`: `CREATE TABLE IF NOT EXISTS` of either table with its columns, or
-- `CREATE INDEX IF NOT EXISTS name ON secrets(column)`.
pub data SchemaStatement : Type 0 where
  create_secrets create_rate_limits : List String → SchemaStatement
  create_secrets_index : (name column : String) → SchemaStatement

abbrev pub create_table : List String → Option (List String) → Option (List String)
create_table columns none = some columns
create_table columns (some existing) = some existing

-- What a statement makes of the schema, or an error: an index needs its column, unless an index of
-- its name is there already. Names are compared as they are written.
unfoldable pub execute : SchemaStatement → Schema → Option Schema
execute (create_secrets columns) schema =
    some (record schema { secrets = create_table columns schema.secrets })
execute (create_rate_limits columns) schema =
    some (record schema { rate_limits = create_table columns schema.rate_limits })
execute (create_secrets_index name column) schema =
    if any (λ index. index == name) schema.indexes
    then some schema
    else if any (λ existing. existing == column) (columns_of schema.secrets)
    then some (record schema { indexes = name ∷ schema.indexes })
    else none

-- `SCHEMA_SQL`
abbrev pub schema_sql : List SchemaStatement
schema_sql =
    create_secrets secrets_columns
    ∷ create_secrets_index "idx_secrets_expires_at" "expires_at"
    ∷ create_secrets_index "idx_secrets_consumed_at" "consumed_at"
    ∷ create_rate_limits rate_limits_columns
    ∷ []

-- The rows of `PRAGMA table_info(table)`.
unfoldable pub table_columns : String → Schema → List String
table_columns table schema =
    if table == "secrets"
    then columns_of schema.secrets
    else if table == "rate_limits"
    then columns_of schema.rate_limits
    else []

-- `ALTER TABLE secrets ADD COLUMN …`
unfoldable pub add_secrets_column : String → Schema → Schema
add_secrets_column column schema = record schema {
  secrets = some (columns_of schema.secrets ++ (column ∷ []));
}
