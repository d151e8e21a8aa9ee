-- ===== src/Store/Schema.antt =====
-- The tables of internal/store: `New` of store.go, and `Migrate` of sqlite.go and postgres.go.
pub mod Queries
pub mod Created
pub mod Migrated
mod Tests
use blockchain_data_feeds_po.Prelude.{
  ℕ, ◌+◌, Bool, true, false, Text, lit, text_eq, Option, none, some, List, [], ◌∷◌, ◌++◌, any,
  if◌then◌else◌,
}
use blockchain_data_feeds_po.Prelude.Exec.{
  Error, failed, wrap, Result, ok, err, Exec, pure, raise, attempt, ◌>>=◌, ◌>>◌,
}
use blockchain_data_feeds_po.Store.Db.{Database}

pub data ColumnType : Type 0 where
  integer : ColumnType
  text : ColumnType
  datetime : ColumnType
  bigint : ColumnType
  bigserial : ColumnType
  timestamptz : ColumnType

-- `counted` is a primary key that the database counts up.
pub data Column : Type 0 where
  required : Text → ColumnType → Column
  optional : Text → ColumnType → Column
  keyed : Text → ColumnType → Column
  counted : Text → ColumnType → Column

-- `key` is a primary key of several columns, and `check` a column with its allowed values.
pub record Table : Type 0 where
  pub name : Text
  pub columns : List Column
  pub key : List Text
  pub check : Option (Text × List Text)

pub record Index : Type 0 where
  pub name : Text
  pub table : Text
  pub columns : List Text

-- CREATE TABLE IF NOT EXISTS and CREATE INDEX IF NOT EXISTS.
pub data Statement : Type 0 where
  create_table : Table → Statement
  create_index : Text → Text → List Text → Statement

-- What the database has, and the number of statements sent to it so far.
pub record Catalog : Type 0 where
  pub tables : List Table
  pub indexes : List Index
  pub calls : ℕ

unfoldable pub has_table : Text → List Table → Bool
has_table name ts = any (λ (t : Table). text_eq t.name name) ts

unfoldable pub has_index : Text → List Index → Bool
has_index name found = any (λ (i : Index). text_eq i.name name) found

-- A statement that the driver lets through. It refuses an index without its table; one on columns
-- that an older table of that name has not is a statement that fails, like one on a locked file.
unfoldable pub create : Statement → Exec Catalog Error (Unit {0})
create (create_table t) c =
    if has_table t.name c.tables
    then (ok tt, c)
    else (ok tt, record c { tables = c.tables ++ t ∷ [] })
create (create_index name table columns) c =
    if has_index name c.indexes
    then (ok tt, c)
    else if has_table table c.tables
    then (
      ok tt,
      record c {
        indexes = c.indexes ++ record { name = name; table = table; columns = columns } ∷ [];
      },
    )
    else (err (failed (lit "no such table")), c)

module _ (d : Database) where
  unfoldable pub send_query : Statement → Exec Catalog Error (Unit {0})
  send_query q c = elim (d.fails c.calls) [
    | none ↦ create q (record c { calls = c.calls + 1 })
    | some e ↦ (err e, record c { calls = c.calls + 1 })
  ]

  -- The loop of `Migrate`.
  unfoldable pub migrate : List Statement → Exec Catalog Error (Unit {0})
  migrate [] c = (ok tt, c)
  migrate (q ∷ qs) c =
      let (r, c') = send_query q c in
      elim r [ err e ↦ (err (wrap (lit "migrate") [] e), c') | ok u ↦ migrate qs c' ]

-- `New`: `sql_open` is sql.Open of a driver, and `with_postgres` the build tag.
unfoldable pub new_store :
    {H : Type 0} → Bool → (Text → Text → Result Error H) → Text → Text → Result Error H
new_store with_postgres sql_open driver dsn =
    if text_eq driver (lit "sqlite")
    then elim (sql_open (lit "sqlite") dsn) [
      | err e ↦ err (wrap (lit "open sqlite") [] e)
      | ok h ↦ ok h
    ]
    else if text_eq driver (lit "postgres")
    then (if with_postgres
        then elim (sql_open (lit "pgx") dsn) [
          | err e ↦ err (wrap (lit "open postgres") [] e)
          | ok h ↦ ok h
        ]
        else err (failed (lit "postgres support not enabled (build with -tags=postgres)")))
    else err (failed (lit "unsupported database driver " ++ driver))
