-- ===== src/Store/Schema/Tests.antt =====
-- The tables of internal/store, from a migration that failed in the middle.
use blockchain_data_feeds_po.Prelude.{
  ℕ, ◌≡◌, refl, inl, false, none, some, lit, [], All, ◌==◌, if◌then◌else◌, length, text_eq,
}
use blockchain_data_feeds_po.Prelude.Exec.{failed, ok, err}
use blockchain_data_feeds_po.Store.Db.{Database}
use blockchain_data_feeds_po.Extract.Example.{no_failure}
use blockchain_data_feeds_po.Store.Schema.{
  Catalog, migrate, send_query, create, has_table, has_index, new_store,
}
use blockchain_data_feeds_po.Store.Schema.Queries.{sqlite_queries}
use blockchain_data_feeds_po.Store.Schema.Created.{Grown, IsThere}
use blockchain_data_feeds_po.Store.Schema.Migrated.{migrate_lem}

abbrev empty : Catalog
empty = record { tables = []; indexes = []; calls = 0 }

-- The fourth statement fails.
abbrev busy : Database
busy = record { fails = λ n. if n == 3 then some (failed (lit "locked")) else none; now = λ n. 0 }

-- Two tables and one index are left by the first attempt, and the second completes them.
half : length (migrate busy sqlite_queries empty).1.tables ≡ 2
unfolding migrate send_query create has_table has_index text_eq
half = refl

whole :
    length (migrate no_failure sqlite_queries (migrate busy sqlite_queries empty).1).1.tables ≡ 3
unfolding migrate send_query create has_table has_index text_eq
whole = refl

unsupported :
    new_store {H = ℕ} false (λ driver dsn. ok 1) (lit "mysql") (lit "d")
    ≡ err (failed (lit "unsupported database driver mysql"))
unfolding new_store text_eq
unsupported = refl

migrate_lem_example :
    (Grown empty (migrate busy sqlite_queries empty).1
      × ((migrate busy sqlite_queries empty).0 ≡ ok tt
          → All (IsThere (migrate busy sqlite_queries empty).1) sqlite_queries))
    × ((migrate no_failure sqlite_queries (migrate busy sqlite_queries empty).1).0 ≡ ok tt)
    × ((migrate busy sqlite_queries
          (migrate no_failure sqlite_queries (migrate busy sqlite_queries empty).1).1).1.tables
        ≡ (migrate no_failure sqlite_queries (migrate busy sqlite_queries empty).1).1.tables)
    × ((migrate busy sqlite_queries
          (migrate no_failure sqlite_queries (migrate busy sqlite_queries empty).1).1).1.indexes
        ≡ (migrate no_failure sqlite_queries (migrate busy sqlite_queries empty).1).1.indexes)
migrate_lem_example = migrate_lem sqlite_queries busy no_failure busy empty (inl refl) (λ n. refl)
