-- ===== src/Cmd/Opened.antt =====
-- cmd/indexer/main.go with the opening of the database: mustBuildDeps, mustBuildMempoolService and
-- `db migrate`. An exit with status 1 is an error.
use blockchain_data_feeds_po.Prelude.{
  ◌≡◌, Bool, Text, lit, is_empty, text_eq, List, All, arith, Bool-cases, inl, inr, if◌then◌else◌,
  refl,
}
use blockchain_data_feeds_po.Prelude.Exec.{Error, failed, Result, ok, err, Exec, Result-cases}
use blockchain_data_feeds_po.Store.Db.{Database}
use blockchain_data_feeds_po.Store.Schema.{Statement, Catalog, migrate, new_store}
use blockchain_data_feeds_po.Store.Schema.Queries.{sqlite_queries, postgres_queries}
use blockchain_data_feeds_po.Store.Schema.Created.{Grown, Grown-refl, IsThere}
use blockchain_data_feeds_po.Store.Schema.Migrated.{migrate-Migrated}
use blockchain_data_feeds_po.Config.{Config, DatabaseConfig}
use blockchain_data_feeds_po.Config.Load.{load}
use blockchain_data_feeds_po.Rpc.Interface.{Hexutil}
use blockchain_data_feeds_po.Rpc.Client.{Json, Transport, Conn}
use blockchain_data_feeds_po.Decode.Abi.{Abi}
use blockchain_data_feeds_po.Extract.Deps.{Deps}
use blockchain_data_feeds_po.Cmd.{build_deps, MempoolDeps, build_mempool_service}

-- The statements of the store that `New` returns for a driver.
unfoldable pub queries_for : Text → List Statement
queries_for driver = if text_eq driver (lit "sqlite") then sqlite_queries else postgres_queries

-- `sql_open` is sql.Open, `with_postgres` the build tag, and `d` what the statements meet.
module _ {H : Type 0} (with_postgres : Bool) (sql_open : Text → Text → Result Error H)
    (d : Database) where
  unfoldable pub open_migrated : DatabaseConfig → Exec Catalog Error H
  open_migrated db c = elim (new_store with_postgres sql_open db.driver db.dsn) [
    | err e ↦ (err e, c)
    | ok h ↦
        let (r, c') = migrate d (queries_for db.driver) c in
        elim r [ err e ↦ (err e, c') | ok u ↦ (ok h, c') ]
  ]

  -- Behind the opening, `build` is what the command goes on with.
  unfoldable pub opened :
      {A : Type 0} → DatabaseConfig → Result Error A → Exec Catalog Error (H × A)
  opened db build c =
      let (r, c') = open_migrated db c in
      elim r [
        | err e ↦ (err e, c')
        | ok h ↦ elim build [ err e ↦ (err e, c') | ok a ↦ (ok (h, a), c') ]
      ]

  -- An opening only adds tables and indexes, and one without an error leaves all of its driver.
  pub open_migrated_lem :
      (db : DatabaseConfig) (c : Catalog)
      → Grown c (open_migrated db c).1
        × ((h : H)
            → (open_migrated db c).0 ≡ ok h
            → All (IsThere (open_migrated db c).1) (queries_for db.driver))
  unfolding open_migrated
  open_migrated_lem db c =
      let qs = queries_for db.driver in
      let (g, made) = migrate-Migrated d qs c in
      elim (Result-cases (new_store with_postgres sql_open db.driver db.dsn)) [
        | inr (x, e) ↦ rw (open_migrated, e) (Grown-refl c, λ h k. cc)
        | inl (h, e) ↦ elim (Result-cases (migrate d qs c).0) [
          | inr (x, f) ↦ rw (open_migrated, e, f) (g, λ h k. cc)
          | inl (u, f) ↦ rw (open_migrated, e, f) (g, λ h k. made (f))
        ]
      ]

  -- An opening without an error has what it was to go on with.
  pub opened_lem :
      {A : Type 0} (db : DatabaseConfig) (build : Result Error A) (c : Catalog) (h : H) (a : A)
      → (opened db build c).0 ≡ ok (h, a)
      → (build ≡ ok a) × All (IsThere (opened db build c).1) (queries_for db.driver)
  unfolding opened
  opened_lem db build c h a k =
      let (g, made) = open_migrated_lem db c in
      elim (Result-cases (open_migrated db c).0) [
        | inr (x, e) ↦ absurd (ground (arith, e, k))
        | inl (j, e) ↦ elim (Result-cases build) [
          | inr (x, f) ↦ absurd (ground (arith, e, f, k))
          | inl (b, f) ↦ (ground (arith, e, f, k), rw (opened, e, f) (made j e))
        ]
      ]

  -- handleDB: `db migrate`, with the path of its flag, over the files and the database.
  unfoldable pub migrate_command :
      {F : Type 0}
      → (Text → Exec F Error Text)
      → (Text → Result Error Config)
      → Text
      → Exec (F × Catalog) Error (Unit {0})
  migrate_command read unmarshal path (f, c) =
      if is_empty path
      then (err (failed (lit "--config is required")), (f, c))
      else (let (r, f') = load read unmarshal path f in
          elim r [
            | err e ↦ (err e, (f', c))
            | ok cfg ↦
                let (opening, c') = open_migrated cfg.database c in
                elim opening [ err e ↦ (err e, (f', c')) | ok h ↦ (ok tt, (f', c')) ]
          ])

  -- `db migrate` only adds tables and indexes, and does not touch the database where the file does
  -- not load. Without an error the file loads, and all of its driver is there.
  pub migrate_command_lem :
      {F : Type 0} (read : Text → Exec F Error Text) (unmarshal : Text → Result Error Config)
      (path : Text) (f : F) (c : Catalog)
      → Grown c (migrate_command read unmarshal path (f, c)).1.1
        × ((e : Error)
            → (load read unmarshal path f).0 ≡ err e
            → (migrate_command read unmarshal path (f, c)).1.1 ≡ c)
        × ((migrate_command read unmarshal path (f, c)).0 ≡ ok tt
            → (cfg : Config) × ((load read unmarshal path f).0 ≡ ok cfg)
              × All
                  (IsThere (migrate_command read unmarshal path (f, c)).1.1)
                  (queries_for cfg.database.driver))
  unfolding migrate_command
  migrate_command_lem read unmarshal path f c = elim (Bool-cases (is_empty path)) [
    | inl e ↦ rw (migrate_command, e) (Grown-refl c, λ x h. refl, λ h. cc)
    | inr e ↦ elim (Result-cases (load read unmarshal path f).0) [
      | inr (x, l) ↦ rw (migrate_command, e, l) (Grown-refl c, λ x h. refl, λ h. cc)
      | inl (cfg, l) ↦
          let (g, made) = open_migrated_lem cfg.database c in
          elim (Result-cases (open_migrated cfg.database c).0) [
            | inr (x, o) ↦ rw (migrate_command, e, l, o) (g, λ x h. cc, λ h. cc)
            | inl (j, o) ↦ rw (migrate_command, e, l, o) (g, λ x h. cc, λ h. (cfg, refl, made j o))
          ]
    ]
  ]

module _ {P V C R H : Type 0} (abi : Abi P V) (positive : R → Bool) (rate : R) (t : Transport C)
    (json : Json) (hex : Hexutil) (with_postgres : Bool) (sql_open : Text → Text → Result Error H)
    (d : Database) where
  -- mustBuildDeps; `topics_json` is the JSON of a list of texts.
  unfoldable pub must_build_deps :
      (List Text → Result Error Text) → Config → Exec Catalog Error (H × Deps (Conn C))
  must_build_deps topics_json cfg =
      opened with_postgres sql_open d cfg.database
        (build_deps abi positive rate topics_json t json hex d cfg)

  unfoldable pub must_build_mempool_service : Config → Exec Catalog Error (H × MempoolDeps abi C)
  must_build_mempool_service cfg =
      opened with_postgres sql_open d cfg.database
        (build_mempool_service abi positive rate t json hex d cfg)
