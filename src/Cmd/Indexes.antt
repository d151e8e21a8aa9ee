-- ===== src/Cmd/Indexes.antt =====
-- The command `index backfill` of cmd/indexer/main.go, from the configuration to the table.
mod Example
mod Tests
use blockchain_data_feeds_po.Store.Schema.{Catalog}
use blockchain_data_feeds_po.Store.Schema.Created.{IsThere}
use blockchain_data_feeds_po.Cmd.Opened.{must_build_deps, queries_for, opened_lem}
use blockchain_data_feeds_po.Prelude.{All}
use blockchain_data_feeds_po.Prelude.{
  ℕ, ◌+◌, ◌-◌, ◌/◌, ◌≤◌, ◌<◌, ◌≡◌, false, Bool, Text, some, List, arith, word, In, ltb,
  if◌then◌else◌, subst,
}
use blockchain_data_feeds_po.Prelude.Exec.{Error, Result, ok, Exec}
use blockchain_data_feeds_po.Store.Db.{Database}
use blockchain_data_feeds_po.Config.{Config, IndexerConfig}
use blockchain_data_feeds_po.Config.Ready.{IsReady}
use blockchain_data_feeds_po.Config.Load.{load, load-IsReady}
use blockchain_data_feeds_po.Rpc.Interface.{Hexutil, Log}
use blockchain_data_feeds_po.Rpc.Client.{Json, Transport, Conn}
use blockchain_data_feeds_po.Decode.Abi.{Abi}
use blockchain_data_feeds_po.Extract.Deps.{Deps, World}
use blockchain_data_feeds_po.Extract.Follow.{Settings}
use blockchain_data_feeds_po.Extract.Follow.Resume.{HasRoom}
use blockchain_data_feeds_po.Extract.Range.Tiles.{Indexed}
use blockchain_data_feeds_po.Extract.Backfill.{Range, backfill_bounds}
use blockchain_data_feeds_po.Extract.Backfill.Pool.{Pool, Reach, AllGone, open_pool}
use blockchain_data_feeds_po.Extract.Backfill.Pool.Complete.{backfill_complete}
use blockchain_data_feeds_po.Extract.Client.{ServerServes}
use blockchain_data_feeds_po.Cmd.{build_deps, override}
use blockchain_data_feeds_po.Cmd.Wired.{configured, build_deps-Serves}

-- The part of the configuration that the extractor reads.
abbrev pub settings : IndexerConfig → Settings
settings c = record {
  start_block = c.start_block;
  confirmations = c.confirmations;
  chunk_size = c.chunk_size;
  min_chunk_size = c.min_chunk_size;
  max_chunk_size = c.max_chunk_size;
  concurrency = c.concurrency;
}

-- The first block: that of the flag, or that of the configuration where the flag is 0.
abbrev pub first_block : ℕ → ℕ → ℕ
first_block from start = if ltb 0 from then from else start

bounds-first_block :
    {C : Type 0} (deps : Deps C) (cfg : Settings) (from to : ℕ) (w : World C) (bounds : Range)
    → (backfill_bounds deps cfg (override from) (override to) w).0 ≡ ok bounds
    → bounds.from ≡ first_block from cfg.start_block
unfolding backfill_bounds override
bounds-first_block deps cfg from to w bounds h = ground (arith, h)

IsReady-HasRoom :
    {C : Type 0} (deps : Deps C) (cfg : Config)
    → IsReady cfg
    → cfg.indexer.max_chunk_size + cfg.indexer.max_chunk_size / 10 + 3 < word
    → HasRoom deps (settings cfg.indexer)
IsReady-HasRoom deps cfg ready room = record {
  min_room = omega (arith, ready.chunk_above, ready.chunk_below);
  max_room = omega arith;
}

module _ {P V C R F H : Type 0} (abi : Abi P V) (positive : R → Bool) (rate : R)
    (topics_json : List Text → Result Error Text) (t : Transport C) (json : Json) (hex : Hexutil)
    (d : Database) (with_postgres : Bool) (sql_open : Text → Text → Result Error H)
    (read : Text → Exec F Error Text) (unmarshal : Text → Result Error Config) where
  -- `index backfill`, from the file to the table. Let the configuration load, the dependencies be
  -- built from it with the database opened, the responses of the server have the logs of the range that they are asked for,
  -- the chunk size and the end of the bounds leave room in 64 bits, and the producer have fuel for
  -- one range a block. Then, whatever the order in which the workers and the producer step, and
  -- whatever retries the client makes, once all workers have returned and nothing was cancelled, by
  -- the caller or by an error, the table has every log of the chain from the first block to the end
  -- of the bounds, under the configured chain. The first block is that of the flag or, where that
  -- is 0, that of the configuration. And every table and index of the driver was there from the
  -- start.
  pub backfill_indexes :
      (path : Text) (f : F) (cfg : Config) (deps : Deps (Conn C)) (chain : List Log) (l : Log)
      (h : H) (tables : Catalog) (from to fuel : ℕ) (w : World (Conn C)) (bounds : Range)
      (s0 s : Pool (Conn C))
      → (load read unmarshal path f).0 ≡ ok cfg
      → (must_build_deps abi positive rate t json hex with_postgres sql_open d topics_json cfg
          tables).0
        ≡ ok (h, deps)
      → ServerServes t json (configured abi positive rate topics_json t json hex d cfg) deps chain
      → cfg.indexer.max_chunk_size + cfg.indexer.max_chunk_size / 10 + 3 < word
      → (backfill_bounds deps (settings cfg.indexer) (override from) (override to) w).0 ≡ ok bounds
      → bounds.to + cfg.indexer.chunk_size < word
      → bounds.to + 1 - bounds.from < fuel
      → open_pool deps
          (settings cfg.indexer)
          fuel
          bounds
          (backfill_bounds deps (settings cfg.indexer) (override from) (override to) w).1
        ≡ some s0
      → Reach deps (settings cfg.indexer) s0 s
      → AllGone s.workers
      → s.canceled ≡ false
      → In l chain
      → first_block from cfg.indexer.start_block ≤ l.block_number
      → l.block_number ≤ bounds.to
      → Indexed cfg.chain.chain_id l s.world.store.db.logs
        × All
            (IsThere
              (must_build_deps abi positive rate t json hex with_postgres sql_open d topics_json cfg
                tables).1)
            (queries_for cfg.database.driver)
  unfolding must_build_deps
  backfill_indexes path f cfg deps chain l h tables from to fuel w bounds s0 s loaded made server
        room e fits enough opened r left off mem lo hi =
      let (built, there) =
        opened_lem with_postgres sql_open d cfg.database
          (build_deps abi positive rate topics_json t json hex d cfg) tables h deps made in
      let ready = load-IsReady read unmarshal path f cfg loaded in
      let (serves, id) =
        build_deps-Serves abi positive rate topics_json t json hex d cfg deps chain built server in
      let w' = (backfill_bounds deps (settings cfg.indexer) (override from) (override to) w).1 in
      let first = bounds-first_block deps (settings cfg.indexer) from to w bounds e in
      (
        subst (λ (k : ℕ). Indexed k l s.world.store.db.logs) id
            (backfill_complete deps (settings cfg.indexer) chain l fuel bounds w' s0 s serves
              (IsReady-HasRoom deps cfg ready room)
              (omega (arith, ready.min_positive, ready.chunk_above)) ready.workers fits enough
              opened r left off mem (omega (arith, first)) hi),
        there,
      )
