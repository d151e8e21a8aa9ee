-- ===== src/Lib.antt =====
-- A verification library for the blockchain data feeds program (Go). The program indexes the logs
-- of a chain into a database, follows the head, rolls back after a reorganisation, and tracks
-- pending transactions until they are mined, replaced or dropped.
--
-- Parts and files. `Config` models internal/config/config.go: Validate with its defaults, and in
-- Config/Load the reading of a file. `Store` models internal/store: Store/Schema has New of
-- store.go and the migrations of both drivers, Store/Db the tables of sqlite.go, Store/Logs
-- InsertLogs and ListLogs, Store/Checkpoints the checkpoints and RollbackFrom, Store/Mempool the
-- mempool table, and Store/Postgres is postgres.go. `Metrics` models the counters of
-- internal/metrics/metrics.go. `Rpc` models internal/rpc/client.go: Rpc/Interface has the data and
-- the calls as an interface that the rest takes as a parameter, Rpc/Client is Call,
-- Rpc/Client/Calls is several calls at once over the semaphore, and Rpc/Client/Typed has the typed
-- calls, which fill the interface. `Decode` models internal/decode: Decode/Registry is registry.go
-- and Decode/Input is input.go. `Extract` models internal/extract: Extract/Chunker is chunker.go,
-- Extract/Records and Extract/Range are extract.go, Extract/Follow is follow.go, Extract/Backfill
-- is backfill.go with its workers in Extract/Backfill/Pool, and Extract/Client puts the client
-- under the extractor. `Reorg` models internal/reorg/reorg.go. `Mempool` models internal/mempool:
-- Mempool/Key, Mempool/Tracker and Mempool/Handlers are tracker.go with each handler as one step,
-- Mempool/Threads is tracker.go with its goroutines interleaved, Mempool/Fetcher is fetcher.go,
-- Mempool/Subscriber is subscriber.go, and Mempool/Service is service.go, which runs them
-- together. `Ui` models cmd/ui/main.go: Ui/Feeds reads the tables, Ui/Stream is what a stream of
-- them writes, Ui/Send asks the node, and Ui/Token changes the configuration. `Cmd` models
-- cmd/indexer/main.go: the commands, in Cmd/Wired how the client, the registry and the store are
-- put under the extractor, in Cmd/Opened the opening of the database before that and `db migrate`,
-- and in Cmd/Indexes the command `index backfill` as a whole. `Prelude` has the shared names and
-- helpers; the modules called Tests and Example hold runs on concrete data.
--
-- How they interact. Follow starts behind the last checkpoint, checks it against the chain, rolls
-- back if it does not fit, asks for the head and indexes up to the confirmed block; a range is
-- indexed in chunks, each of which inserts its logs and then one checkpoint. Backfill hands ranges
-- to workers that index them at the same time. All ask the node through the client, which retries,
-- and write through one store. The subscriber puts hashes and heads into two channels; the fetcher
-- turns a hash into a transaction for the tracker, which writes the mempool table and keeps a
-- bounded queue of hashes whose receipts to ask for.
--
-- Correspondence. A handler is a function from a state to a result and a state, errors included
-- (Prelude/Exec). The state of the extractor is `World`: the connection, the database and the
-- counters. The state of the tracker is `Feed`, that of the service `Service`, that of the client
-- `Conn`, that of a migration `Catalog`. Goroutines that work together are steps in any order: the
-- relation `Step` of Extract/Backfill/Pool, in which a round of a worker is a step; the relation
-- `Step` of Mempool/Threads, in which each locked part, each statement and each call of the node
-- is a step, on the state `System`; the calls at once of Rpc/Client/Calls, in which each wait,
-- each use of the semaphore and each exchange is a step; and the events of Mempool/Service. A
-- `uint64` is a natural number with the wrap at 2 ^ 64 written out (add64, sub64); an `int` or a
-- duration that is not positive is 0, which the code treats alike. A time is a number of
-- nanoseconds from year 1. Text is a list of bytes. A row of a table is a record in a list in the
-- order of insertion; a Go map is an association list.
--
-- Outside the program and so parameters: the network under the client (`Transport`, `Json`) and
-- under the subscriber (`Websocket`, `WsJson`), the files (`Files`, and the reading and parsing in
-- Config/Load), the database driver and the clock (`Database`: which statement fails, and the time
-- at it), the ABI code of go-ethereum (`Abi`), hexutil (`Hexutil`), the printing of big integers
-- (`Format`), time.ParseDuration, sql.Open, and the JSON of the web interface. The extractor takes
-- the node and the decoder as interfaces (`Rpc`, `Decoder`). Hypotheses on them are named:
-- `Serves` and `ServerServes` (an answer has the logs of its range), `Relents` (a chunk of the
-- minimum size is not refused), `Heads` (a head is not the last `uint64`), `HasRoom` (the
-- configured chunk bounds leave room for a growth step), `IsLine` (a JSON text has no newline).
--
-- Fuel. The loops of processRangeAdaptive and of Backfill's producer run on fuel and yield `none`
-- when it runs out; bounds that are enough are (blocks) * (maximum chunk + 1) + (chunk) + 1 and
-- (blocks) + 1. The attempts of a call are one more than its retries. The digits of a `uint64`
-- take 20. Follow, the read loop and the reconnects of the subscriber are endless loops and are
-- modelled by a number of turns.
--
-- Not modelled: the parsing of flags and the signals of cmd/indexer/main.go, the table of routes
-- and the static files of the web interface, logging, sleeping and the jitter of a wait. A
-- cancelled context is modelled in Backfill and in the subscriber; elsewhere it is a failing call.
-- In Mempool/Service a handler of the tracker is a whole turn; its locked parts are interleaved in
-- Mempool/Threads alone. The extractor makes the calls of the client one at a time on its
-- connection; calls that wait for each other at the semaphore are in Rpc/Client/Calls.
mod Prelude
pub mod Config
pub mod Store
pub mod Metrics
pub mod Rpc
pub mod Decode
pub mod Extract
pub mod Reorg
pub mod Mempool
pub mod Ui
pub mod Cmd
