-- ===== src/Mempool/Service.antt =====
-- internal/mempool/service.go: the options, and the parts at work together. An event is one turn of
-- one of the goroutines that Run starts, or of its own loop.
pub mod Sound
mod Tests
use blockchain_data_feeds_po.Prelude.{
  ℕ, Bool, true, false, ◌||◌, Text, lit, is_empty, Option, none, some, List, [], ◌∷◌, ltb,
  if◌then◌else◌,
}
use blockchain_data_feeds_po.Prelude.Exec.{Error, failed, Result, ok, err}
use blockchain_data_feeds_po.Store.Types.{Time}
use blockchain_data_feeds_po.Store.Db.{Database, SqliteStore}
use blockchain_data_feeds_po.Rpc.Interface.{Rpc}
use blockchain_data_feeds_po.Config.{MempoolConfig}
use blockchain_data_feeds_po.Mempool.Tracker.{new_tracker, on_head}
use blockchain_data_feeds_po.Mempool.Handlers.{Feed, receipt_worker, drop_expired}
use blockchain_data_feeds_po.Mempool.Fetcher.{Fetcher, Format, new_fetcher, enqueue, handle_hash}
use blockchain_data_feeds_po.Mempool.Subscriber.{Subscriber, WsJson, receive}

-- The arguments of `Run`. A number that is not positive is 0.
pub record Options : Type 0 where
  pub decode_input : Bool
  pub track : Bool
  pub dropped_ttl : Text
  pub pending_workers : ℕ
  pub receipt_workers : ℕ

-- The time to live: the option, read by `time.ParseDuration`, if there is one.
unfoldable pub chosen_ttl : (Text → Result Error Time) → Text → Time → Result Error Time
chosen_ttl parse_duration given default =
    if is_empty given then ok default else parse_duration given

-- The configuration with the options over it.
unfoldable pub with_options :
    (Text → Result Error Time) → Options → MempoolConfig → Result Error MempoolConfig
with_options parse_duration o cfg = elim (chosen_ttl parse_duration o.dropped_ttl cfg.dropped_ttl) [
  | err e ↦ err e
  | ok ttl ↦ ok (record cfg {
    decode_input = if o.decode_input then true else cfg.decode_input;
    pending_workers = if ltb 0 o.pending_workers then o.pending_workers else cfg.pending_workers;
    receipt_workers = if ltb 0 o.receipt_workers then o.receipt_workers else cfg.receipt_workers;
    dropped_ttl = ttl;
    track_lifecycle = if o.track then true else cfg.track_lifecycle;
  })
]

-- `feed` has the tracker, with its connection and the store.
pub record Service (C : Type 0) : Type 0 where
  pub track_lifecycle : Bool
  pub sub : Subscriber
  pub fetcher : Fetcher
  pub feed : Feed C

-- A message for the subscriber, the two channels of the loop, a worker of the fetcher, a receipt
-- worker, and the tick of the sweep.
pub data ServiceEvent : Type 0 where
  message : Text → ServiceEvent
  pending_ready : ServiceEvent
  head_ready : ServiceEvent
  fetch_one : ServiceEvent
  receipt_one : ServiceEvent
  tick : ServiceEvent

module _ {C : Type 0} where
  -- The parts as `Run` builds them, with empty channels.
  unfoldable pub new_service : ℕ → MempoolConfig → C → SqliteStore → Service C
  new_service chain_id cfg conn store = record {
    track_lifecycle = cfg.track_lifecycle;
    sub = record {
      pending_cap = cfg.max_inflight_hashes;
      head_cap = 128;
      pending_c = [];
      head_c = [];
    };
    fetcher = new_fetcher chain_id cfg.pending_workers cfg.max_inflight_hashes;
    feed = record {
      conn = conn;
      store = store;
      tracker = new_tracker cfg.dropped_ttl cfg.receipt_workers cfg.max_inflight_hashes;
    };
  }

  -- `Run` up to its loop.
  unfoldable pub start_service :
      (Text → Result Error Time)
      → ℕ
      → Options
      → MempoolConfig
      → C
      → SqliteStore
      → Result Error (Service C)
  start_service parse_duration chain_id o cfg conn store =
      elim (with_options parse_duration o cfg) [
        | err e ↦ err e
        | ok mcfg ↦
            if is_empty mcfg.ws_url || is_empty mcfg.http_url
            then err (failed (lit "mempool.ws_url and mempool.http_url are required"))
            else ok (new_service chain_id mcfg conn store)
      ]

  -- `hash := <-pendingC`
  unfoldable pub take_pending : Service C → Service C
  take_pending s = elim s.sub.pending_c [
    | [] ↦ s
    | hash ∷ rest ↦ record s {
      sub = record (s.sub) { pending_c = rest };
      fetcher = enqueue hash s.fetcher;
    }
  ]

  -- `head := <-headC`
  unfoldable pub take_head : Service C → Service C
  take_head s = elim s.sub.head_c [
    | [] ↦ s
    | number ∷ rest ↦
        let s' : Service C = record s { sub = record (s.sub) { head_c = rest } } in
        if s.track_lifecycle
        then record s' { feed = record (s.feed) { tracker = on_head number s.feed.tracker } }
        else s'
  ]

module _ {C : Type 0} (rpc : Rpc C) (d : Database) (fmt : Format) (json : WsJson) where
  -- A worker of the fetcher takes the oldest hash of its channel.
  unfoldable pub work_fetcher : Service C → Service C
  work_fetcher s = elim s.fetcher.pending_c [
    | [] ↦ s
    | hash ∷ rest ↦ record s {
      fetcher = record (s.fetcher) { pending_c = rest };
      feed = handle_hash rpc d fmt s.fetcher.chain_id hash s.feed;
    }
  ]

  unfoldable pub serve : ServiceEvent → Service C → Service C
  serve (message raw) s = record s { sub = receive json raw s.sub }
  serve pending_ready s = take_pending s
  serve head_ready s = take_head s
  serve fetch_one s = work_fetcher s
  serve receipt_one s = record s { feed = (receipt_worker rpc d s.feed).1 }
  serve tick s = record s { feed = (drop_expired rpc d s.feed).1 }

  unfoldable pub serve_all : List ServiceEvent → Service C → Service C
  serve_all [] s = s
  serve_all (e ∷ events) s = serve_all events (serve e s)
