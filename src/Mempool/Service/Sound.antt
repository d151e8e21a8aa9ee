-- ===== src/Mempool/Service/Sound.antt =====
-- The queues of internal/mempool/service.go while all its parts run.
use blockchain_data_feeds_po.Mempool.Tracker.{new_tracker}
use blockchain_data_feeds_po.Prelude.Exec.{Result-cases}
use blockchain_data_feeds_po.Mempool.Handlers.Sound.{receipt_worker-IsSound, drop_expired-IsSound}
use blockchain_data_feeds_po.Mempool.Fetcher.Hands.{handle_hash-IsSound}
use blockchain_data_feeds_po.Prelude.{
  List-cases, ◌||◌, ◌≤◌, ◌≡◌, Text, List, [], ◌∷◌, length, length-append, inl, inr, arith,
  Bool-cases, ap, subst,
}
use blockchain_data_feeds_po.Mempool.Tracker.Queue.{IsSound, on_head-IsSound, Distinct}
use blockchain_data_feeds_po.Mempool.Fetcher.{Fetcher, enqueue, new_fetcher, Format}
use blockchain_data_feeds_po.Mempool.Subscriber.Runs.{IsBounded, receive-IsBounded}
use blockchain_data_feeds_po.Mempool.Service.{
  Service, take_pending, take_head, Rpc, new_service, Database, new_tracker, WsJson, work_fetcher,
  start_service, serve_all, serve, Result, ServiceEvent, Error, message, Time, ℕ, Options,
  MempoolConfig, SqliteStore, ok, with_options, pending_ready, is_empty, head_ready, fetch_one,
  receipt_one, tick,
}

-- Each channel is within its capacity, and the receipt queue is sound.
pub record IsServing {C : Type 0} (s : Service C) : Type 0 where
  pub channels : IsBounded s.sub
  pub fetching : length s.fetcher.pending_c ≤ s.fetcher.max_inflight
  pub tracking : IsSound s.feed.tracker

enqueue_lem :
    (hash : Text) (f : Fetcher)
    → length f.pending_c ≤ f.max_inflight
    → length (enqueue hash f).pending_c ≤ (enqueue hash f).max_inflight
unfolding enqueue
enqueue_lem hash f h = ground (arith, length-append f.pending_c (hash ∷ []))

module _ {C : Type 0} where
  take_pending-IsServing : (s : Service C) → IsServing s → IsServing (take_pending s)
  unfolding take_pending
  take_pending-IsServing s i = elim (List-cases s.sub.pending_c) [
    | inl e ↦ rw (take_pending, e) i
    | inr (hash, rest, e) ↦
        rw (take_pending, e)
          (record {
            channels = record {
              pending_room = omega (arith, ap length e, i.channels.pending_room);
              head_room = i.channels.head_room;
            };
            fetching = enqueue_lem hash s.fetcher i.fetching;
            tracking = i.tracking;
          })
  ]

  take_head-IsServing : (s : Service C) → IsServing s → IsServing (take_head s)
  unfolding take_head
  take_head-IsServing s i = elim (List-cases s.sub.head_c) [
    | inl e ↦ rw (take_head, e) i
    | inr (number, rest, e) ↦
        let room : IsBounded (record (s.sub) { head_c = rest }) = record {
          pending_room = i.channels.pending_room;
          head_room = omega (arith, ap length e, i.channels.head_room);
        } in
        elim (Bool-cases s.track_lifecycle) [
          | inl on ↦
              rw (take_head, e, on)
                (record {
                  channels = room;
                  fetching = i.fetching;
                  tracking = on_head-IsSound number s.feed.tracker i.tracking;
                })
          | inr off ↦
              rw (take_head, e, off)
                (record { channels = room; fetching = i.fetching; tracking = i.tracking })
        ]
  ]

module _ {C : Type 0} (rpc : Rpc C) (d : Database) (fmt : Format) (json : WsJson) where
  work_fetcher-IsServing : (s : Service C) → IsServing s → IsServing (work_fetcher rpc d fmt json s)
  unfolding work_fetcher
  work_fetcher-IsServing s i = elim (List-cases s.fetcher.pending_c) [
    | inl e ↦ rw (work_fetcher, e) i
    | inr (hash, rest, e) ↦
        rw (work_fetcher, e)
          (record {
            channels = i.channels;
            fetching = omega (arith, ap length e, i.fetching);
            tracking = handle_hash-IsSound rpc d fmt s.fetcher.chain_id hash s.feed i.tracking;
          })
  ]

  serve-IsServing :
      (e : ServiceEvent) (s : Service C) → IsServing s → IsServing (serve rpc d fmt json e s)
  unfolding serve
  serve-IsServing (message raw) s i = record {
    channels = receive-IsBounded json raw s.sub i.channels;
    fetching = i.fetching;
    tracking = i.tracking;
  }
  serve-IsServing pending_ready s i = take_pending-IsServing s i
  serve-IsServing head_ready s i = take_head-IsServing s i
  serve-IsServing fetch_one s i = work_fetcher-IsServing s i
  serve-IsServing receipt_one s i = record {
    channels = i.channels;
    fetching = i.fetching;
    tracking = receipt_worker-IsSound rpc d s.feed i.tracking;
  }
  serve-IsServing tick s i = record {
    channels = i.channels;
    fetching = i.fetching;
    tracking = drop_expired-IsSound rpc d s.feed i.tracking;
  }

  serve_all-IsServing :
      (events : List ServiceEvent) (s : Service C)
      → IsServing s
      → IsServing (serve_all rpc d fmt json events s)
  unfolding serve_all
  serve_all-IsServing [] s i = i
  serve_all-IsServing (e ∷ events) s i =
      serve_all-IsServing events (serve rpc d fmt json e s) (serve-IsServing e s i)

new_service-IsServing :
    {C : Type 0} (chain_id : ℕ) (cfg : MempoolConfig) (conn : C) (store : SqliteStore)
    → IsServing (new_service chain_id cfg conn store)
unfolding new_service new_fetcher new_tracker IsSound Distinct
new_service-IsServing chain_id cfg conn store = record {
  channels = record { pending_room = omega arith; head_room = omega arith };
  fetching = omega arith;
  tracking = (tt, omega arith, omega arith);
}

module _ {C : Type 0} (rpc : Rpc C) (d : Database) (fmt : Format) (json : WsJson) where
  -- From a service that has started on, whatever messages, hashes, heads, receipts and sweeps come,
  -- in whatever order and with whatever errors of the node and the database: the channels of the
  -- subscriber and of the fetcher stay within their capacities, no hash is in flight for its
  -- receipt twice, and no more are than the tracker allows.
  pub service_lem :
      (parse_duration : Text → Result Error Time) (chain_id : ℕ) (o : Options) (cfg : MempoolConfig)
      (conn : C) (store : SqliteStore) (s : Service C) (events : List ServiceEvent)
      → start_service parse_duration chain_id o cfg conn store ≡ ok s
      → IsServing (serve_all rpc d fmt json events s)
  unfolding start_service
  service_lem parse_duration chain_id o cfg conn store s events h =
      elim (Result-cases (with_options parse_duration o cfg)) [
        | inl (mcfg, e) ↦ elim (Bool-cases (is_empty mcfg.ws_url || is_empty mcfg.http_url)) [
          | inl missing ↦ absurd (ground (arith, e, missing, h))
          | inr there ↦ serve_all-IsServing rpc d fmt json events s (
              subst IsServing (ground (arith, e, there, h))
                (new_service-IsServing chain_id mcfg conn store))
        ]
        | inr (x, e) ↦ absurd (ground (arith, e, h))
      ]
