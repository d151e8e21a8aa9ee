-- ===== src/Mempool/Service/Tests.antt =====
-- The mempool service, internal/mempool/service.go, from a hash to the tracker.
use blockchain_data_feeds_po.Prelude.{◌≡◌, refl, lit, [], ◌∷◌, List, true, false, none}
use blockchain_data_feeds_po.Prelude.Exec.{ok}
use blockchain_data_feeds_po.Extract.Example.{node, no_failure, empty_store}
use blockchain_data_feeds_po.Config.{MempoolConfig}
use blockchain_data_feeds_po.Mempool.Fetcher.{Format}
use blockchain_data_feeds_po.Mempool.Subscriber.{WsJson}
use blockchain_data_feeds_po.Mempool.Service.{
  Options, Service, ServiceEvent, message, pending_ready, head_ready, fetch_one, receipt_one, tick,
  start_service, new_service, serve_all, with_options, chosen_ttl,
}
use blockchain_data_feeds_po.Mempool.Service.Sound.{IsServing, service_lem}

abbrev options : Options
options = record {
  decode_input = false;
  track = true;
  dropped_ttl = [];
  pending_workers = 0;
  receipt_workers = 2;
}

abbrev mempool : MempoolConfig
mempool = record {
  ws_url = lit "ws://n";
  http_url = lit "http://n";
  pending_workers = 4;
  receipt_workers = 4;
  dropped_ttl = 600000000000;
  decode_input = false;
  track_lifecycle = false;
  max_inflight_hashes = 100;
}

abbrev chosen : MempoolConfig
chosen = record mempool { receipt_workers = 2; track_lifecycle = true }

abbrev started : Service (Unit {0})
started = new_service 1 chosen tt empty_store

starts : start_service (λ t. ok 5) 1 options mempool tt empty_store ≡ ok started
unfolding start_service with_options chosen_ttl
starts = refl

abbrev ws_json : WsJson
ws_json = record {
  message = λ raw. ok (record {
    jsonrpc = lit "2.0";
    method = lit "eth_subscription";
    params = record { subscription = lit "s"; result = raw };
  });
  string = λ raw. ok raw;
  head_number = λ raw. ok raw;
  subscribed = λ raw. ok (lit "s");
}

abbrev format : Format
format = record { decimal_text = λ n. n ∷ []; decode_input = λ to input. none }

abbrev story : List ServiceEvent
story =
    message (lit "\"0xT\"")
    ∷ message (lit "0x5")
    ∷ pending_ready
    ∷ head_ready
    ∷ fetch_one
    ∷ receipt_one
    ∷ tick
    ∷ []

service_lem_example : IsServing (serve_all node no_failure format ws_json story started)
service_lem_example =
    service_lem node no_failure format ws_json (λ t. ok 5) 1 options mempool tt empty_store started
      story starts
