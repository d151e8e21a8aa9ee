-- ===== src/Rpc/Client/Example.antt =====
-- A server that answers its first post with status 503 and every later one, over a network that
-- counts the posts; for the runs of internal/rpc/client.go.
use blockchain_data_feeds_po.Prelude.{ℕ, zero, suc, ◌+◌, lit, [], ◌∷◌, none, false}
use blockchain_data_feeds_po.Prelude.Exec.{ok, err, failed}
use blockchain_data_feeds_po.Rpc.Interface.{Log}
use blockchain_data_feeds_po.Rpc.Client.{Json, Transport, Client, Conn, Reply, RpcResponse}

abbrev pub one_log : Log
one_log = record {
  address = lit "0xa";
  topics = [];
  log_data = [];
  block_number = 3;
  block_hash = lit "0xb3";
  tx_hash = lit "0xt";
  index = 0;
}

abbrev pub busy_once : ℕ → Reply
busy_once zero = record { status = 503; body = ok [] }
busy_once (suc n) = record { status = 200; body = ok [] }

abbrev pub transport : Transport ℕ
transport = record {
  limit_wait = λ n. (ok tt, n);
  new_request = λ u b n. (ok tt, n);
  post = λ u b n. (ok (busy_once n), n + 1);
  is_canceled = λ e. false;
}

abbrev pub response : RpcResponse
response = record { jsonrpc = lit "2.0"; id = 1; result = lit "r"; error = none }

abbrev pub json : Json
json = record {
  marshal = λ r. ok r.method;
  response = λ s. ok response;
  string = λ s. ok (lit "0x7");
  strings = λ s. ok [];
  raw = λ s. ok s;
  block = λ s. ok (record { number = lit "0x7"; hash = lit "0xb"; timestamp = lit "0x0" });
  logs = λ s. ok (one_log ∷ []);
  transaction = λ s. err (failed (lit "transaction"));
  receipt = λ s. err (failed (lit "receipt"));
}

abbrev pub client : Client (Unit {0})
client = record {
  url = lit "u";
  limit = none;
  burst = 4;
  slots = 4;
  retries = 5;
  backoff = 200000000;
}

abbrev pub start : Conn ℕ
start = record { net = 0; held = 1; waits = [] }
