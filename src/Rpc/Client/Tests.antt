-- ===== src/Rpc/Client/Tests.antt =====
-- Calls of the RPC client, internal/rpc/client.go, on a server that is busy once.
use blockchain_data_feeds_po.Prelude.{
  ℕ, ◌+◌, ◌*◌, ◌≤◌, ◌≡◌, ◌≢◌, refl, lit, [], ◌∷◌, none, pos, negsuc, true, false, to_lower,
  contains, has_prefix,
}
use blockchain_data_feeds_po.Prelude.Exec.{ok, err, failed}
use blockchain_data_feeds_po.Rpc.Client.{
  call, call_loop, call_round, send, take_reply, take_response, sleep_backoff, backoff_wait,
  says_too_many, max_backoff, new_client, is_retryable,
}
use blockchain_data_feeds_po.Rpc.Client.Bounds.{call_keeps, backoffs, total}
use blockchain_data_feeds_po.Rpc.Client.Answers.{call-Explained, Explained, request}
use blockchain_data_feeds_po.Rpc.Client.Typed.{to_header, unix_time, get_block_by_number}
use blockchain_data_feeds_po.Rpc.Client.Example.{transport, json, client, start}
use blockchain_data_feeds_po.Rpc.Interface.{Hexutil, BlockHeader}

new_client_default :
    new_client (λ (r : ℕ). false) (lit "u") (negsuc 0) 0
    ≡ record { url = lit "u"; limit = none; burst = 4; slots = 4; retries = 5; backoff = 200000000 }
unfolding new_client
new_client_default = refl

too_many : says_too_many (lit "Query returned more than 10000 results") ≡ true
unfolding says_too_many to_lower contains has_prefix
too_many = refl

timeout : is_retryable (record { code = pos 1; message = lit "read Timeout" }) ≡ true
unfolding is_retryable to_lower contains has_prefix
timeout = refl

-- The call waits once and gets its result.
busy_then_ok :
    call transport json client (lit "m") [] json.raw start
    ≡ (ok (lit "r"), record { net = 2; held = 1; waits = 200000000 ∷ [] })
unfolding call call_loop call_round send take_reply take_response sleep_backoff backoff_wait
busy_then_ok = refl

call_keeps_example :
    ((call transport json client (lit "m") [] json.raw start).1.held ≡ start.held)
    × ((call transport json client (lit "m") [] json.raw start).0
        ≢ err (failed (lit "rpc call failed after retries")))
    × ((n : ℕ) × (n ≤ client.retries)
        × ((call transport json client (lit "m") [] json.raw start).1.waits
            ≡ backoffs client.backoff 0 n start.waits)
        × (total (call transport json client (lit "m") [] json.raw start).1.waits
            ≤ total start.waits + n * max_backoff))
call_keeps_example = call_keeps transport json client json.raw (lit "m") [] start

call-Explained_example :
    Explained transport json client
      (request (lit "m") [])
      json.raw
      (call transport json client (lit "m") [] json.raw start).0
call-Explained_example = call-Explained transport json client json.raw (lit "m") [] start

abbrev hexutil : Hexutil
hexutil = record { encode_uint64 = λ n. n ∷ []; decode_uint64 = λ s. ok 7; encode = λ s. s }

abbrev header : BlockHeader
header = record { number = 7; hash = lit "0xb"; timestamp = 62135596807000000000 }

got_header : (get_block_by_number transport json hexutil client 7 start).0 ≡ ok header
unfolding get_block_by_number call call_loop call_round send take_reply take_response sleep_backoff
    to_header unix_time
got_header = refl
