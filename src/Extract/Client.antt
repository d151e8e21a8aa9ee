-- ===== src/Extract/Client.antt =====
-- The extractor over the RPC client: internal/extract/extract.go with internal/rpc/client.go.
mod Tests
use blockchain_data_feeds_po.Prelude.{
  ℕ, ◌≤◌, ◌≡◌, List, [], ◌∷◌, lit, Bool, true, arith, inl, inr, some, subst, In,
}
use blockchain_data_feeds_po.Prelude.Exec.{Error, ok, err, too_many_results}
use blockchain_data_feeds_po.Rpc.Interface.{Log}
use blockchain_data_feeds_po.Rpc.Client.{
  Json, Transport, Client, Conn, RpcResponse, RpcError, filter, says_too_many,
}
use blockchain_data_feeds_po.Rpc.Client.Answers.{request, Responded, call-Explained, Explained}
use blockchain_data_feeds_po.Rpc.Client.Typed.{client_rpc, get_logs}
use blockchain_data_feeds_po.Rpc.Client.Typed.Headers.{call_ok}
use blockchain_data_feeds_po.Extract.Deps.{Deps}
use blockchain_data_feeds_po.Extract.Records.{build_filter}
use blockchain_data_feeds_po.Extract.Range.Complete.{Serves}

module _ {C R : Type 0} (t : Transport C) (json : Json) (client : Client R)
    (deps : Deps (Conn C)) where
  -- The dependencies with the client as their node.
  abbrev pub wired : Deps (Conn C)
  wired = record deps { rpc = client_rpc t json deps.hexutil client }

  -- The server: a response to `eth_getLogs` without an error has every log of the chain in the
  -- range that was asked for.
  pub record ServerServes (chain : List Log) : Type 0 where
    pub complete :
        (from to : ℕ) (resp : RpcResponse) (logs : List Log)
        → Responded t json client
            (request (lit "eth_getLogs") (filter (build_filter wired from to) ∷ []))
            resp
        → json.logs resp.result ≡ ok logs
        → (l : Log) → In l chain
        → from ≤ l.block_number
        → l.block_number ≤ to
        → In l logs

  pub client-Serves : (chain : List Log) → ServerServes chain → Serves wired chain
  unfolding client_rpc get_logs
  client-Serves chain server = record {
    complete = λ from to conn logs h l mem lo hi.
        let (resp, r, e) =
          call_ok t json deps.hexutil client (lit "eth_getLogs")
            (filter (build_filter wired from to) ∷ []) json.logs conn logs h in
        server.complete from to resp logs r e l mem lo hi;
  }
