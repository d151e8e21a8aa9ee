-- ===== src/Extract/Client/Tests.antt =====
-- The sample dependencies over the client of a server without logs.
use blockchain_data_feeds_po.Prelude.{ℕ}
use blockchain_data_feeds_po.Rpc.Client.{Conn}
use blockchain_data_feeds_po.Rpc.Client.Example.{transport, json, client}
use blockchain_data_feeds_po.Extract.Deps.{Deps}
use blockchain_data_feeds_po.Extract.Client.{ℕ}
use blockchain_data_feeds_po.Rpc.Client.Typed.{client_rpc}
use blockchain_data_feeds_po.Extract.Example.{no_failure, decoder, plain}

abbrev deps : Deps (Conn ℕ)
deps = record {
  rpc = client_rpc transport json plain client;
  store = no_failure;
  decoder = decoder;
  hexutil = plain;
  chain_id = 1;
}
