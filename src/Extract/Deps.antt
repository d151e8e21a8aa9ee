-- ===== src/Extract/Deps.antt =====
-- `Deps` of internal/extract/extract.go and the state that its parts share.
use blockchain_data_feeds_po.Prelude.{ℕ, Text, List}
use blockchain_data_feeds_po.Prelude.Exec.{Error, Result, ok, Exec}
use blockchain_data_feeds_po.Store.Types.{Time}
use blockchain_data_feeds_po.Store.Db.{Database, SqliteStore, Action}
use blockchain_data_feeds_po.Metrics.{Metrics}
use blockchain_data_feeds_po.Rpc.Interface.{Rpc, Hexutil, Log}

pub record Decoded : Type 0 where
  pub event_name : Text
  pub args_json : Result Error Text

-- What the extractor uses of decode.Registry and of encoding/json.
pub record Decoder : Type 0 where
  pub decode_log : Log → Result Error Decoded
  pub topics_json : List Text → Result Error Text
  pub filter_addresses : List Text
  pub filter_topics : List Text

pub record Deps (C : Type 0) : Type 0 where
  pub rpc : Rpc C
  pub store : Database
  pub decoder : Decoder
  pub hexutil : Hexutil
  pub chain_id : ℕ

pub record World (C : Type 0) : Type 0 where
  pub conn : C
  pub store : SqliteStore
  pub metrics : Metrics

abbrev pub Run : Type 0 → Type 0 → Type 0
Run C A = Exec (World C) Error A

module _ {C : Type 0} where
  abbrev pub with_rpc : {A : Type 0} → Exec C Error A → Run C A
  with_rpc m w = let (r, c) = m w.conn in (r, record w { conn = c })

  abbrev pub with_store : {A : Type 0} → Action A → Run C A
  with_store m w = let (r, s) = m w.store in (r, record w { store = s })

  abbrev pub count : (Metrics → Metrics) → Run C (Unit {0})
  count f w = (ok tt, record w { metrics = f w.metrics })

  -- `time.Now().UTC()`
  abbrev pub now : Deps C → World C → Time
  now deps w = deps.store.now w.store.calls
