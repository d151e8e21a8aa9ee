-- ===== src/Ui/Feeds.antt =====
-- handleMempool, handleLogs and the turns of handleStream in cmd/ui/main.go.
use blockchain_data_feeds_po.Prelude.{pos, Text, lit, is_empty, text_eq, List, if◌then◌else◌}
use blockchain_data_feeds_po.Prelude.Exec.{pure, ◌>>=◌}
use blockchain_data_feeds_po.Store.Types.{LogRecord, MempoolTx}
use blockchain_data_feeds_po.Store.Db.{Database, Action}
use blockchain_data_feeds_po.Store.Logs.{list_logs}
use blockchain_data_feeds_po.Store.Mempool.{list_mempool}
use blockchain_data_feeds_po.Ui.Numbers.{parse_int, limit_of}

-- The rows that a handler writes as JSON; an error goes out with status 400.
unfoldable pub handle_mempool : Database → Text → Text → Action (List MempoolTx)
handle_mempool d status limit = list_mempool d status (limit_of (parse_int limit (pos 100)))

unfoldable pub handle_logs : Database → Text → Action (List LogRecord)
handle_logs d limit = list_logs d (limit_of (parse_int limit (pos 100)))

pub data Payload : Type 0 where
  logs : List LogRecord → Payload
  mempool : List MempoolTx → Payload

-- The feed of a stream.
unfoldable pub chosen_feed : Text → Text → Text
chosen_feed default feed = if is_empty feed then default else feed

-- One tick of a stream.
unfoldable pub stream_tick : Database → Text → Text → Text → Action Payload
stream_tick d feed status limit =
    let n = limit_of (parse_int limit (pos 100)) in
    if text_eq feed (lit "logs")
    then (do rows ← list_logs d n; pure (logs rows))
    else (do rows ← list_mempool d status n; pure (mempool rows))
