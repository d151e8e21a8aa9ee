-- ===== src/Ui/Stream/Tests.antt =====
-- A stream of cmd/ui/main.go over an empty database that fails at its second tick.
use blockchain_data_feeds_po.Prelude.{◌⊎◌}
use blockchain_data_feeds_po.Ui.Stream.Reader.{read_events, at_start, IsLine, take_char}
use blockchain_data_feeds_po.Store.Mempool.{list_mempool}
use blockchain_data_feeds_po.Ui.Feeds.{logs, mempool}
use blockchain_data_feeds_po.Ui.Numbers.{limit_of}
use blockchain_data_feeds_po.Ui.Stream.Frames.{shown}
use blockchain_data_feeds_po.Prelude.{inl, pos, ◌≢◌}
use blockchain_data_feeds_po.Ui.Numbers.{parse_int}
use blockchain_data_feeds_po.Store.Db.{query}
use blockchain_data_feeds_po.Store.Logs.{list_logs}
use blockchain_data_feeds_po.Ui.Stream.{or_nothing}
use blockchain_data_feeds_po.Prelude.{subst, ap}
use blockchain_data_feeds_po.Prelude.{
  ◌≡◌, refl, true, Text, lit, text_eq, List, [], ◌∷◌, map, some, none, ◌==◌, if◌then◌else◌,
}
use blockchain_data_feeds_po.Prelude.Exec.{Error, failed, Result, ok}
use blockchain_data_feeds_po.Store.Db.{Database, SqliteStore}
use blockchain_data_feeds_po.Ui.Feeds.{Payload, stream_tick}
use blockchain_data_feeds_po.Ui.Stream.{events, handle_stream, stream, frame}
use blockchain_data_feeds_po.Ui.Stream.Frames.{event_of, handle_stream_lem}

abbrev busy : Database
busy = record { fails = λ n. if n == 1 then some (failed (lit "locked")) else none; now = λ n. 0 }

abbrev first_store : SqliteStore
first_store = record {
  db = record { logs = []; checkpoints = []; next_id = 1; mempool = [] };
  calls = 0;
}

abbrev stores : List SqliteStore
stores = first_store ∷ record first_store { calls = 1 } ∷ []

abbrev empty_list : Payload → Result Error Text
empty_list p = ok (lit "[]")

abbrev constant : Text → Text
constant t = lit "e"

abbrev silent : Error → Text
silent e = []

empty_list-IsLine : (p : Payload) (b : Text) → empty_list p ≡ ok b → IsLine b
empty_list-IsLine p b h = subst IsLine (ap or_nothing h) (refl, (refl, tt))

-- An event with the rows, and one with the error.
two_frames :
    read_events at_start (stream empty_list constant silent busy (lit "logs") [] [] stores)
    ≡ (lit "data: []" ∷ []) ∷ (lit "event: error" ∷ lit "data: e" ∷ []) ∷ []
unfolding read_events take_char stream frame stream_tick parse_int text_eq list_logs query
two_frames = refl

handle_stream_lem_example :
    (written : Text) × (handle_stream empty_list constant silent busy true
        (lit "logs")
        []
        []
        []
        stores
      ≡ events written)
    × (((lit "logs" ≡ lit "logs")
          × (read_events at_start written
              ≡ map
                  (λ (s : SqliteStore).
                    event_of empty_list constant silent
                      (shown logs (list_logs busy (limit_of (parse_int [] (pos 100))) s).0))
                  stores))
        ⊎ ((lit "logs" ≢ lit "logs")
            × (read_events at_start written
                ≡ map
                    (λ (s : SqliteStore). event_of empty_list constant silent (
                      shown mempool (list_mempool busy [] (limit_of (parse_int [] (pos 100))) s).0))
                    stores)))
handle_stream_lem_example =
    handle_stream_lem empty_list constant silent empty_list-IsLine (λ t. (refl, tt)) busy
      (lit "logs") [] [] [] (lit "logs") stores (inl (refl, refl))
