-- ===== src/Ui/Stream.antt =====
-- handleStream of cmd/ui/main.go: what it writes, tick after tick, until the request ends.
pub mod Reader
pub mod Frames
mod Tests
use blockchain_data_feeds_po.Prelude.{ℕ, Bool, Text, lit, List, [], ◌∷◌, ◌++◌, if◌then◌else◌}
use blockchain_data_feeds_po.Prelude.Exec.{Error, failed, Result, ok, err}
use blockchain_data_feeds_po.Store.Db.{Database, SqliteStore}
use blockchain_data_feeds_po.Ui.Feeds.{Payload, chosen_feed, stream_tick}

abbrev pub newline : ℕ
newline = 10

-- A response: the events, or an error with status 400.
pub data Streamed : Type 0 where
  events : Text → Streamed
  refused : Error → Streamed

-- `b, _ := json.Marshal(payload)`
abbrev pub or_nothing : Result Error Text → Text
or_nothing (ok b) = b
or_nothing (err e) = []

-- encoding/json for a payload and for a text, and the text of an error.
module _ (marshal : Payload → Result Error Text) (escape_json : Text → Text)
    (error_text : Error → Text) where
  -- What one tick writes.
  unfoldable pub frame : Result Error Payload → Text
  frame (err e) =
      lit "event: error"
      ++ newline ∷ lit "data: "
      ++ escape_json (error_text e)
      ++ newline ∷ newline ∷ []
  frame (ok payload) = lit "data: " ++ or_nothing (marshal payload) ++ newline ∷ newline ∷ []

  -- The loop; `stores` has the database at each tick until the request ends.
  unfoldable pub stream : Database → Text → Text → Text → List SqliteStore → Text
  stream d feed status limit [] = []
  stream d feed status limit (s ∷ stores) =
      frame (stream_tick d feed status limit s).0 ++ stream d feed status limit stores

  unfoldable pub handle_stream :
      Database → Bool → Text → Text → Text → Text → List SqliteStore → Streamed
  handle_stream d can_flush default feed status limit stores =
      if can_flush
      then events (stream d (chosen_feed default feed) status limit stores)
      else refused (failed (lit "streaming not supported"))
