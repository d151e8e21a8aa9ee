-- ===== src/Ui/Stream/Frames.antt =====
-- What a reader of server-sent events makes of handleStream in cmd/ui/main.go.
use blockchain_data_feeds_po.Ui.Stream.Reader.{read_events, at_start, IsLine, read_full, read_blank}
use blockchain_data_feeds_po.Store.Logs.{list_logs}
use blockchain_data_feeds_po.Store.Mempool.{list_mempool}
use blockchain_data_feeds_po.Ui.Numbers.{parse_int, limit_of}
use blockchain_data_feeds_po.Ui.Feeds.{logs, mempool}
use blockchain_data_feeds_po.Prelude.{
  arith, ◌≢◌, ◌⊎◌, Bool-cases, List-cases, text_eq, text_eq_iff, pos, ◌≡◌, refl, ◌∙◌, ap, true,
  Text, lit, List, [], ◌∷◌, ◌++◌, append_assoc, map, inl, inr,
}
use blockchain_data_feeds_po.Prelude.Exec.{Error, Result, ok, err, Result-cases}
use blockchain_data_feeds_po.Store.Db.{Database, SqliteStore}
use blockchain_data_feeds_po.Ui.Feeds.{Payload, chosen_feed, stream_tick}
use blockchain_data_feeds_po.Ui.Stream.{newline, events, or_nothing, frame, stream, handle_stream}

-- A payload is read from a line of its JSON, and an error from a line behind its name.
unfoldable pub event_of :
    (Payload → Result Error Text)
    → (Text → Text)
    → (Error → Text)
    → Result Error Payload
    → List Text
event_of marshal escape_json error_text (ok payload) = elim (marshal payload) [
  | ok b ↦ (lit "data: " ++ b) ∷ []
  | err e ↦ lit "data: " ∷ []
]
event_of marshal escape_json error_text (err e) =
    lit "event: error" ∷ (lit "data: " ++ escape_json (error_text e)) ∷ []

-- What a query of the database shows.
abbrev pub shown : {A : Type 0} → (A → Payload) → Result Error A → Result Error Payload
shown make (ok rows) = ok (make rows)
shown make (err e) = err e

-- The feed of the query, or the configured one where the query names none.
abbrev pub Chooses : Text → Text → Text → Type 0
Chooses default feed name = ((feed ≡ []) × (name ≡ default)) ⊎ ((feed ≢ []) × (name ≡ feed))

map_same : {A B : Type 0} (f g : A → B) (xs : List A) → ((x : A) → f x ≡ g x) → map f xs ≡ map g xs
map_same f g [] h = refl
map_same f g (x ∷ xs) h = cc (h x, map_same f g xs h)

name-IsLine : IsLine (lit "event: error")
name-IsLine = (
  refl,
  (refl, (refl, (refl, (refl, (refl, (refl, (refl, (refl, (refl, (refl, (refl, tt))))))))))),
)

data-IsLine : (s : Text) → IsLine s → IsLine (lit "data: " ++ s)
data-IsLine s h = (refl, (refl, (refl, (refl, (refl, (refl, h))))))

module _ (marshal : Payload → Result Error Text) (escape_json : Text → Text)
    (error_text : Error → Text) (one_line : (p : Payload) (b : Text) → marshal p ≡ ok b → IsLine b)
    (escaped : (t : Text) → IsLine (escape_json t)) where
  or_nothing-IsLine : (p : Payload) → IsLine (or_nothing (marshal p))
  or_nothing-IsLine p = elim (Result-cases (marshal p)) [
    | inl (b, e) ↦ rw e (one_line p b e)
    | inr (x, e) ↦ rw e tt
  ]

  event-or_nothing :
      (p : Payload)
      → (lit "data: " ++ or_nothing (marshal p)) ∷ []
        ≡ event_of marshal escape_json error_text (ok p)
  unfolding event_of
  event-or_nothing p = elim (Result-cases (marshal p)) [
    | inl (b, e) ↦ rw (e, event_of) refl
    | inr (x, e) ↦ rw (e, event_of) refl
  ]

  read_data :
      (ls : List Text) (s t : Text)
      → IsLine s
      → read_events
          (record { lines = ls; line = [] })
          ((lit "data: " ++ s) ++ newline ∷ newline ∷ t)
        ≡ (ls ++ (lit "data: " ++ s) ∷ []) ∷ read_events at_start t
  read_data ls s t h =
      read_full ls 100 (lit "ata: " ++ s) (newline ∷ t) (data-IsLine s h)
      ∙ read_blank (ls ++ (lit "data: " ++ s) ∷ []) t

  read_frame :
      (r : Result Error Payload) (t : Text)
      → read_events at_start (frame marshal escape_json error_text r ++ t)
        ≡ event_of marshal escape_json error_text r ∷ read_events at_start t
  unfolding frame event_of
  read_frame (ok p) t =
      ap (read_events at_start)
        (append_assoc (lit "data: " ++ or_nothing (marshal p)) (newline ∷ newline ∷ []) t)
      ∙ read_data [] (or_nothing (marshal p)) t (or_nothing-IsLine p)
      ∙ ap (λ (k : List Text). k ∷ read_events at_start t) (event-or_nothing p)
  read_frame (err e) t =
      let s = escape_json (error_text e) in
      ap (λ (k : Text). read_events at_start (lit "event: error" ++ newline ∷ k))
        (append_assoc (lit "data: " ++ s) (newline ∷ newline ∷ []) t)
      ∙ read_full [] 101 (lit "vent: error") ((lit "data: " ++ s) ++ newline ∷ newline ∷ t)
          name-IsLine
      ∙ read_data (lit "event: error" ∷ []) s t (escaped (error_text e))

  stream-events :
      (d : Database) (feed status limit : Text) (stores : List SqliteStore)
      → read_events at_start (stream marshal escape_json error_text d feed status limit stores)
        ≡ map
            (λ (s : SqliteStore).
              event_of marshal escape_json error_text (stream_tick d feed status limit s).0)
            stores
  unfolding stream read_events
  stream-events d feed status limit [] = refl
  stream-events d feed status limit (s ∷ stores) =
      read_frame (stream_tick d feed status limit s).0
        (stream marshal escape_json error_text d feed status limit stores)
      ∙ ap
          (λ (k : List (List Text)).
            event_of marshal escape_json error_text (stream_tick d feed status limit s).0 ∷ k)
          (stream-events d feed status limit stores)

  tick_logs :
      (d : Database) (status limit : Text) (s : SqliteStore)
      → (stream_tick d (lit "logs") status limit s).0
        ≡ shown logs (list_logs d (limit_of (parse_int limit (pos 100))) s).0
  unfolding stream_tick text_eq
  tick_logs d status limit s =
      elim (Result-cases (list_logs d (limit_of (parse_int limit (pos 100))) s).0) [
        | inl (rows, e) ↦ ground (arith, e)
        | inr (x, e) ↦ ground (arith, e)
      ]

  tick_mempool :
      (d : Database) (feed status limit : Text) (s : SqliteStore)
      → feed ≢ lit "logs"
      → (stream_tick d feed status limit s).0
        ≡ shown mempool (list_mempool d status (limit_of (parse_int limit (pos 100))) s).0
  unfolding stream_tick
  tick_mempool d feed status limit s other = elim (Bool-cases (text_eq feed (lit "logs"))) [
    | inl e ↦ absurd (other ((text_eq_iff feed (lit "logs")).0 e))
    | inr e ↦
        elim (Result-cases (list_mempool d status (limit_of (parse_int limit (pos 100))) s).0) [
          | inl (rows, f) ↦ ground (arith, e, f)
          | inr (x, f) ↦ ground (arith, e, f)
        ]
  ]

  chosen : (default feed name : Text) → Chooses default feed name → chosen_feed default feed ≡ name
  unfolding chosen_feed
  chosen default feed name (inl (e, f)) = ground (arith, e, f)
  chosen default feed name (inr (n, f)) = elim (List-cases feed) [
    | inl e ↦ absurd (n e)
    | inr (c, cs, e) ↦ ground (arith, e, f)
  ]

  -- Let the JSON of a payload and of a text have no newline, and the response be one that can be
  -- flushed. A reader of server-sent events, for which a line ends at a newline and an event at an
  -- empty line, then reads from a stream one event a tick and nothing else, in the order of the
  -- ticks. The feed is that of the query or, where the query names none, the configured one. Where
  -- it is `logs`, an event is the JSON of what ListLogs returns at the tick; for any other name it
  -- is the JSON of what ListMempool returns for the status, both with the limit of the query or 100;
  -- and where that returns an error, it is the error under the name `error`, which does not end the
  -- stream.
  pub handle_stream_lem :
      (d : Database) (default feed status limit name : Text) (stores : List SqliteStore)
      → Chooses default feed name
      → (written : Text) × (handle_stream marshal escape_json error_text d true default feed status
            limit stores
          ≡ events written)
        × (((name ≡ lit "logs")
              × (read_events at_start written
                  ≡ map
                      (λ (s : SqliteStore).
                        event_of marshal escape_json error_text
                          (shown logs (list_logs d (limit_of (parse_int limit (pos 100))) s).0))
                      stores))
            ⊎ ((name ≢ lit "logs")
                × (read_events at_start written
                    ≡ map
                        (λ (s : SqliteStore). event_of marshal escape_json error_text (
                          shown mempool
                            (list_mempool d status (limit_of (parse_int limit (pos 100))) s).0))
                        stores)))
  unfolding handle_stream
  handle_stream_lem d default feed status limit name stores c = (
    stream marshal escape_json error_text d name status limit stores,
    rw (chosen default feed name c) refl,
    elim (Bool-cases (text_eq name (lit "logs"))) [
      | inl e ↦
          let is_logs = (text_eq_iff name (lit "logs")).0 e in
          inl (
            is_logs,
            rw is_logs (
                stream-events d (lit "logs") status limit stores
                ∙ map_same _ _ stores (λ s.
                  ap (event_of marshal escape_json error_text) (tick_logs d status limit s))),
          )
      | inr e ↦
          let other : name ≢ lit "logs" =
            λ k. ground (arith, e, text_eq_iff name (lit "logs"), k) in
          inr (
            other,
            stream-events d name status limit stores
                ∙ map_same _ _ stores (λ s.
                  ap (event_of marshal escape_json error_text)
                    (tick_mempool d name status limit s other)),
          )
    ],
  )
