-- ===== src/Ui/Stream/Reader.antt =====
-- A reader of server-sent events, as the browser is one; for handleStream in cmd/ui/main.go.
use blockchain_data_feeds_po.Prelude.{
  ℕ, ◌≡◌, refl, ◌∙◌, ap, false, ◌==◌, Text, is_empty, List, [], ◌∷◌, ◌++◌, append_assoc, append-nil,
  All, if◌then◌else◌,
}
use blockchain_data_feeds_po.Ui.Stream.{newline}

abbrev pub line_end : ℕ
line_end = 10

-- A reader in the middle of an event: its lines so far, and the line that is not ended.
pub record Reader : Type 0 where
  pub lines : List Text
  pub line : Text

abbrev pub at_start : Reader
at_start = record { lines = []; line = [] }

-- A line ends at a newline, and an event at an empty line.
unfoldable pub take_char : ℕ → Reader → List (List Text) × Reader
take_char c r =
    if c == line_end
    then (if is_empty r.line
        then (r.lines ∷ [], at_start)
        else ([], record { lines = r.lines ++ r.line ∷ []; line = [] }))
    else ([], record r { line = r.line ++ c ∷ [] })

unfoldable pub read_events : Reader → Text → List (List Text)
read_events r [] = []
read_events r (c ∷ t) = let (out, r') = take_char c r in out ++ read_events r' t

abbrev pub IsLine : Text → Type 0
IsLine t = All (λ c. (c == line_end) ≡ false) t

read_line :
    (ls : List Text) (l s t : Text)
    → IsLine s
    → read_events (record { lines = ls; line = l }) (s ++ t)
      ≡ read_events (record { lines = ls; line = l ++ s }) t
unfolding read_events take_char
read_line ls l [] t h = rw (append-nil l) refl
read_line ls l (c ∷ s) t (e, h) =
    rw (take_char, e)
      (read_line ls (l ++ c ∷ []) s t h
        ∙ ap (λ (k : Text). read_events (record { lines = ls; line = k }) t)
            (append_assoc l (c ∷ []) s))

-- A line that is not empty.
pub read_full :
    (ls : List Text) (c : ℕ) (s t : Text)
    → IsLine (c ∷ s)
    → read_events (record { lines = ls; line = [] }) ((c ∷ s) ++ newline ∷ t)
      ≡ read_events (record { lines = ls ++ (c ∷ s) ∷ []; line = [] }) t
unfolding read_events take_char
read_full ls c s t h = read_line ls [] (c ∷ s) (newline ∷ t) h ∙ refl

pub read_blank :
    (ls : List Text) (t : Text)
    → read_events (record { lines = ls; line = [] }) (newline ∷ t) ≡ ls ∷ read_events at_start t
unfolding read_events take_char
read_blank ls t = refl
