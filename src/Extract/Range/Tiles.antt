-- ===== src/Extract/Range/Tiles.antt =====
-- What a run of processRangeAdaptive, internal/extract/extract.go, does to the tables.
use blockchain_data_feeds_po.Prelude.{
  ℕ, ◌+◌, ◌≤◌, ◌<◌, ◌≡◌, refl, sym, ◌∙◌, ap, arith, List, [], ◌∷◌, ◌++◌, append-nil, append_assoc,
  ◌⊎◌, inl, inr, In, All, any, true, Bool,
}
use blockchain_data_feeds_po.Store.Types.{LogRecord, Checkpoint}
use blockchain_data_feeds_po.Store.Db.{Db, LogRow, CheckpointRow}
use blockchain_data_feeds_po.Store.Logs.{has_key, log_row}
use blockchain_data_feeds_po.Store.Logs.Merge.{merge, merge-any, merge_covers, HasKey}
use blockchain_data_feeds_po.Store.Checkpoints.{add_checkpoint}
use blockchain_data_feeds_po.Rpc.Interface.{Log}
use blockchain_data_feeds_po.Extract.Records.Match.{Match, Stands}

-- Consecutive checkpoints from block `from` up to, and without, block `stop`.
abbrev pub Tiles : ℕ → ℕ → List CheckpointRow → Type 0
Tiles from stop [] = from ≡ stop
Tiles from stop (c ∷ cs) =
    (c.start_block ≡ from) × (from ≤ c.end_block) × Tiles (c.end_block + 1) stop cs

-- The log has its row.
abbrev pub Indexed : ℕ → Log → List LogRow → Type 0
Indexed chain_id l rows = any (has_key chain_id l.tx_hash l.index) rows ≡ true

pub record Progress (chain_id : ℕ) (chain : List Log) (from stop : ℕ) (before after : Db)
    : Type 0 where
  pub rows : List CheckpointRow
  pub saved : after.checkpoints ≡ before.checkpoints ++ rows
  pub tiles : Tiles from stop rows
  pub kept : (p : LogRow → Bool) → any p before.logs ≡ true → any p after.logs ≡ true
  pub indexed :
      (l : Log)
      → In l chain
      → from ≤ l.block_number
      → l.block_number < stop
      → Indexed chain_id l after.logs

pub Tiles-le : (from stop : ℕ) (cs : List CheckpointRow) → Tiles from stop cs → from ≤ stop
Tiles-le from stop [] t = omega arith
Tiles-le from stop (c ∷ cs) t = omega (arith, Tiles-le (c.end_block + 1) stop cs t.2)

pub Tiles-append :
    (from mid stop : ℕ) (xs ys : List CheckpointRow)
    → Tiles from mid xs
    → Tiles mid stop ys
    → Tiles from stop (xs ++ ys)
Tiles-append from mid stop [] ys t u = rw t u
Tiles-append from mid stop (c ∷ xs) ys t u =
    (t.0, t.1, Tiles-append (c.end_block + 1) mid stop xs ys t.2 u)

-- Nothing happened to the checkpoints, and no row was lost.
pub Progress-none :
    (chain_id : ℕ) (chain : List Log) (from : ℕ) (before after : Db)
    → after.checkpoints ≡ before.checkpoints
    → ((p : LogRow → Bool) → any p before.logs ≡ true → any p after.logs ≡ true)
    → Progress chain_id chain from from before after
Progress-none chain_id chain from before after same kept = record {
  rows = [];
  saved = same ∙ sym (append-nil before.checkpoints);
  tiles = refl;
  kept = kept;
  indexed = λ l i p q. absurd (omega arith);
}

split_at : (n mid : ℕ) → (n < mid) ⊎ (mid ≤ n)
split_at n mid = grind arith

pub Progress-trans :
    (chain_id : ℕ) (chain : List Log) (from mid stop : ℕ) (a b c : Db)
    → Progress chain_id chain from mid a b
    → Progress chain_id chain mid stop b c
    → Progress chain_id chain from stop a c
Progress-trans chain_id chain from mid stop a b c p q = record {
  rows = p.rows ++ q.rows;
  saved =
      q.saved
      ∙ ap (λ (xs : List CheckpointRow). xs ++ q.rows) p.saved
      ∙ append_assoc a.checkpoints p.rows q.rows;
  tiles = Tiles-append from mid stop p.rows q.rows p.tiles q.tiles;
  kept = λ r h. q.kept r (p.kept r h);
  indexed = λ l i lo hi. elim (split_at l.block_number mid) [
    | inl early ↦ q.kept (has_key chain_id l.tx_hash l.index) (p.indexed l i lo early)
    | inr late ↦ q.indexed l i late hi
  ];
}

Stands-Indexed :
    (chain_id : ℕ) (l : Log) (r : LogRecord) (rows : List LogRow)
    → Stands chain_id l r
    → HasKey (log_row r) rows
    → Indexed chain_id l rows
unfolding log_row
Stands-Indexed chain_id l r rows s h = rw (← s.chain, ← s.tx, ← s.index) h

Match-Indexed :
    (chain_id : ℕ) (logs : List Log) (built : List LogRecord) (rows : List LogRow)
    → Match chain_id logs built
    → All (λ r. HasKey (log_row r) rows) built
    → (l : Log) → In l logs
    → Indexed chain_id l rows
Match-Indexed chain_id [] built rows m a l i = elim i [ ]
Match-Indexed chain_id (k ∷ logs) [] rows m a l i = absurd m
Match-Indexed chain_id (k ∷ logs) (r ∷ built) rows m a l (inl e) =
    rw e (Stands-Indexed chain_id k r rows m.0 a.0)
Match-Indexed chain_id (k ∷ logs) (r ∷ built) rows m a l (inr i) =
    Match-Indexed chain_id logs built rows m.1 a.1 l i

-- One stored chunk.
pub Progress-chunk :
    (chain_id : ℕ) (chain logs : List Log) (current end : ℕ) (built : List LogRecord)
    (cp : Checkpoint) (before after : Db)
    → ((l : Log) → In l chain → current ≤ l.block_number → l.block_number ≤ end → In l logs)
    → current ≤ end
    → Match chain_id logs built
    → cp.start_block ≡ current
    → cp.end_block ≡ end
    → after ≡ add_checkpoint cp (record before { logs = merge built before.logs })
    → Progress chain_id chain current (end + 1) before after
unfolding add_checkpoint
Progress-chunk chain_id chain logs current end built cp before after serves le m start stop e =
    rw e (record {
      rows = _ ∷ [];
      saved = refl;
      tiles = (start, rw stop le, rw stop refl);
      kept = λ p h. merge-any p built before.logs h;
      indexed = λ l i lo hi.
          Match-Indexed chain_id logs built (merge built before.logs) m
            (merge_covers built before.logs) l (serves l i lo (omega arith));
    })
