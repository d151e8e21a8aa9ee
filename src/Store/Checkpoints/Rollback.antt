-- ===== src/Store/Checkpoints/Rollback.antt =====
-- RollbackFrom of internal/store/sqlite.go, also when it is cut off after its first statement.
use blockchain_data_feeds_po.Prelude.{
  ◌<◌, ◌↔◌, not, leb, ℕ, ◌<◌, ◌≡◌, refl, List, [], ◌∷◌, arith, All, In, inl, inr, keep, ◌⊎◌, not,
  leb, Bool, true,
}
use blockchain_data_feeds_po.Prelude.Exec.{Error, ok, err}
use blockchain_data_feeds_po.Store.Db.{Db, LogRow, CheckpointRow, Database, SqliteStore, exec}
use blockchain_data_feeds_po.Store.Checkpoints.{delete_logs, delete_checkpoints, rollback_from}

-- The tables after both statements.
unfoldable pub rolled_back : ℕ → Db → Db
unfolding delete_logs delete_checkpoints
rolled_back block db = delete_checkpoints block (delete_logs block db)

keep-All : {A : Type 0} (p : A → Bool) (xs : List A) → All (λ x. p x ≡ true) (keep p xs)
keep-All p [] = tt
keep-All p (x ∷ xs) = ground (arith, keep-All p xs)

keep_idem : {A : Type 0} (p : A → Bool) (xs : List A) → keep p (keep p xs) ≡ keep p xs
keep_idem p [] = refl
keep_idem p (x ∷ xs) = ground (arith, keep_idem p xs)

pub keep-In :
    {A : Type 0} (p : A → Bool) (a : A) (xs : List A) → p a ≡ true → In a xs → In a (keep p xs)
keep-In p a [] h i = i
keep-In p a (x ∷ xs) h (inl e) = ground arith
keep-In p a (x ∷ xs) h (inr i) = ground (arith, keep-In p a xs h i)

pub In-keep :
    {A : Type 0} (p : A → Bool) (a : A) (xs : List A) → In a (keep p xs) → In a xs × (p a ≡ true)
In-keep p a [] i = elim i [ ]
In-keep p a (x ∷ xs) i = ground (arith, In-keep p a xs)

-- Both statements ran, or only the first, or none.
pub rollback_from_cases :
    (d : Database) (block : ℕ) (s : SqliteStore)
    → (((rollback_from d block s).0 ≡ ok tt)
        × ((rollback_from d block s).1.db ≡ rolled_back block s.db))
      ⊎ ((e : Error) × ((rollback_from d block s).0 ≡ err e)
          × (((rollback_from d block s).1.db ≡ s.db)
              ⊎ ((rollback_from d block s).1.db ≡ delete_logs block s.db)))
unfolding rollback_from rolled_back exec
rollback_from_cases d block s = ground arith

rolled_back_again :
    (block : ℕ) (db : Db) → rolled_back block (rolled_back block db) ≡ rolled_back block db
unfolding rolled_back
rolled_back_again block db = ground (
  arith,
  keep_idem (λ (r : LogRow). not (leb block r.block_number)) db.logs,
  keep_idem (λ (c : CheckpointRow). not (leb block c.start_block)) db.checkpoints,
)

rolled_back_half :
    (block : ℕ) (db : Db) → rolled_back block (delete_logs block db) ≡ rolled_back block db
unfolding rolled_back
rolled_back_half block db =
    ground (arith, keep_idem (λ (r : LogRow). not (leb block r.block_number)) db.logs)

-- A rollback that may have failed on the way, and is then repeated without an error, leaves the
-- tables of one whole rollback.
pub rollback_again :
    (d d' : Database) (block : ℕ) (s : SqliteStore)
    → (rollback_from d' block (rollback_from d block s).1).0 ≡ ok tt
    → (rollback_from d' block (rollback_from d block s).1).1.db ≡ rolled_back block s.db
rollback_again d d' block s h = ground (
  arith,
  rollback_from_cases d block s,
  rollback_from_cases d' block (rollback_from d block s).1,
  rolled_back_again block s.db,
  rolled_back_half block s.db,
)

-- After both statements of a rollback the logs are those that were below the block, and the
-- checkpoints those that started below it; the mempool table is as it was.
pub rolled_back_exact :
    (block : ℕ) (db : Db)
    → ((r : LogRow) → In r (rolled_back block db).logs ↔ (In r db.logs × (r.block_number < block)))
      × ((c : CheckpointRow)
          → In c (rolled_back block db).checkpoints
            ↔ (In c db.checkpoints × (c.start_block < block)))
      × ((rolled_back block db).mempool ≡ db.mempool)
unfolding rolled_back
rolled_back_exact block db = (
  λ r. (
    λ i. ground (arith, In-keep (λ (q : LogRow). not (leb block q.block_number)) r db.logs i),
    λ p. keep-In (λ (q : LogRow). not (leb block q.block_number)) r db.logs (ground arith) p.0,
  ),
  λ c. (
    λ i.
        ground (
          arith,
          In-keep (λ (q : CheckpointRow). not (leb block q.start_block)) c db.checkpoints i,
        ),
    λ p.
        keep-In (λ (q : CheckpointRow). not (leb block q.start_block)) c db.checkpoints
          (ground arith) p.0,
  ),
  refl,
)
