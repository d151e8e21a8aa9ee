-- ===== src/Store/Logs/Merge.antt =====
-- The rows that a batch of logs leaves in the table.
use blockchain_data_feeds_po.Prelude.{
  ◌≡◌, refl, Bool, true, false, List, [], ◌∷◌, ◌++◌, arith, any, All, In, inl, inr, text_eq_refl,
  text_eq_iff, Bool-cases,
}
use blockchain_data_feeds_po.Store.Types.{LogRecord}
use blockchain_data_feeds_po.Store.Db.{LogRow}
use blockchain_data_feeds_po.Store.Logs.{log_row, same_key, insert_row}

-- The table after the statements of a whole batch.
unfoldable pub merge : List LogRecord → List LogRow → List LogRow
merge [] rows = rows
merge (l ∷ ls) rows = merge ls (insert_row (log_row l) rows)

abbrev pub HasKey : LogRow → List LogRow → Type 0
HasKey r rows = any (same_key r) rows ≡ true

-- No two rows have one key.
abbrev pub AreDistinct : List LogRow → Type 0
AreDistinct [] = Unit
AreDistinct (r ∷ rows) = (any (same_key r) rows ≡ false) × AreDistinct rows

same_key_refl : (r : LogRow) → same_key r r ≡ true
same_key_refl r = ground (arith, text_eq_refl r.tx_hash)

same_key-sym : (r q : LogRow) → same_key r q ≡ same_key q r
same_key-sym r q = ground (arith, text_eq_iff r.tx_hash q.tx_hash, text_eq_iff q.tx_hash r.tx_hash)

any-append_true :
    (p : LogRow → Bool) (rows more : List LogRow) → any p rows ≡ true → any p (rows ++ more) ≡ true
any-append_true p [] more h = cc
any-append_true p (r ∷ rows) more h = ground (arith, any-append_true p rows more)

any-append_last :
    (p : LogRow → Bool) (r : LogRow) (rows : List LogRow)
    → p r ≡ true
    → any p (rows ++ r ∷ []) ≡ true
any-append_last p r [] h = ground arith
any-append_last p r (q ∷ rows) h = ground (arith, any-append_last p r rows)

any-append_false :
    (p : LogRow → Bool) (r : LogRow) (rows : List LogRow)
    → any p rows ≡ false
    → p r ≡ false
    → any p (rows ++ r ∷ []) ≡ false
any-append_false p r [] h e = ground arith
any-append_false p r (q ∷ rows) h e = ground (arith, any-append_false p r rows)

AreDistinct-append :
    (r : LogRow) (rows : List LogRow)
    → AreDistinct rows
    → any (same_key r) rows ≡ false
    → AreDistinct (rows ++ r ∷ [])
AreDistinct-append r [] d h = (refl, tt)
AreDistinct-append r (q ∷ rows) d h = (
  any-append_false (same_key q) r rows d.0 (ground (arith, same_key-sym q r)),
  AreDistinct-append r rows d.1 (ground arith),
)

insert_row-HasKey_self : (r : LogRow) (rows : List LogRow) → HasKey r (insert_row r rows)
unfolding insert_row
insert_row-HasKey_self r rows = elim (Bool-cases (any (same_key r) rows)) [
  | inl old ↦ rw old old
  | inr new ↦ rw new (any-append_last (same_key r) r rows (same_key_refl r))
]

insert_row-any :
    (p : LogRow → Bool) (r : LogRow) (rows : List LogRow)
    → any p rows ≡ true
    → any p (insert_row r rows) ≡ true
unfolding insert_row
insert_row-any p r rows h = elim (Bool-cases (any (same_key r) rows)) [
  | inl old ↦ rw old h
  | inr new ↦ rw new (any-append_true p rows (r ∷ []) h)
]

insert_row-AreDistinct :
    (r : LogRow) (rows : List LogRow) → AreDistinct rows → AreDistinct (insert_row r rows)
unfolding insert_row
insert_row-AreDistinct r rows d = elim (Bool-cases (any (same_key r) rows)) [
  | inl old ↦ rw old d
  | inr new ↦ rw new (AreDistinct-append r rows d new)
]

-- What a row of the table meets is met by a row after the batch.
pub merge-any :
    (p : LogRow → Bool) (ls : List LogRecord) (rows : List LogRow)
    → any p rows ≡ true
    → any p (merge ls rows) ≡ true
unfolding merge
merge-any p [] rows h = h
merge-any p (l ∷ ls) rows h =
    merge-any p ls (insert_row (log_row l) rows) (insert_row-any p (log_row l) rows h)

-- After a batch every one of its logs has a row with its key, whatever rows were there.
pub merge_covers :
    (ls : List LogRecord) (rows : List LogRow) → All (λ l. HasKey (log_row l) (merge ls rows)) ls
unfolding merge
merge_covers [] rows = tt
merge_covers (l ∷ ls) rows = (
  merge-any (same_key (log_row l)) ls (insert_row (log_row l) rows)
      (insert_row-HasKey_self (log_row l) rows),
  merge_covers ls (insert_row (log_row l) rows),
)

-- If no two rows have one key, none have after a batch, however its logs repeat.
pub merge-AreDistinct :
    (ls : List LogRecord) (rows : List LogRow) → AreDistinct rows → AreDistinct (merge ls rows)
unfolding merge
merge-AreDistinct [] rows d = d
merge-AreDistinct (l ∷ ls) rows d =
    merge-AreDistinct ls (insert_row (log_row l) rows) (insert_row-AreDistinct (log_row l) rows d)

-- After a batch every one of its logs has a row with its key, whatever rows were there; and if no
-- two rows had one key before, none have afterwards, however the logs of the batch repeat.
pub merge_lem :
    (ls : List LogRecord) (rows : List LogRow)
    → AreDistinct rows
    → All (λ l. HasKey (log_row l) (merge ls rows)) ls × AreDistinct (merge ls rows)
merge_lem ls rows d = (merge_covers ls rows, merge-AreDistinct ls rows d)

-- A batch whose keys are all in the table changes nothing.
pub merge-present :
    (ls : List LogRecord) (rows : List LogRow)
    → All (λ l. HasKey (log_row l) rows) ls
    → merge ls rows ≡ rows
unfolding merge insert_row
merge-present [] rows h = refl
merge-present (l ∷ ls) rows h = rw h.0 (merge-present ls rows h.1)

pub merge_idem :
    (ls : List LogRecord) (rows : List LogRow) → merge ls (merge ls rows) ≡ merge ls rows
merge_idem ls rows = merge-present ls (merge ls rows) (merge_covers ls rows)

-- A row that is in the table is in it unchanged after the batch.
append-In : (q : LogRow) (rows more : List LogRow) → In q rows → In q (rows ++ more)
append-In q [] more h = elim h [ ]
append-In q (r ∷ rows) more (inl e) = inl e
append-In q (r ∷ rows) more (inr h) = inr (append-In q rows more h)

insert_row-In : (q r : LogRow) (rows : List LogRow) → In q rows → In q (insert_row r rows)
unfolding insert_row
insert_row-In q r rows h = elim (Bool-cases (any (same_key r) rows)) [
  | inl old ↦ rw old h
  | inr new ↦ rw new (append-In q rows (r ∷ []) h)
]

pub merge-In :
    (q : LogRow) (ls : List LogRecord) (rows : List LogRow) → In q rows → In q (merge ls rows)
unfolding merge
merge-In q [] rows h = h
merge-In q (l ∷ ls) rows h =
    merge-In q ls (insert_row (log_row l) rows) (insert_row-In q (log_row l) rows h)
