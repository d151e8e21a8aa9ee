-- ===== src/Extract/Backfill/Pool.antt =====
-- The worker pool of Backfill, internal/extract/backfill.go, as steps in any order.
-- A step of a worker is one round of its range. The context only tells the producer to stop: the
-- calls of a worker may fail at any time, so a cancelled context needs no case of its own there.
pub mod Owed
pub mod Invariant
pub mod Steps
pub mod Complete
pub mod Outcomes
mod Gap
mod Tests
use blockchain_data_feeds_po.Prelude.{
  ℕ, ◌≤◌, ◌<◌, ◌≡◌, Bool, true, false, Option, none, some, List, [], ◌∷◌, ◌++◌, ltb, if◌then◌else◌,
  All, replicate,
}
use blockchain_data_feeds_po.Prelude.Exec.{Error, Result, ok, err}
use blockchain_data_feeds_po.Extract.Deps.{Deps, World}
use blockchain_data_feeds_po.Extract.Chunker.{Chunker, new_chunker}
use blockchain_data_feeds_po.Extract.Records.{BlockCache}
use blockchain_data_feeds_po.Extract.Range.{Round, shrunk, stored, process_chunk}
use blockchain_data_feeds_po.Extract.Follow.{Settings}
use blockchain_data_feeds_po.Extract.Backfill.{Range, produce}

-- The goroutine that sends the jobs: before its test of the context, at the send, or returned.
pub data Producer : Type 0 where
  ready : List Range → Producer
  sending : Range → List Range → Producer
  closed : Producer

-- A worker: at the receive, in a range with its `current` and `to`, or returned.
pub data Worker : Type 0 where
  idle : Chunker → Worker
  busy : Chunker → BlockCache → ℕ → ℕ → Worker
  gone : Worker

-- `slot` is the channel of one error.
pub record Pool (C : Type 0) : Type 0 where
  pub producer : Producer
  pub workers : List Worker
  pub slot : Option Error
  pub canceled : Bool
  pub world : World C

module _ {C : Type 0} where
  -- The first error takes the slot and cancels; a later one is dropped.
  unfoldable pub report : Error → Pool C → Pool C
  report e s = elim s.slot [ none ↦ record s { slot = some e; canceled = true } | some first ↦ s ]

module _ {C : Type 0} (deps : Deps C) (cfg : Settings) where
  unfoldable pub after_round : Chunker → BlockCache → ℕ → ℕ → Result Error Round → Worker
  after_round c cache current to (err e) = gone
  after_round c cache current to (ok (shrunk c')) = busy c' cache current to
  after_round c cache current to (ok (stored c' cache' next)) = busy c' cache' next to

  unfoldable pub noted : Result Error Round → Pool C → Pool C
  noted (err e) s = report e s
  noted (ok round) s = s

  -- One round of the worker that stands between `front` and `back`.
  unfoldable pub advance :
      List Worker → List Worker → Chunker → BlockCache → ℕ → ℕ → Pool C → Pool C
  advance front back c cache current to s =
      let (r, w) = process_chunk deps c cache current to s.world in
      record (noted r s) { workers = front ++ after_round c cache current to r ∷ back; world = w }

  pub data Step (s t : Pool C) : Type 0 where
    close : s.producer ≡ ready [] → t ≡ record s { producer = closed } → Step s t
    stop :
        (rs : List Range)
        → s.producer ≡ ready rs
        → s.canceled ≡ true
        → t ≡ record s { producer = closed }
        → Step s t
    offer :
        (r : Range) (rs : List Range)
        → s.producer ≡ ready (r ∷ rs)
        → s.canceled ≡ false
        → t ≡ record s { producer = sending r rs }
        → Step s t
    take :
        (r : Range) (rs : List Range) (front back : List Worker) (c : Chunker)
        → s.producer ≡ sending r rs
        → s.workers ≡ front ++ idle c ∷ back
        → t ≡ record s { producer = ready rs; workers = front ++ busy c [] r.from r.to ∷ back }
        → Step s t
    round :
        (front back : List Worker) (c : Chunker) (cache : BlockCache) (current to : ℕ)
        → s.workers ≡ front ++ busy c cache current to ∷ back
        → current ≤ to
        → t ≡ advance front back c cache current to s
        → Step s t
    finish :
        (front back : List Worker) (c : Chunker) (cache : BlockCache) (current to : ℕ)
        → s.workers ≡ front ++ busy c cache current to ∷ back
        → to < current
        → t ≡ record s { workers = front ++ idle c ∷ back }
        → Step s t
    leave :
        (front back : List Worker) (c : Chunker)
        → s.producer ≡ closed
        → s.workers ≡ front ++ idle c ∷ back
        → t ≡ record s { workers = front ++ gone ∷ back }
        → Step s t
    cancel : t ≡ record s { canceled = true } → Step s t

  pub data Reach (s : Pool C) : Pool C → Type 0 where
    here : Reach s s
    next : {t u : Pool C} → Reach s t → Step t u → Reach s u

  unfoldable pub start_pool : List Range → World C → Pool C
  start_pool rs w = record {
    producer = ready rs;
    workers =
        replicate cfg.concurrency
          (idle (new_chunker cfg.min_chunk_size cfg.max_chunk_size cfg.chunk_size));
    slot = none;
    canceled = false;
    world = w;
  }

  -- Backfill behind its bounds: nothing to do, or the pool on the ranges. `none`: out of fuel.
  unfoldable pub open_pool : ℕ → Range → World C → Option (Pool C)
  open_pool fuel bounds w =
      if ltb bounds.to bounds.from
      then some
          (record { producer = closed; workers = []; slot = none; canceled = false; world = w })
      else elim (produce fuel cfg.chunk_size bounds.from bounds.to) [
        | none ↦ none
        | some rs ↦ some (start_pool rs w)
      ]

-- `wg.Wait()` returns: then the slot is the result of Backfill.
unfoldable pub is_gone : Worker → Bool
is_gone gone = true
is_gone (idle c) = false
is_gone (busy c cache current to) = false

abbrev pub AllGone : List Worker → Type 0
AllGone ws = All (λ x. is_gone x ≡ true) ws

-- What Backfill returns once `wg.Wait()` has.
unfoldable pub pool_result : {C : Type 0} → Pool C → Result Error (Unit {0})
pool_result s = elim s.slot [ none ↦ ok tt | some e ↦ err e ]
