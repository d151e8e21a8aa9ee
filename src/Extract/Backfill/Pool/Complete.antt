-- ===== src/Extract/Backfill/Pool/Complete.antt =====
-- The worker pool of Backfill, internal/extract/backfill.go, indexes the range that it is given.
use blockchain_data_feeds_po.Extract.Follow.Resume.{HasRoom}
use blockchain_data_feeds_po.Prelude.{
  ℕ, ◌+◌, ◌≤◌, ◌<◌, ◌≡◌, refl, sym, subst, false, List, [], ◌∷◌, inl, inr, arith, All, word, length,
  some, In, ◌-◌, zero,
}
use blockchain_data_feeds_po.Rpc.Interface.{Log}
use blockchain_data_feeds_po.Extract.Deps.{Deps, World}
use blockchain_data_feeds_po.Extract.Chunker.{Chunker, new_chunker}
use blockchain_data_feeds_po.Extract.Chunker.Bounds.{new_chunker-IsValid}
use blockchain_data_feeds_po.Extract.Range.Tiles.{Indexed}
use blockchain_data_feeds_po.Extract.Range.Complete.{Serves}
use blockchain_data_feeds_po.Extract.Follow.{Settings}
use blockchain_data_feeds_po.Extract.Backfill.{Range, suc}
use blockchain_data_feeds_po.Extract.Backfill.Cover.{produce-Covers, Covers}
use blockchain_data_feeds_po.Extract.Backfill.Pool.{
  Worker, idle, is_gone, Pool, Reach, AllGone, start_pool, open_pool, replicate,
}
use blockchain_data_feeds_po.Extract.Backfill.Pool.Owed.{
  Covers-Holds, Covers-Fits, Any, AllGone-Carries, IsFit, Holds, left_ranges,
}
use blockchain_data_feeds_po.Extract.Backfill.Pool.Invariant.{IsGone}
use blockchain_data_feeds_po.Extract.Backfill.Pool.Steps.{Sound, Reach-Sound}

All-replicate : {A : Type 0} (P : A → Type 0) (n : ℕ) (x : A) → P x → All P (replicate n x)
All-replicate P zero x p = tt
All-replicate P (suc n) x p = (p, All-replicate P n x p)

length-replicate : {A : Type 0} (n : ℕ) (x : A) → length (replicate n x) ≡ n
length-replicate zero x = refl
length-replicate (suc n) x = omega (arith, length-replicate n x)

-- Idle workers are not gone.
idle-IsGone : (n : ℕ) (c : Chunker) → Any IsGone (replicate n (idle c)) → ⊥
unfolding is_gone
idle-IsGone zero c a = a
idle-IsGone (suc n) c (inl e) = cc
idle-IsGone (suc n) c (inr a) = idle-IsGone n c a

Any-some : (ws : List Worker) → 0 < length ws → AllGone ws → Any IsGone ws
Any-some [] h a = absurd (omega (arith, h))
Any-some (w ∷ ws) h (e, a) = inl e

module _ {C : Type 0} (deps : Deps C) (cfg : Settings) (chain : List Log) (l : Log) where
  start-Sound :
      (size from stop : ℕ) (rs : List Range) (w : World C)
      → HasRoom deps cfg
      → Covers size from stop rs
      → stop < word
      → from ≤ l.block_number
      → l.block_number < stop
      → Sound deps cfg chain l cfg.concurrency (start_pool deps cfg rs w)
  unfolding start_pool
  start-Sound size from stop rs w room covers fits lo hi =
      let c = new_chunker cfg.min_chunk_size cfg.max_chunk_size cfg.chunk_size in
      record {
        count = length-replicate cfg.concurrency (idle c);
        fit = All-replicate IsFit cfg.concurrency (idle c) (
            new_chunker-IsValid cfg.min_chunk_size cfg.max_chunk_size cfg.chunk_size room.min_room
              room.max_room);
        ranges = (Covers-Fits size from stop rs covers fits).1;
        owed = inr (inl (Covers-Holds size from stop l.block_number rs covers lo hi));
        stopped = λ g. absurd (idle-IsGone cfg.concurrency c g);
        reported = λ e h. cc;
      }

  -- A pool whose workers are all gone owes nothing more, unless it was cancelled.
  finished :
      (n : ℕ) (s : Pool C)
      → 0 < n
      → Sound deps cfg chain l n s
      → AllGone s.workers
      → s.canceled ≡ false
      → Indexed deps.chain_id l s.world.store.db.logs
  finished n s pos i left off = elim i.owed [
    | inl done ↦ done
    | inr (inl held) ↦ elim (i.stopped (Any-some s.workers (omega (arith, i.count, pos)) left)) [
      | inl e ↦ absurd (subst (λ p. Any (Holds l.block_number) (left_ranges p)) e held)
      | inr on ↦ cc
    ]
    | inr (inr (inl carried)) ↦ absurd (AllGone-Carries l.block_number s.workers left carried)
    | inr (inr (inr on)) ↦ cc
  ]

  -- If the node's answers are complete, the chunk bounds leave room for a growth step, the chunk
  -- size and the number of workers are positive, the end of the range and the chunk size leave no
  -- sum to wrap, and there is fuel for one range a block, then whatever the order of the steps of
  -- the producer and the workers: once all workers have returned and the context was not
  -- cancelled, by the caller or by an error, every log of the chain in the range is in the table.
  pub backfill_complete :
      (fuel : ℕ) (bounds : Range) (w : World C) (s0 s : Pool C)
      → Serves deps chain
      → HasRoom deps cfg
      → 0 < cfg.chunk_size
      → 0 < cfg.concurrency
      → bounds.to + cfg.chunk_size < word
      → bounds.to + 1 - bounds.from < fuel
      → open_pool deps cfg fuel bounds w ≡ some s0
      → Reach deps cfg s0 s
      → AllGone s.workers
      → s.canceled ≡ false
      → In l chain
      → bounds.from ≤ l.block_number
      → l.block_number ≤ bounds.to
      → Indexed deps.chain_id l s.world.store.db.logs
  unfolding open_pool
  backfill_complete fuel bounds w s0 s serves room size workers fits enough e r left off mem lo hi =
      let (rs, made, covers) =
        produce-Covers fuel cfg.chunk_size bounds.from bounds.to size fits (omega arith) enough in
      let begun : s0 ≡ start_pool deps cfg rs w = ground (arith, made, e) in
      finished cfg.concurrency s workers
        (Reach-Sound deps cfg chain l cfg.concurrency s0 s serves mem r (
          subst (Sound deps cfg chain l cfg.concurrency) (sym begun) (
            start-Sound cfg.chunk_size bounds.from (bounds.to + 1) rs w room covers (omega arith) lo
              (omega arith))))
        left off
