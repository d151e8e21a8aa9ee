-- ===== src/Extract/Backfill/Pool/Steps.antt =====
-- Every step of the pool of internal/extract/backfill.go keeps its invariant.
use blockchain_data_feeds_po.Store.Logs.{has_key}
use blockchain_data_feeds_po.Prelude.{
  All-at, ℕ, ◌+◌, ◌≤◌, ◌<◌, ◌≡◌, sym, ◌∙◌, subst, true, List, ◌∷◌, ◌++◌, inl, inr, arith, word, In,
  Option-cases,
}
use blockchain_data_feeds_po.Prelude.Exec.{Error, Result, ok, err, Result-cases}
use blockchain_data_feeds_po.Store.Db.{LogRow}
use blockchain_data_feeds_po.Rpc.Interface.{Log}
use blockchain_data_feeds_po.Extract.Deps.{Deps, World}
use blockchain_data_feeds_po.Extract.Chunker.{Chunker}
use blockchain_data_feeds_po.Extract.Chunker.Bounds.{IsValid, on_error-IsValid, on_success-IsValid}
use blockchain_data_feeds_po.Extract.Records.{BlockCache}
use blockchain_data_feeds_po.Extract.Range.{Round, shrunk, stored, process_chunk, chunk_end}
use blockchain_data_feeds_po.Extract.Range.Chunk.{
  process_chunk-stored, process_chunk-shrunk, chunk_end_bounds,
}
use blockchain_data_feeds_po.Extract.Range.Tiles.{Progress-chunk, Progress}
use blockchain_data_feeds_po.Extract.Range.Complete.{Serves}
use blockchain_data_feeds_po.Extract.Follow.{Settings}
use blockchain_data_feeds_po.Extract.Backfill.Pool.{
  Worker, busy, Pool, Step, report, after_round, noted, advance, close, stop, offer, take, round,
  finish, leave, cancel, Reach, here, next,
}
use blockchain_data_feeds_po.Extract.Backfill.Pool.Owed.{IsFit}
use blockchain_data_feeds_po.Extract.Backfill.Pool.Invariant.{
  Inv, Inv-close, Inv-stop, Inv-cancel, Inv-offer, Inv-take, Inv-finish, Inv-leave, Inv-fail,
  Inv-move,
}

module _ {C : Type 0} (deps : Deps C) (cfg : Settings) (chain : List Log) (l : Log) (n : ℕ) where
  abbrev pub Sound : Pool C → Type 0
  Sound s = Inv deps.chain_id l n s.producer s.workers s.slot s.canceled s.world.store.db.logs

  report_cancels : (e : Error) (s : Pool C) → Sound s → (report e s).canceled ≡ true
  unfolding report
  report_cancels e s i = elim (Option-cases s.slot) [
    | inl free ↦ ground (arith, free)
    | inr (first, taken) ↦ ground (arith, taken, i.reported first taken)
  ]

  producer-report : (e : Error) (s : Pool C) → (report e s).producer ≡ s.producer
  unfolding report
  producer-report e s = elim (Option-cases s.slot) [
    | inl free ↦ ground (arith, free)
    | inr (first, taken) ↦ ground (arith, taken)
  ]

  -- The pool behind a round with this result and these rows.
  abbrev After :
      List Worker
      → List Worker
      → Chunker
      → BlockCache
      → ℕ
      → ℕ
      → Pool C
      → Result Error Round
      → List LogRow
      → Type 0
  After front back c cache current to s r rows =
      Inv deps.chain_id l n (noted deps cfg r s).producer
        (front ++ after_round deps cfg c cache current to r ∷ back) (noted deps cfg r s).slot
        (noted deps cfg r s).canceled rows

  failed-After :
      (s : Pool C) (front back : List Worker) (c : Chunker) (cache : BlockCache) (current to : ℕ)
      (x : Error) (rows : List LogRow)
      → s.workers ≡ front ++ busy c cache current to ∷ back
      → Sound s
      → After front back c cache current to s (err x) rows
  unfolding noted after_round
  failed-After s front back c cache current to x rows at i =
      rw (report_cancels x s i, producer-report x s)
        (Inv-fail deps.chain_id l n s.producer front back (busy c cache current to) s.slot
          (report x s).slot s.canceled s.world.store.db.logs rows (rw (← at) i))

  stored_rows :
      (c c' : Chunker) (cache cache' : BlockCache) (current to after : ℕ) (w : World C)
      → Serves deps chain
      → In l chain
      → IsValid c
      → current ≤ to
      → to + 1 < word
      → (process_chunk deps c cache current to w).0 ≡ ok (stored c' cache' after)
      → IsValid c'
        × (after ≤ to + 1)
        × Progress deps.chain_id chain current after w.store.db
            (process_chunk deps c cache current to w).1.store.db
  stored_rows c c' cache cache' current to after w s mem v le fits e =
      let (logs, answer, grown, next_eq, kept) =
        process_chunk-stored deps c c' cache cache' current to after w e in
      let (built, cp, match, start, ends, saved) = kept in
      let bounds = chunk_end_bounds c current to (omega (arith, v.positive, v.above)) le fits in
      let end_next : after ≡ chunk_end c current to + 1 = next_eq ∙ omega arith in
      let first =
        Progress-chunk deps.chain_id chain logs current (chunk_end c current to) built cp _ _
          (s.complete current (chunk_end c current to) w.conn logs answer) bounds.0 match start ends
          saved in
      (
        subst IsValid (sym grown) (on_success-IsValid c v),
        omega arith,
        subst
            (λ m.
              Progress deps.chain_id chain current m w.store.db
                (process_chunk deps c cache current to w).1.store.db)
            (sym end_next) first,
      )

  round-After :
      (s : Pool C) (front back : List Worker) (c : Chunker) (cache : BlockCache) (current to : ℕ)
      (r : Round)
      → Serves deps chain
      → In l chain
      → s.workers ≡ front ++ busy c cache current to ∷ back
      → current ≤ to
      → Sound s
      → (process_chunk deps c cache current to s.world).0 ≡ ok r
      → After front back c cache current to s
          (ok r)
          (process_chunk deps c cache current to s.world).1.store.db.logs
  unfolding noted after_round
  round-After s front back c cache current to (shrunk c') serves mem at le i e =
      let (smaller, refusal, same) = process_chunk-shrunk deps c c' cache current to s.world e in
      let fit = All-at IsFit front back (busy c cache current to) (rw (← at) i.fit) in
      Inv-move deps.chain_id l n s.producer front back c c' cache cache current current to s.slot
        s.canceled s.world.store.db.logs _ (rw (← at) i)
        (subst IsValid (sym smaller) (on_error-IsValid c fit.0)) fit.1 (λ a. rw same a)
        (λ lo hi. absurd (omega arith))
  round-After s front back c cache current to (stored c' cache' after) serves mem at le i e =
      let fit = All-at IsFit front back (busy c cache current to) (rw (← at) i.fit) in
      let (valid, below, p) =
        stored_rows c c' cache cache' current to after s.world serves mem fit.0 le fit.2 e in
      Inv-move deps.chain_id l n s.producer front back c c' cache cache' current after to s.slot
        s.canceled s.world.store.db.logs _ (rw (← at) i) valid below
        (p.kept (has_key deps.chain_id l.tx_hash l.index)) (p.indexed l mem)

  advance-Sound :
      (s : Pool C) (front back : List Worker) (c : Chunker) (cache : BlockCache) (current to : ℕ)
      → Serves deps chain
      → In l chain
      → s.workers ≡ front ++ busy c cache current to ∷ back
      → current ≤ to
      → Sound s
      → Sound (advance deps cfg front back c cache current to s)
  unfolding advance
  advance-Sound s front back c cache current to serves mem at le i =
      let out = process_chunk deps c cache current to s.world in
      let rows : List LogRow = out.1.store.db.logs in
      elim (Result-cases out.0) [
        | inl (r, e) ↦
            subst (λ x. After front back c cache current to s x rows) (sym e)
              (round-After s front back c cache current to r serves mem at le i e)
        | inr (x, e) ↦
            subst (λ y. After front back c cache current to s y rows) (sym e)
              (failed-After s front back c cache current to x rows at i)
      ]

  Step-Sound :
      (s t : Pool C) → Serves deps chain → In l chain → Step deps cfg s t → Sound s → Sound t
  Step-Sound s t serves mem (close p e) i =
      subst Sound (sym e)
        (Inv-close deps.chain_id l n s.workers s.slot s.canceled s.world.store.db.logs (rw (← p) i))
  Step-Sound s t serves mem (stop rs p on e) i = subst Sound (sym e) (
      rw on (
        Inv-stop deps.chain_id l n s.producer s.workers s.slot s.world.store.db.logs (rw (← on) i)))
  Step-Sound s t serves mem (offer r rs p on e) i = subst Sound (sym e) (
      Inv-offer deps.chain_id l n r rs s.workers s.slot s.canceled s.world.store.db.logs
        (rw (← p) i))
  Step-Sound s t serves mem (take r rs front back c p at e) i = subst Sound (sym e) (
      Inv-take deps.chain_id l n r rs front back c s.slot s.canceled s.world.store.db.logs
        (rw (← p, ← at) i))
  Step-Sound s t serves mem (round front back c cache current to at le e) i =
      subst Sound (sym e) (advance-Sound s front back c cache current to serves mem at le i)
  Step-Sound s t serves mem (finish front back c cache current to at past e) i =
      subst Sound (sym e) (
        Inv-finish deps.chain_id l n s.producer front back c cache current to s.slot s.canceled
          s.world.store.db.logs (rw (← at) i) past)
  Step-Sound s t serves mem (leave front back c p at e) i = subst Sound (sym e) (
      rw p (
        Inv-leave deps.chain_id l n front back c s.slot s.canceled s.world.store.db.logs
          (rw (← p, ← at) i)))
  Step-Sound s t serves mem (cancel e) i =
      subst Sound (sym e) (
        Inv-cancel deps.chain_id l n s.producer s.workers s.slot s.canceled s.world.store.db.logs i)

  pub Reach-Sound :
      (s t : Pool C) → Serves deps chain → In l chain → Reach deps cfg s t → Sound s → Sound t
  Reach-Sound s t serves mem here i = i
  Reach-Sound s t serves mem (next r step) i =
      Step-Sound _ t serves mem step (Reach-Sound s _ serves mem r i)
