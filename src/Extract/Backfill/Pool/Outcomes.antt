-- ===== src/Extract/Backfill/Pool/Outcomes.antt =====
-- How the pool of Backfill, internal/extract/backfill.go, ends.
use blockchain_data_feeds_po.Prelude.{
  All-at, ℕ, ◌≡◌, refl, sym, ◌∙◌, ap, subst, true, false, List, ◌∷◌, ◌++◌, arith, some, none,
}
use blockchain_data_feeds_po.Prelude.Exec.{Error, Result, ok, err}
use blockchain_data_feeds_po.Extract.Deps.{Deps}
use blockchain_data_feeds_po.Extract.Chunker.{Chunker}
use blockchain_data_feeds_po.Extract.Records.{BlockCache}
use blockchain_data_feeds_po.Extract.Range.{Round, process_chunk}
use blockchain_data_feeds_po.Extract.Follow.{Settings}
use blockchain_data_feeds_po.Extract.Backfill.{Range}
use blockchain_data_feeds_po.Extract.Backfill.Pool.{
  sending, Worker, idle, busy, is_gone, Pool, Step, report, noted, advance, close, stop, offer,
  take, round, finish, leave, cancel, Reach, here, next, AllGone, pool_result,
}
use blockchain_data_feeds_po.Extract.Backfill.Pool.Owed.{}
use blockchain_data_feeds_po.Extract.Backfill.Pool.Invariant.{IsGone}

module _ {C : Type 0} (deps : Deps C) (cfg : Settings) where
  noted_keeps :
      (r : Result Error Round) (s : Pool C) (e : Error)
      → s.slot ≡ some e
      → ((noted deps cfg r s).slot ≡ some e) × ((noted deps cfg r s).canceled ≡ s.canceled)
  unfolding noted report
  noted_keeps (ok r) s e h = (h, refl)
  noted_keeps (err x) s e h = (rw h refl, rw h refl)

  step_keeps : (s t : Pool C) (e : Error) → Step deps cfg s t → s.slot ≡ some e → t.slot ≡ some e
  unfolding advance
  step_keeps s t e (close p q) h = ap (λ u. u.slot) q ∙ h
  step_keeps s t e (stop rs p on q) h = ap (λ u. u.slot) q ∙ h
  step_keeps s t e (offer r rs p off q) h = ap (λ u. u.slot) q ∙ h
  step_keeps s t e (take r rs front back c p at q) h = ap (λ u. u.slot) q ∙ h
  step_keeps s t e (round front back c cache current to at le q) h =
      ap (λ u. u.slot) q ∙ (noted_keeps (process_chunk deps c cache current to s.world).0 s e h).0
  step_keeps s t e (finish front back c cache current to at past q) h = ap (λ u. u.slot) q ∙ h
  step_keeps s t e (leave front back c p at q) h = ap (λ u. u.slot) q ∙ h
  step_keeps s t e (cancel q) h = ap (λ u. u.slot) q ∙ h

  slot_kept : (s t : Pool C) (e : Error) → Reach deps cfg s t → s.slot ≡ some e → t.slot ≡ some e
  slot_kept s t e here h = h
  slot_kept s t e (next r step) h = step_keeps _ t e step (slot_kept s _ e r h)

  -- A round that fails while no error is in the channel is the one whose error Backfill returns,
  -- whatever the other workers, the producer and the caller do behind it; the round also cancels.
  pub first_error :
      (s t : Pool C) (front back : List Worker) (c : Chunker) (cache : BlockCache) (current to : ℕ)
      (x : Error)
      → s.slot ≡ none
      → (process_chunk deps c cache current to s.world).0 ≡ err x
      → Reach deps cfg (advance deps cfg front back c cache current to s) t
      → (pool_result t ≡ err x)
        × ((advance deps cfg front back c cache current to s).canceled ≡ true)
  unfolding pool_result advance noted report
  first_error s t front back c cache current to x free failed r =
      let kept =
        slot_kept (advance deps cfg front back c cache current to s) t x r
          (rw (failed, free) refl) in
      (rw kept refl, rw (failed, free) refl)

  busy_gone :
      (front back : List Worker) (x : Worker) → is_gone x ≡ false → AllGone (front ++ x ∷ back) → ⊥
  busy_gone front back x e a = cc (e, All-at IsGone front back x a)

  -- A state in which all workers have returned and the producer has a range to send.
  abbrev Stuck : Pool C → Type 0
  Stuck s = AllGone s.workers × ((r : Range) × (rs : List Range) × (s.producer ≡ sending r rs))

  step-Stuck : (s t : Pool C) → Step deps cfg s t → Stuck s → Stuck t
  unfolding is_gone
  step-Stuck s t (close p q) (a, (r, rs, e)) = absurd (ground (arith, p, e))
  step-Stuck s t (stop ss p on q) (a, (r, rs, e)) = absurd (ground (arith, p, e))
  step-Stuck s t (offer k ks p off q) (a, (r, rs, e)) = absurd (ground (arith, p, e))
  step-Stuck s t (take k ks front back c p at q) (a, (r, rs, e)) =
      absurd (busy_gone front back (idle c) refl (rw (← at) a))
  step-Stuck s t (round front back c cache current to at le q) (a, (r, rs, e)) =
      absurd (busy_gone front back (busy c cache current to) refl (rw (← at) a))
  step-Stuck s t (finish front back c cache current to at past q) (a, (r, rs, e)) =
      absurd (busy_gone front back (busy c cache current to) refl (rw (← at) a))
  step-Stuck s t (leave front back c p at q) (a, (r, rs, e)) = absurd (ground (arith, p, e))
  step-Stuck s t (cancel q) st = subst Stuck (sym q) st

  -- Once all workers have returned while the producer is at its send, the producer never gets on:
  -- in whatever state the pool comes to, it still stands at a send, and Backfill has its result.
  pub producer_leaks :
      (s t : Pool C) (r : Range) (rs : List Range)
      → AllGone s.workers
      → s.producer ≡ sending r rs
      → Reach deps cfg s t
      → AllGone t.workers × ((k : Range) × (ks : List Range) × (t.producer ≡ sending k ks))
  producer_leaks s t r rs a e here = (a, (r, rs, e))
  producer_leaks s t r rs a e (next w step) = step-Stuck _ t step (producer_leaks s _ r rs a e w)
