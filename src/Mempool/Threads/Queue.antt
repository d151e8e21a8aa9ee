-- ===== src/Mempool/Threads/Queue.antt =====
-- The receipt queue of internal/mempool/tracker.go in whatever state its goroutines reach.
use blockchain_data_feeds_po.Mempool.Threads.Invariant.{IsCalm, advance-Stays, Stays}
use blockchain_data_feeds_po.Prelude.{
  zero, All-at, All-swap, ℕ, suc, ◌+◌, ◌≤◌, ◌≡◌, refl, sym, ap, subst, Text, List, [], ◌∷◌, ◌++◌,
  arith, length, inl, inr, All, replicate, ◌⊎◌, ◌-◌,
}
use blockchain_data_feeds_po.Store.Types.{Time}
use blockchain_data_feeds_po.Store.Db.{Database, SqliteStore}
use blockchain_data_feeds_po.Rpc.Interface.{Rpc}
use blockchain_data_feeds_po.Mempool.Tracker.{stamped, new_tracker}
use blockchain_data_feeds_po.Mempool.Handlers.{Feed}
use blockchain_data_feeds_po.Mempool.Threads.{
  Task, caller, noting, heads, listing, worker, sweeper, expiring, System, advance, Step, call,
  head, tick, turn, Reach, here, next, start_system,
}
use blockchain_data_feeds_po.Mempool.Threads.Count.{
  count, held, all_held, all_held, all_held, all_held, all_held, all_held, all_held, all_held,
  all_held, all_held, all_held, all_held, all_held, all_held, all_held, count-nil,
}
use blockchain_data_feeds_po.Mempool.Threads.Held.{Fits, split-Fits, join-Fits}

-- The queue under the goroutines of a system, none of which gives up a hash.
pub record IsHeld {C : Type 0} (s : System C) : Type 0 where
  pub queue : Fits s.feed.tracker [] (all_held s.tasks)
  pub calm : All IsCalm s.tasks

module _ {C : Type 0} (rpc : Rpc C) (d : Database) where
  -- One goroutine steps, and the others stay.
  swap-IsHeld :
      (front behind : List Task) (x y : Task) (g : Feed C) (s t : System C)
      → s.tasks ≡ front ++ x ∷ behind
      → t ≡ record { tasks = front ++ y ∷ behind; feed = g }
      → (IsCalm x
          → Fits s.feed.tracker (held x) (all_held (front ++ behind))
          → Stays (all_held (front ++ behind)) (y, g))
      → IsHeld s
      → IsHeld t
  swap-IsHeld front behind x y g s t e same keeps i =
      let calm = subst (All IsCalm) e i.calm in
      let (fits, still) = keeps (All-at IsCalm front behind x calm) (
        split-Fits s.feed.tracker front behind x
          (subst (λ (ts : List Task). Fits s.feed.tracker [] (all_held ts)) e i.queue)) in
      subst IsHeld (sym same) (record {
        queue = join-Fits g.tracker front behind y fits;
        calm = All-swap IsCalm front behind x y calm still;
      })

  Step-IsHeld : {s t : System C} → Step rpc d s t → IsHeld s → IsHeld t
  Step-IsHeld {s} {t} (call front behind now given e same) i =
      swap-IsHeld front behind caller (noting now (stamped given now)) s.feed s t e same
        (λ c k. (k, refl)) i
  Step-IsHeld {s} {t} (head front behind e same) i =
      swap-IsHeld front behind heads listing s.feed s t e same (λ c k. (k, refl)) i
  Step-IsHeld {s} {t} (tick front behind now e same) i =
      swap-IsHeld front behind sweeper (expiring (now - s.feed.tracker.dropped_ttl)) s.feed s t e
        same (λ c k. (k, refl)) i
  Step-IsHeld {s} {t} (turn front behind x e same) i =
      swap-IsHeld front behind x (advance rpc d x s.feed).0 (advance rpc d x s.feed).1 s t e same
        (λ c k. advance-Stays rpc d x s.feed (all_held (front ++ behind)) c k) i

  Reach-IsHeld : {s t : System C} → Reach rpc d s t → IsHeld s → IsHeld t
  Reach-IsHeld here i = i
  Reach-IsHeld (next r st) i = Step-IsHeld st (Reach-IsHeld r i)

replicate-worker :
    (n k : ℕ)
    → (all_held (replicate n worker ++ replicate k caller) ≡ [])
      × All IsCalm (replicate n worker ++ replicate k caller)
unfolding all_held
replicate-worker zero zero = (refl, tt)
replicate-worker zero (suc k) = let (e, a) = replicate-worker zero k in (e, (refl, a))
replicate-worker (suc n) k = let (e, a) = replicate-worker n k in (e, (refl, a))

start-IsHeld :
    {C : Type 0} (ttl : Time) (workers max callers : ℕ) (conn : C) (store : SqliteStore)
    → IsHeld (start_system ttl workers max callers conn store)
unfolding start_system new_tracker all_held count
start-IsHeld ttl workers max callers conn store =
    let t = new_tracker ttl workers max in
    let (e, a) = replicate-worker t.receipt_workers callers in
    record {
      queue = subst (Fits t []) (sym e) (record {
        placed = λ h. omega arith;
        once = λ h. omega arith;
        sized = omega arith;
        room = omega arith;
      });
      calm = (refl, (refl, a));
    }

length-nil : (xs : List Text) → length xs ≡ 0 → xs ≡ []
length-nil [] e = refl
length-nil (x ∷ xs) e = absurd (omega (arith, e))

-- Between two calls, hashes or ticks.
abbrev pub IsIdle : Task → Type 0
IsIdle x = (x ≡ caller) ⊎ (x ≡ heads) ⊎ (x ≡ worker) ⊎ (x ≡ sweeper)

idle-held_one : (x : Task) → IsIdle x → held x ≡ []
idle-held_one x (inl e) = ap held e
idle-held_one x (inr (inl e)) = ap held e
idle-held_one x (inr (inr (inl e))) = ap held e
idle-held_one x (inr (inr (inr e))) = ap held e

idle-held : (xs : List Task) → All IsIdle xs → all_held xs ≡ []
unfolding all_held
idle-held [] a = refl
idle-held (x ∷ xs) (i, a) = simp (idle-held_one x i, idle-held xs a)

module _ {C : Type 0} (rpc : Rpc C) (d : Database) where
  -- Whatever the goroutines of a tracker that was started do, in whatever order their locked parts,
  -- statements and calls of the node come, and whatever fails: every hash in flight is in one place,
  -- in the channel or with one goroutine, and in it once, no hash is there that is not in flight,
  -- and no more are in flight than the bound. No goroutine has found the channel full. And when all
  -- are idle and the channel is empty, none is in flight.
  pub reach_lem :
      (ttl : Time) (workers max callers : ℕ) (conn : C) (store : SqliteStore) (s : System C)
      → Reach rpc d (start_system ttl workers max callers conn store) s
      → ((h : Text)
          → (count h s.feed.tracker.receipt_c + count h (all_held s.tasks)
              ≡ count h s.feed.tracker.inflight)
            × (count h s.feed.tracker.inflight ≤ 1))
        × (length s.feed.tracker.inflight ≤ s.feed.tracker.max_inflight)
        × All IsCalm s.tasks
        × (All IsIdle s.tasks → s.feed.tracker.receipt_c ≡ [] → s.feed.tracker.inflight ≡ [])
  reach_lem ttl workers max callers conn store s r =
      let i = Reach-IsHeld rpc d r (start-IsHeld ttl workers max callers conn store) in
      (
        λ h. (omega (arith, i.queue.placed h, count-nil h), i.queue.once h),
        i.queue.room,
        i.calm,
        λ idle empty.
            length-nil s.feed.tracker.inflight
              (omega (arith, i.queue.sized, ap length empty, ap length (idle-held s.tasks idle))),
      )
