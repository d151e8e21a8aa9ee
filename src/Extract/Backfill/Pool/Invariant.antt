-- ===== src/Extract/Backfill/Pool/Invariant.antt =====
-- What the steps of the pool keep, internal/extract/backfill.go: a log of the chain is in the
-- table, or the pool still owes its block, or it is cancelled.
use blockchain_data_feeds_po.Prelude.{
  All-at, All-swap, ℕ, ◌+◌, ◌≤◌, ◌<◌, ◌≡◌, refl, sym, ◌∙◌, true, Bool, List, [], ◌∷◌, ◌++◌, ◌⊎◌,
  inl, inr, arith, All, length, Option, some,
}
use blockchain_data_feeds_po.Prelude.Exec.{Error}
use blockchain_data_feeds_po.Store.Db.{LogRow}
use blockchain_data_feeds_po.Rpc.Interface.{Log}
use blockchain_data_feeds_po.Extract.Chunker.{Chunker}
use blockchain_data_feeds_po.Extract.Chunker.Bounds.{IsValid}
use blockchain_data_feeds_po.Extract.Records.{BlockCache}
use blockchain_data_feeds_po.Extract.Range.Tiles.{Indexed}
use blockchain_data_feeds_po.Extract.Backfill.{Range}
use blockchain_data_feeds_po.Extract.Backfill.Pool.{
  Producer, ready, sending, closed, Worker, idle, busy, gone, is_gone,
}
use blockchain_data_feeds_po.Extract.Backfill.Pool.Owed.{
  Any, left_ranges, Holds, Carries, Fits, IsFit, Any-swap, Any-at, length-swap, split_at,
}

abbrev pub IsOwed : ℕ → Log → Producer → List Worker → Bool → List LogRow → Type 0
IsOwed chain_id l p ws canceled rows =
    Indexed chain_id l rows
    ⊎ (Any (Holds l.block_number) (left_ranges p)
        ⊎ (Any (Carries l.block_number) ws ⊎ (canceled ≡ true)))

abbrev pub IsGone : Worker → Type 0
IsGone x = is_gone x ≡ true

-- `n` is the number of workers.
pub record Inv (chain_id : ℕ) (l : Log) (n : ℕ) (p : Producer) (ws : List Worker)
    (slot : Option Error) (canceled : Bool) (rows : List LogRow) : Type 0 where
  pub count : length ws ≡ n
  pub fit : All IsFit ws
  pub ranges : All Fits (left_ranges p)
  pub owed : IsOwed chain_id l p ws canceled rows
  pub stopped : Any IsGone ws → (p ≡ closed) ⊎ (canceled ≡ true)
  pub reported : (e : Error) → slot ≡ some e → canceled ≡ true

module _ (chain_id : ℕ) (l : Log) (n : ℕ) where
  pub Inv-close :
      (ws : List Worker) (slot : Option Error) (canceled : Bool) (rows : List LogRow)
      → Inv chain_id l n (ready []) ws slot canceled rows
      → Inv chain_id l n closed ws slot canceled rows
  Inv-close ws slot canceled rows i = record {
    count = i.count;
    fit = i.fit;
    ranges = tt;
    owed = i.owed;
    stopped = λ g. inl refl;
    reported = i.reported;
  }

  pub Inv-stop :
      (p : Producer) (ws : List Worker) (slot : Option Error) (rows : List LogRow)
      → Inv chain_id l n p ws slot true rows
      → Inv chain_id l n closed ws slot true rows
  Inv-stop p ws slot rows i = record {
    count = i.count;
    fit = i.fit;
    ranges = tt;
    owed = inr (inr (inr refl));
    stopped = λ g. inl refl;
    reported = λ e h. refl;
  }

  pub Inv-cancel :
      (p : Producer) (ws : List Worker) (slot : Option Error) (canceled : Bool) (rows : List LogRow)
      → Inv chain_id l n p ws slot canceled rows
      → Inv chain_id l n p ws slot true rows
  Inv-cancel p ws slot canceled rows i = record {
    count = i.count;
    fit = i.fit;
    ranges = i.ranges;
    owed = inr (inr (inr refl));
    stopped = λ g. inr refl;
    reported = λ e h. refl;
  }

  pub Inv-offer :
      (r : Range) (rs : List Range) (ws : List Worker) (slot : Option Error) (canceled : Bool)
      (rows : List LogRow)
      → Inv chain_id l n (ready (r ∷ rs)) ws slot canceled rows
      → Inv chain_id l n (sending r rs) ws slot canceled rows
  Inv-offer r rs ws slot canceled rows i = record {
    count = i.count;
    fit = i.fit;
    ranges = i.ranges;
    owed = i.owed;
    stopped = λ g. elim (i.stopped g) [ inl e ↦ cc | inr c ↦ inr c ];
    reported = i.reported;
  }

  -- One worker changes, and the rest of what it needs to.
  Inv-swap :
      (front back : List Worker) (x y : Worker) (p q : Producer) (slot slot' : Option Error)
      (canceled canceled' : Bool) (rows rows' : List LogRow)
      → Inv chain_id l n p (front ++ x ∷ back) slot canceled rows
      → IsFit y
      → All Fits (left_ranges q)
      → (p ≡ closed → q ≡ closed)
      → (canceled ≡ true → canceled' ≡ true)
      → ((e : Error) → slot' ≡ some e → canceled' ≡ true)
      → (IsGone y → (q ≡ closed) ⊎ (canceled' ≡ true))
      → (Indexed chain_id l rows → Indexed chain_id l rows')
      → (Any (Holds l.block_number) (left_ranges p)
          → IsOwed chain_id l q (front ++ y ∷ back) canceled' rows')
      → (Carries l.block_number x → IsOwed chain_id l q (front ++ y ∷ back) canceled' rows')
      → Inv chain_id l n q (front ++ y ∷ back) slot' canceled' rows'
  Inv-swap front back x y p q slot slot' canceled canceled' rows rows' i fit ranges stay on rep g
        kept held carried =
      record {
        count = sym (length-swap front back x y) ∙ i.count;
        fit = All-swap IsFit front back x y i.fit fit;
        ranges = ranges;
        owed = elim i.owed [
          | inl a ↦ inl (kept a)
          | inr (inl b) ↦ held b
          | inr (inr (inl c)) ↦ elim (Any-swap (Carries l.block_number) front back x y c) [
            | inl own ↦ carried own
            | inr other ↦ inr (inr (inl other))
          ]
          | inr (inr (inr d)) ↦ inr (inr (inr (on d)))
        ];
        stopped = λ a. elim (Any-swap IsGone front back y x a) [
          | inl own ↦ g own
          | inr other ↦ elim (i.stopped other) [ inl e ↦ inl (stay e) | inr d ↦ inr (on d) ]
        ];
        reported = rep;
      }

  pub Inv-take :
      (r : Range) (rs : List Range) (front back : List Worker) (c : Chunker) (slot : Option Error)
      (canceled : Bool) (rows : List LogRow)
      → Inv chain_id l n (sending r rs) (front ++ idle c ∷ back) slot canceled rows
      → Inv chain_id l n (ready rs) (front ++ busy c [] r.from r.to ∷ back) slot canceled rows
  unfolding is_gone
  Inv-take r rs front back c slot canceled rows i =
      Inv-swap front back (idle c) (busy c [] r.from r.to) (sending r rs) (ready rs) slot slot
        canceled canceled rows rows i
        (All-at IsFit front back (idle c) i.fit, omega (arith, i.ranges.0.0), i.ranges.0.1)
        i.ranges.1 (λ e. cc) (λ e. e) i.reported (λ e. cc) (λ a. a)
        (λ h. elim h [
          | inl own ↦
              inr
                (inr (inl (Any-at (Carries l.block_number) front back (busy c [] r.from r.to) own)))
          | inr later ↦ inr (inl later)
        ])
        (λ e. elim e [ ])

  pub Inv-finish :
      (p : Producer) (front back : List Worker) (c : Chunker) (cache : BlockCache) (current to : ℕ)
      (slot : Option Error) (canceled : Bool) (rows : List LogRow)
      → Inv chain_id l n p (front ++ busy c cache current to ∷ back) slot canceled rows
      → to < current
      → Inv chain_id l n p (front ++ idle c ∷ back) slot canceled rows
  unfolding is_gone
  Inv-finish p front back c cache current to slot canceled rows i past =
      Inv-swap front back (busy c cache current to) (idle c) p p slot slot canceled canceled rows
        rows i (All-at IsFit front back (busy c cache current to) i.fit).0 i.ranges (λ e. e)
        (λ e. e) i.reported (λ e. cc) (λ a. a) (λ h. inr (inl h)) (λ e. absurd (omega (arith, e)))

  pub Inv-leave :
      (front back : List Worker) (c : Chunker) (slot : Option Error) (canceled : Bool)
      (rows : List LogRow)
      → Inv chain_id l n closed (front ++ idle c ∷ back) slot canceled rows
      → Inv chain_id l n closed (front ++ gone ∷ back) slot canceled rows
  Inv-leave front back c slot canceled rows i =
      Inv-swap front back (idle c) gone closed closed slot slot canceled canceled rows rows i tt
        i.ranges (λ e. e) (λ e. e) i.reported (λ e. inl refl) (λ a. a) (λ h. inr (inl h))
        (λ e. elim e [ ])

  -- A worker that stays in its range, or ends with an error that cancels.
  pub Inv-fail :
      (p : Producer) (front back : List Worker) (x : Worker) (slot slot' : Option Error)
      (canceled : Bool) (rows rows' : List LogRow)
      → Inv chain_id l n p (front ++ x ∷ back) slot canceled rows
      → Inv chain_id l n p (front ++ gone ∷ back) slot' true rows'
  Inv-fail p front back x slot slot' canceled rows rows' i = record {
    count = sym (length-swap front back x gone) ∙ i.count;
    fit = All-swap IsFit front back x gone i.fit tt;
    ranges = i.ranges;
    owed = inr (inr (inr refl));
    stopped = λ a. inr refl;
    reported = λ e h. refl;
  }

  pub Inv-move :
      (p : Producer) (front back : List Worker) (c c' : Chunker) (cache cache' : BlockCache)
      (current next to : ℕ) (slot : Option Error) (canceled : Bool) (rows rows' : List LogRow)
      → Inv chain_id l n p (front ++ busy c cache current to ∷ back) slot canceled rows
      → IsValid c'
      → next ≤ to + 1
      → (Indexed chain_id l rows → Indexed chain_id l rows')
      → (current ≤ l.block_number → l.block_number < next → Indexed chain_id l rows')
      → Inv chain_id l n p (front ++ busy c' cache' next to ∷ back) slot canceled rows'
  unfolding is_gone
  Inv-move p front back c c' cache cache' current next to slot canceled rows rows' i valid le kept
        done =
      let now : Worker = busy c' cache' next to in
      let fit = All-at IsFit front back (busy c cache current to) i.fit in
      Inv-swap front back (busy c cache current to) now p p slot slot canceled canceled rows rows' i
        (valid, le, fit.2) i.ranges (λ e. e) (λ e. e) i.reported (λ e. cc) kept (λ h. inr (inl h))
        (λ (lo, hi). elim (split_at l.block_number next) [
          | inl early ↦ inl (done lo early)
          | inr late ↦ inr (inr (inl (Any-at (Carries l.block_number) front back now (late, hi))))
        ])
