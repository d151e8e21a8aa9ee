-- ===== src/Extract/Chunker/Bounds.antt =====
-- The bounds of the chunk size, and how fast it moves.
use native.Mathlib.Nat.{pow-suc}
use blockchain_data_feeds_po.Prelude.{
  ℕ, zero, suc, ◌+◌, ◌/◌, ◌*◌, ◌^◌, ◌≤◌, ◌<◌, ◌≡◌, arith, word, ◌∙◌,
}
use blockchain_data_feeds_po.Extract.Chunker.{Chunker, new_chunker, on_error, on_success}

-- The size lies between its bounds, and a growth step cannot wrap.
pub record IsValid (c : Chunker) : Type 0 where
  pub positive : 0 < c.min
  pub above : c.min ≤ c.current
  pub below : c.current ≤ c.max
  pub no_wrap : c.max + c.max / 10 + 1 < word

-- `NewChunker` yields a positive lower bound, a size between its bounds, and an upper bound above
-- which no growth step wraps, whatever the configured sizes are, as long as both configured bounds
-- leave room for a growth step.
pub new_chunker-IsValid :
    (min max start : ℕ)
    → min + min / 10 + 3 < word
    → max + max / 10 + 1 < word
    → IsValid (new_chunker min max start)
unfolding new_chunker
new_chunker-IsValid min max start p q = ground arith

-- `OnError` keeps the size between its bounds.
pub on_error-IsValid : (c : Chunker) → IsValid c → IsValid (on_error c)
unfolding on_error
on_error-IsValid c v = ground arith

-- `OnSuccess` keeps the size between its bounds.
pub on_success-IsValid : (c : Chunker) → IsValid c → IsValid (on_success c)
unfolding on_success
on_success-IsValid c v = ground arith

-- Above the lower bound an error makes the size strictly smaller.
pub on_error_shrinks :
    (c : Chunker) → IsValid c → c.min < c.current → (on_error c).current < c.current
unfolding on_error
on_error_shrinks c v h = ground arith

-- Below the upper bound a success makes the size strictly larger.
pub on_success_grows :
    (c : Chunker) → IsValid c → c.current < c.max → c.current < (on_success c).current
unfolding on_success
on_success_grows c v h = ground arith

-- At the lower bound an error changes nothing.
pub on_error_at_min : (c : Chunker) → c.current ≤ c.min → on_error c ≡ c
unfolding on_error
on_error_at_min c h = ground arith

pub iterate : ℕ → (Chunker → Chunker) → Chunker → Chunker
iterate zero f c = c
iterate (suc n) f c = iterate n f (f c)

pub min_on_error : (c : Chunker) → (on_error c).min ≡ c.min
unfolding on_error
min_on_error c = ground arith

pub max_on_error : (c : Chunker) → (on_error c).max ≡ c.max
unfolding on_error
max_on_error c = ground arith

pub min_on_success : (c : Chunker) → (on_success c).min ≡ c.min
unfolding on_success
min_on_success c = ground arith

pub max_on_success : (c : Chunker) → (on_success c).max ≡ c.max
unfolding on_success
max_on_success c = ground arith

double : (n m : ℕ) → 2 ^ suc n * m ≡ 2 * (2 ^ n * m)
double n m = rw (pow-suc 2 n) (omega arith)

le-double : (n m : ℕ) → m ≤ 2 ^ n * m
le-double zero m = omega arith
le-double (suc n) m = omega (arith, double n m, le-double n m)

halved_fits : (c : Chunker) (k : ℕ) → c.min ≤ k → c.current ≤ 2 * k → (on_error c).current ≤ k
unfolding on_error
halved_fits c k h p = ground arith

-- From a valid chunker a run of `OnError` reaches the lower bound: `n` in a row are enough if the
-- size is at most 2 ^ n times the bound.
pub errors_reach_min :
    (n : ℕ) (c : Chunker)
    → IsValid c
    → c.current ≤ 2 ^ n * c.min
    → (iterate n on_error c).current ≡ c.min
unfolding iterate
errors_reach_min zero c v h = omega arith
errors_reach_min (suc n) c v h =
    errors_reach_min n (on_error c) (on_error-IsValid c v) fits ∙ min_on_error c
  where
    fits : (on_error c).current ≤ 2 ^ n * (on_error c).min
    fits =
        rw (min_on_error c)
          (halved_fits c (2 ^ n * c.min) (le-double n c.min) (omega (arith, double n c.min)))

-- From a valid chunker a run of `OnSuccess` reaches the upper bound, in as many steps as the size
-- is below it or more.
pub successes_reach_max :
    (n : ℕ) (c : Chunker)
    → IsValid c
    → c.max ≤ c.current + n
    → (iterate n on_success c).current ≡ c.max
unfolding iterate
successes_reach_max zero c v h = omega arith
successes_reach_max (suc n) c v h =
    successes_reach_max n (on_success c) (on_success-IsValid c v)
      (unfold on_success in ground arith)
    ∙ max_on_success c

-- From a valid chunker both steps lead to a valid one; a run of `OnError` reaches the lower bound,
-- `n` in a row if the size is at most 2 ^ n times the bound; and a run of `OnSuccess` reaches the
-- upper bound, in as many steps as the size is below it or more.
pub chunker_moves :
    (n m : ℕ) (c : Chunker)
    → IsValid c
    → c.current ≤ 2 ^ n * c.min
    → c.max ≤ c.current + m
    → IsValid (on_error c)
      × IsValid (on_success c)
      × ((iterate n on_error c).current ≡ c.min)
      × ((iterate m on_success c).current ≡ c.max)
chunker_moves n m c v h k = (
  on_error-IsValid c v,
  on_success-IsValid c v,
  errors_reach_min n c v h,
  successes_reach_max m c v k,
)
