-- ===== src/Mempool/Threads/Count.antt =====
-- How often a hash stands in the lists of internal/mempool/tracker.go.
use blockchain_data_feeds_po.Prelude.{
  ℕ, ◌+◌, ◌≡◌, refl, false, Text, List, [], ◌∷◌, ◌++◌, arith, text_eq, text_eq_iff, if◌then◌else◌,
  any, length, length-append,
}
use blockchain_data_feeds_po.Mempool.Tracker.{leave}
use blockchain_data_feeds_po.Mempool.Threads.{
  Task, sending, giving_up, asking, storing, forgetting, leaving,
}

unfoldable pub count : Text → List Text → ℕ
count h [] = 0
count h (x ∷ xs) = (if text_eq x h then 1 else 0) + count h xs

-- The number that a hash counts for another.
abbrev pub one_if : Text → Text → ℕ
one_if x h = if text_eq x h then 1 else 0

pub count-one : (h x : Text) → count h (x ∷ []) ≡ one_if x h
unfolding count
count-one h x = omega arith

pub count-nil : (h : Text) → count h [] ≡ 0
unfolding count
count-nil h = refl

pub count-cons : (h x : Text) (xs : List Text) → count h (x ∷ xs) ≡ one_if x h + count h xs
unfolding count
count-cons h x xs = refl

pub count-append : (h : Text) (xs ys : List Text) → count h (xs ++ ys) ≡ count h xs + count h ys
unfolding count
count-append h [] ys = omega arith
count-append h (x ∷ xs) ys = omega (arith, count-append h xs ys)

pub count-fresh : (h : Text) (xs : List Text) → any (λ x. text_eq x h) xs ≡ false → count h xs ≡ 0
unfolding count
count-fresh h [] n = refl
count-fresh h (x ∷ xs) n = ground (arith, count-fresh h xs)

-- The deleted hash is gone, and no other.
pub count-leave :
    (h j : Text) (xs : List Text) → count j (leave h xs) ≡ (if text_eq h j then 0 else count j xs)
unfolding count leave
count-leave h j [] = ground arith
count-leave h j (x ∷ xs) =
    ground (arith, count-leave h j xs, text_eq_iff x h, text_eq_iff h j, text_eq_iff x j)

pub length-count-leave : (h : Text) (xs : List Text) → length (leave h xs) + count h xs ≡ length xs
unfolding count leave
length-count-leave h [] = omega arith
length-count-leave h (x ∷ xs) = ground (arith, length-count-leave h xs)

-- The hash that a goroutine has taken out of the channel, or has entered and not sent yet.
abbrev pub held : Task → List Text
held (sending h k) = h ∷ []
held (giving_up h k) = h ∷ []
held (asking h) = h ∷ []
held (storing h info) = h ∷ []
held (forgetting h) = h ∷ []
held (leaving h) = h ∷ []
held _ = []

unfoldable pub all_held : List Task → List Text
all_held [] = []
all_held (x ∷ xs) = held x ++ all_held xs

-- One goroutine beside the others.
pub count-all_held :
    (h : Text) (front behind : List Task) (x : Task)
    → count h (all_held (front ++ x ∷ behind))
      ≡ count h (held x) + count h (all_held (front ++ behind))
unfolding all_held
count-all_held h [] behind x = count-append h (held x) (all_held behind)
count-all_held h (y ∷ front) behind x = omega (
  arith,
  count-append h (held y) (all_held (front ++ x ∷ behind)),
  count-append h (held y) (all_held (front ++ behind)),
  count-all_held h front behind x,
)

pub length-all_held :
    (front behind : List Task) (x : Task)
    → length (all_held (front ++ x ∷ behind))
      ≡ length (held x) + length (all_held (front ++ behind))
unfolding all_held
length-all_held [] behind x = length-append (held x) (all_held behind)
length-all_held (y ∷ front) behind x = omega (
  arith,
  length-append (held y) (all_held (front ++ x ∷ behind)),
  length-append (held y) (all_held (front ++ behind)),
  length-all_held front behind x,
)
