-- ===== src/Threads/Ends.antt =====
-- The count and the ends of a queue of SystemSoftware/Thread-scheduler/thread.c that loses an element.
use kw_home_work.Common.{
  ℕ, suc, ◌<◌, ◌≡◌, refl, sym, ◌∙◌, Option, none, some, List, [], ◌∷◌, ◌++◌, arith, count, length,
  dec, ℤ,
}
use kw_home_work.Threads.{ThreadQueue}
use kw_home_work.Threads.Calls.{lose}
use kw_home_work.Threads.Lists.{first_or, last_or}
use kw_home_work.Threads.Append.{Ends}

length-middle :
    (xs : List ℕ) (p : ℕ) (ys : List ℕ) → length (xs ++ p ∷ ys) ≡ suc (length (xs ++ ys))
length-middle [] p ys = refl
length-middle (x ∷ xs) p ys = omega (arith, length-middle xs p ys)

pub last_or-middle :
    (b : Option ℕ) (xs : List ℕ) (p y : ℕ) (ys : List ℕ)
    → last_or b (xs ++ y ∷ ys) ≡ last_or b (xs ++ p ∷ y ∷ ys)
unfolding last_or
last_or-middle b [] p y ys = refl
last_or-middle b (x ∷ xs) p y ys = last_or-middle (some x) xs p y ys

pub last_or-nil : (b : Option ℕ) (xs : List ℕ) → last_or b xs ≡ last_or b (xs ++ [])
unfolding last_or
last_or-nil b [] = refl
last_or-nil b (x ∷ xs) = last_or-nil (some x) xs

pub last_or-some :
    (x : ℕ) (xs : List ℕ) → (a : ℕ) × (last_or (some x) xs ≡ some a) × (0 < count a (x ∷ xs))
unfolding last_or count
last_or-some x [] = (x, refl, ground arith)
last_or-some x (y ∷ xs) = let (a, e, n) = last_or-some y xs in (a, e, ground (arith, n))

pub counted-lose :
    (xs : List ℕ) (p : ℕ) (ys : List ℕ) (n : ℤ)
    → n ≡ ℤ.pos (length (xs ++ p ∷ ys))
    → dec n ≡ ℤ.pos (length (xs ++ ys))
counted-lose xs p ys n e = rw (e, length-middle xs p ys, dec) refl

-- The head of the queue moved on past its first element,
pub Ends-first :
    (p : ℕ) (ys : List ℕ) (o : Option ℕ) (q : ThreadQueue)
    → Ends q (p ∷ ys)
    → o ≡ first_or none ys
    → Ends (lose (record q { head = o })) ys
unfolding first_or last_or
Ends-first p [] o q n e = record {
  counted = counted-lose [] p [] q.queue_count n.counted;
  at_head = λ r k. e ∙ k;
  at_tail = λ r k. absurd (ground (arith, k));
}
Ends-first p (y ∷ ys) o q n e = record {
  counted = counted-lose [] p (y ∷ ys) q.queue_count n.counted;
  at_head = λ r k. e ∙ k;
  at_tail = λ r k. n.at_tail r k;
}

-- the tail moved back from its last,
pub Ends-last :
    (x : ℕ) (xs : List ℕ) (p : ℕ) (o : Option ℕ) (q : ThreadQueue)
    → Ends q (x ∷ xs ++ p ∷ [])
    → o ≡ last_or (some x) xs
    → Ends (lose (record q { tail = o })) (x ∷ xs ++ [])
unfolding first_or last_or
Ends-last x xs p o q n e = record {
  counted = counted-lose (x ∷ xs) p [] q.queue_count n.counted;
  at_head = λ r k. n.at_head r k;
  at_tail = λ r k. e ∙ last_or-nil (some x) xs ∙ k;
}

-- and a queue that loses an element from between.
pub Ends-middle :
    (x : ℕ) (xs : List ℕ) (p y : ℕ) (ys : List ℕ) (q : ThreadQueue)
    → Ends q (x ∷ xs ++ p ∷ y ∷ ys)
    → Ends (lose q) (x ∷ xs ++ y ∷ ys)
unfolding first_or last_or
Ends-middle x xs p y ys q n = record {
  counted = counted-lose (x ∷ xs) p (y ∷ ys) q.queue_count n.counted;
  at_head = λ r k. n.at_head r k;
  at_tail = λ r k. n.at_tail r (sym (last_or-middle (some x) xs p y ys) ∙ k);
}

pub Ends-empty :
    (p : ℕ) (o : Option ℕ) (q : ThreadQueue)
    → Ends q (p ∷ [])
    → Ends (lose (record q { tail = o })) []
unfolding first_or last_or
Ends-empty p o q n = record {
  counted = counted-lose [] p [] q.queue_count n.counted;
  at_head = λ r k. absurd (ground (arith, k));
  at_tail = λ r k. absurd (ground (arith, k));
}
