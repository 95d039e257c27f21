-- ===== src/Queue.antt =====
-- The CIRCLEQ queues of OS/hw3/queue.h (OS/hw1/queue.h is the same file), as the lists of addresses
-- that a walk over their links yields. `Queue.Links` has the macros on the links themselves.
pub mod Links
use kw_home_work.Common.{
  ℕ, ◌+◌, ◌<◌, ◌≡◌, refl, Option, none, some, List, [], ◌∷◌, ◌++◌, arith, ◌==◌, if◌then◌else◌,
  length, count,
}
use mathlib.Core.Option

-- CIRCLEQ_FIRST; `none` is the queue's own head.
unfoldable pub first : List ℕ → Option ℕ
first [] = none
first (p ∷ ps) = some p

abbrev pub insert_head : ℕ → List ℕ → List ℕ
insert_head p ps = p ∷ ps

abbrev pub insert_tail : ℕ → List ℕ → List ℕ
insert_tail p ps = ps ++ p ∷ []

-- CIRCLEQ_REMOVE. To remove an element that is not on the queue is a fault.
unfoldable pub remove : ℕ → List ℕ → Option (List ℕ)
remove p [] = none
remove p (q ∷ qs) = if q == p then some qs else Option.map (◌∷◌ q) (remove p qs)

-- The queue without the first occurrence of an element.
unfoldable pub erase : ℕ → List ℕ → List ℕ
erase p [] = []
erase p (q ∷ qs) = if q == p then qs else q ∷ erase p qs

-- The walk over a queue that stops at the first element with the key.
unfoldable pub find_by : (ℕ → ℕ) → ℕ → List ℕ → Option ℕ
find_by key k [] = none
find_by key k (p ∷ ps) = if key p == k then some p else find_by key k ps

pub remove-erase : (p : ℕ) (qs : List ℕ) → 0 < count p qs → remove p qs ≡ some (erase p qs)
unfolding remove erase count
remove-erase p [] h = absurd (omega arith)
remove-erase p (q ∷ qs) h = ground (arith, remove-erase p qs)

pub count-erase :
    (p r : ℕ) (qs : List ℕ)
    → 0 < count p qs
    → count r qs ≡ count r (erase p qs) + (if p == r then 1 else 0)
unfolding erase count
count-erase p r [] h = absurd (omega arith)
count-erase p r (q ∷ qs) h = ground (arith, count-erase p r qs)

pub length-erase : (p : ℕ) (qs : List ℕ) → 0 < count p qs → length qs ≡ length (erase p qs) + 1
unfolding erase count
length-erase p [] h = absurd (omega arith)
length-erase p (q ∷ qs) h = ground (arith, length-erase p qs)

pub first_of_count :
    (q : ℕ) (ps : List ℕ) → 0 < count q ps → (p : ℕ) × (first ps ≡ some p) × (0 < count p ps)
unfolding first count
first_of_count q [] h = absurd (omega arith)
first_of_count q (p ∷ ps) h = (p, refl, ground arith)

-- A walk finds an element of the queue with the key,
pub find_by-some :
    (key : ℕ → ℕ) (k p : ℕ) (ps : List ℕ)
    → find_by key k ps ≡ some p
    → (0 < count p ps) × (key p ≡ k)
unfolding find_by count
find_by-some key k p [] h = absurd (ground arith)
find_by-some key k p (q ∷ ps) h = ground (arith, find_by-some key k p ps)

-- finds none only if the queue has none,
pub find_by-none :
    (key : ℕ → ℕ) (k p : ℕ) (ps : List ℕ) → find_by key k ps ≡ none → 0 < count p ps → key p ≡ k → ⊥
unfolding find_by count
find_by-none key k p [] h n e = absurd (omega arith)
find_by-none key k p (q ∷ ps) h n e = ground (arith, find_by-none key k p ps)

-- and finds none if the queue has none.
pub find_by_absent :
    (key : ℕ → ℕ) (k : ℕ) (ps : List ℕ)
    → ((q : ℕ) → 0 < count q ps → key q ≡ k → ⊥)
    → find_by key k ps ≡ none
unfolding find_by count
find_by_absent key k [] h = refl
find_by_absent key k (p ∷ ps) h =
    ground (arith, h p, find_by_absent key k ps (λ q n e. h q (omega (arith, n)) e))
