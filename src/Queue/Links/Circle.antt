-- ===== src/Queue/Links/Circle.antt =====
-- When the links of the CIRCLEQ queues of OS/hw3/queue.h show a list, and a walk over them.
use kw_home_work.Common.{ℕ, ◌≡◌, refl, Option, none, some, List, [], ◌∷◌, ◌>>=◌, length}
use kw_home_work.Queue.Links.{Links, init, walk}
use kw_home_work.Threads.{Heap}
use kw_home_work.Threads.Lists.{first_or, last_or, Segment}

-- The links of a queue are those of a heap with no threads.
abbrev pub heap : Links → Heap
heap l = record { thread = λ p. none; prev = l.prev; next = l.next }

-- The elements are linked in a circle through the head, in the order of the list.
pub record Circle (l : Links) (ps : List ℕ) : Type 0 where
  pub at_first : l.first ≡ first_or none ps
  pub at_last : l.last ≡ last_or none ps
  pub linked : Segment (heap l) none ps none

pub walk-list :
    (l : Links) (b : Option ℕ) (ps : List ℕ)
    → Segment (heap l) b ps none
    → walk (length ps) (first_or none ps) l ≡ some ps
unfolding walk Segment first_or
walk-list l b [] s = refl
walk-list l b (p ∷ ps) (e, f, s) = rw (f, walk-list l (some p) ps s, ◌>>=◌) refl

pub init-Circle : (l : Links) → Circle (init l) []
unfolding init first_or last_or Segment
init-Circle l = record { at_first = refl; at_last = refl; linked = refl }
