-- ===== src/Tests/Links.antt =====
-- The CIRCLEQ macros of OS/hw3/queue.h on the links of a queue of two elements.
use kw_home_work.Common.{
  ◌==◌, if◌then◌else◌, Option, ◌>>=◌, List, ℕ, ◌≡◌, refl, none, some, [], ◌∷◌, arith, count,
}
use kw_home_work.Queue.Links.{Links, unlink, link_after, link_before, walk}
use kw_home_work.Queue.Links.Circle.{Circle}
use kw_home_work.Queue.Links.Refinement.{Refines, Circle-Refines}
use kw_home_work.Threads.Lists.{Segment, first_or, last_or}

abbrev two : Links
two = record {
  first = some 5;
  last = some 7;
  next = λ p. if p == 5 then some 7 else none;
  prev = λ p. if p == 7 then some 5 else none;
}

two_visited : walk 2 two.first two ≡ some (5 ∷ 7 ∷ [])
unfolding walk
two_visited = refl

walked : ℕ → Option Links → Option (List ℕ)
walked n o = do l ← o; walk n l.first l

two_after : walked 3 (link_after 5 6 two) ≡ some (5 ∷ 6 ∷ 7 ∷ [])
unfolding walked walk link_after
two_after = refl

two_after_last : walked 3 (link_after 7 8 two) ≡ some (5 ∷ 7 ∷ 8 ∷ [])
unfolding walked walk link_after
two_after_last = refl

two_before : walked 3 (link_before 5 4 two) ≡ some (4 ∷ 5 ∷ 7 ∷ [])
unfolding walked walk link_before
two_before = refl

two_unlinked : walked 1 (unlink 5 two) ≡ some (7 ∷ [])
unfolding walked walk unlink
two_unlinked = refl

two-Circle : Circle two (5 ∷ 7 ∷ [])
unfolding Segment first_or last_or
two-Circle = record { at_first = refl; at_last = refl; linked = (refl, refl, (refl, refl, refl)) }

Circle-Refines_example : Refines two (5 ∷ 7 ∷ [])
unfolding count
Circle-Refines_example = Circle-Refines two (5 ∷ 7 ∷ []) two-Circle (λ r. ground arith)
