-- ===== src/Queue/Links.antt =====
-- The CIRCLEQ macros of OS/hw3/queue.h on the links themselves. A pointer to the head of the queue is
-- `none`; to write a link of an element through it is a fault.
pub mod Circle
pub mod Inserting
pub mod Unlinking
pub mod Refinement
use kw_home_work.Common.{
  ℕ, zero, suc, Option, none, some, List, [], ◌∷◌, ◌==◌, if◌then◌else◌, ◌>>=◌, update,
}

-- `cqh_first`, `cqh_last`, and `cqe_next` and `cqe_prev` of each element.
pub record Links : Type 0 where
  pub first : Option ℕ
  pub last : Option ℕ
  pub next : ℕ → Option ℕ
  pub prev : ℕ → Option ℕ

-- CIRCLEQ_NEXT and CIRCLEQ_PREV of an element, set.
abbrev pub set_next : Option ℕ → Option ℕ → Links → Option Links
set_next none v l = none
set_next (some p) v l = some (record l { next = update l.next p v })

abbrev pub set_prev : Option ℕ → Option ℕ → Links → Option Links
set_prev none v l = none
set_prev (some p) v l = some (record l { prev = update l.prev p v })

-- CIRCLEQ_INIT.
unfoldable pub init : Links → Links
init l = record l { first = none; last = none }

-- CIRCLEQ_INSERT_AFTER.
unfoldable pub link_after : ℕ → ℕ → Links → Option Links
link_after q p l =
    let l1 = record l { next = update l.next p (l.next q) } in
    let l2 = record l1 { prev = update l1.prev p (some q) } in
    elim (l2.next q) [
      | none ↦ set_next (some q) (some p) (record l2 { last = some p })
      | some n ↦ do l3 ← set_prev (some n) (some p) l2; set_next (some q) (some p) l3
    ]

-- CIRCLEQ_INSERT_BEFORE.
unfoldable pub link_before : ℕ → ℕ → Links → Option Links
link_before q p l =
    let l1 = record l { next = update l.next p (some q) } in
    let l2 = record l1 { prev = update l1.prev p (l1.prev q) } in
    elim (l2.prev q) [
      | none ↦ set_prev (some q) (some p) (record l2 { first = some p })
      | some n ↦ do l3 ← set_next (some n) (some p) l2; set_prev (some q) (some p) l3
    ]

-- CIRCLEQ_INSERT_HEAD.
unfoldable pub link_head : ℕ → Links → Option Links
link_head p l =
    let l1 = record l { next = update l.next p l.first } in
    let l2 = record l1 { prev = update l1.prev p none } in
    elim l2.last [
      | none ↦ some (record l2 { last = some p; first = some p })
      | some _ ↦ do l3 ← set_prev l2.first (some p) l2; some (record l3 { first = some p })
    ]

-- CIRCLEQ_INSERT_TAIL.
unfoldable pub link_tail : ℕ → Links → Option Links
link_tail p l =
    let l1 = record l { next = update l.next p none } in
    let l2 = record l1 { prev = update l1.prev p l1.last } in
    elim l2.first [
      | none ↦ some (record l2 { first = some p; last = some p })
      | some _ ↦ do l3 ← set_next l2.last (some p) l2; some (record l3 { last = some p })
    ]

-- CIRCLEQ_REMOVE: the link back to the element, or the head's link to it, and the link on to it.
abbrev pub unlink_back : ℕ → Links → Option Links
unlink_back p l = elim (l.next p) [
  | none ↦ some (record l { last = l.prev p })
  | some n ↦ set_prev (some n) (l.prev p) l
]

abbrev pub unlink_on : ℕ → Links → Option Links
unlink_on p l = elim (l.prev p) [
  | none ↦ some (record l { first = l.next p })
  | some n ↦ set_next (some n) (l.next p) l
]

unfoldable pub unlink : ℕ → Links → Option Links
unlink p l = do l1 ← unlink_back p l; unlink_on p l1

-- CIRCLEQ_FOREACH: the elements that the walk from a pointer visits, within so many rounds.
unfoldable pub walk : ℕ → Option ℕ → Links → Option (List ℕ)
walk n none l = some []
walk zero (some p) l = none
walk (suc n) (some p) l = do rest ← walk n (l.next p) l; some (p ∷ rest)
