-- ===== src/Queue/Links/Refinement.antt =====
-- The CIRCLEQ macros of OS/hw3/queue.h on links do to the list of the elements what the operations of
-- `Queue` do.
use kw_home_work.Common.{ℕ, ◌<◌, ◌≤◌, ◌≡◌, ◌∙◌, ap, none, some, List, [], count, length}
use kw_home_work.Queue.{insert_head, insert_tail, erase, remove, remove-erase}
use kw_home_work.Queue.Links.{Links, init, link_head, link_tail, unlink, walk}
use kw_home_work.Queue.Links.Circle.{Circle, walk-list, init-Circle}
use kw_home_work.Queue.Links.Inserting.{link_head-Circle, link_tail-Circle}
use kw_home_work.Queue.Links.Unlinking.{unlink-Circle}

-- What the macros do, in terms of the operations on the list.
pub record Refines (l : Links) (ps : List ℕ) : Type 0 where
  pub walked : walk (length ps) l.first l ≡ some ps
  pub emptied : Circle (init l) []
  pub inserted_first :
      (p : ℕ)
      → count p ps ≡ 0
      → (l' : Links) × (link_head p l ≡ some l') × Circle l' (insert_head p ps)
  pub inserted_last :
      (p : ℕ)
      → count p ps ≡ 0
      → (l' : Links) × (link_tail p l ≡ some l') × Circle l' (insert_tail p ps)
  pub taken_out :
      (p : ℕ)
      → 0 < count p ps
      → (l' : Links) × (qs : List ℕ) × (unlink p l ≡ some l')
        × (remove p ps ≡ some qs)
        × Circle l' qs

-- On links that show a list without repetitions, a walk ends after one round for each element and
-- visits the list; CIRCLEQ_INIT empties it, and CIRCLEQ_INSERT_HEAD, _INSERT_TAIL and _REMOVE change
-- the links without a fault to ones that show what the operations on lists yield.
pub Circle-Refines :
    (l : Links) (ps : List ℕ) → Circle l ps → ((r : ℕ) → count r ps ≤ 1) → Refines l ps
Circle-Refines l ps c d = record {
  walked = ap (λ o. walk (length ps) o l) c.at_first ∙ walk-list l none ps c.linked;
  emptied = init-Circle l;
  inserted_first = λ p n. link_head-Circle p l ps c n d;
  inserted_last = λ p n. link_tail-Circle p l ps c n d;
  taken_out = λ p k.
      let (l', r, c') = unlink-Circle p l ps c d k in (l', erase p ps, r, remove-erase p ps k, c');
}
