-- ===== src/Threads/Append.antt =====
-- What `enqueue`, the code of SystemSoftware/Thread-scheduler/thread.c that puts a thread at the tail
-- of a queue, does to a list of linked threads.
use mathlib.Core.Path.{subst}
use kw_home_work.Common.{
  ℕ, suc, ◌<◌, ◌≤◌, ◌≡◌, refl, sym, ◌∙◌, ap, Option, none, some, List, [], ◌∷◌, ◌++◌, arith,
  if◌then◌else◌, update, count, count-append, count-snoc, length, inl, inr, ℤ, inc, is_zero, ◌>>=◌,
}
use kw_home_work.Threads.{Thread, Heap, ThreadQueue, enqueue}
use kw_home_work.Threads.Lists.{
  first_or, last_or, last_or-cases, last_or-snoc, Segment, Segment-append, Chain, appended,
}

unfoldable pub Alive : Heap → ℕ → Type 0
Alive h p = (t : Thread) × (h.thread p ≡ some t)

-- The count of a queue, and its ends unless it is empty: an empty queue may keep old ones.
pub record Ends (q : ThreadQueue) (ps : List ℕ) : Type 0 where
  pub counted : q.queue_count ≡ ℤ.pos (length ps)
  pub at_head : (p : ℕ) → first_or none ps ≡ some p → q.head ≡ some p
  pub at_tail : (p : ℕ) → last_or none ps ≡ some p → q.tail ≡ some p

-- The heap after an append to the list.
pub record Appended (back : Option ℕ) (p : ℕ) (ps : List ℕ) (q : ThreadQueue) (h : Heap)
    : Type 0 where
  pub new_queue : ThreadQueue
  pub new_heap : Heap
  pub runs : enqueue back p q h ≡ some (new_queue, new_heap)
  pub ends : Ends new_queue (ps ++ p ∷ [])
  pub threads : new_heap.thread ≡ h.thread
  pub frame :
      (r : ℕ)
      → (p ≡ r → ⊥)
      → (new_heap.prev r ≡ h.prev r) × (count r ps ≡ 0 → new_heap.next r ≡ h.next r)
  pub linked :
      (b : Option ℕ)
      → (ps ≡ [] → b ≡ none)
      → back ≡ q.tail
      → Segment h b ps none
      → Segment new_heap b (ps ++ p ∷ []) none
  pub chained : Chain h ps → Chain new_heap (ps ++ p ∷ [])
  pub alone : ps ≡ [] → new_heap.prev p ≡ none

length-snoc : (ps : List ℕ) (p : ℕ) → length (ps ++ p ∷ []) ≡ suc (length ps)
length-snoc [] p = refl
length-snoc (x ∷ ps) p = omega (arith, length-snoc ps p)

first_or-twice :
    (xs : List ℕ) (a p : ℕ)
    → first_or none ((xs ++ a ∷ []) ++ p ∷ []) ≡ first_or none (xs ++ a ∷ [])
unfolding first_or
first_or-twice [] a p = refl
first_or-twice (x ∷ xs) a p = refl

Chain-append :
    (h : Heap) (xs : List ℕ) (a p : ℕ) (back : Option ℕ)
    → count a xs ≡ 0
    → count p (xs ++ a ∷ []) ≡ 0
    → Chain h (xs ++ a ∷ [])
    → Chain (appended back a p h) ((xs ++ a ∷ []) ++ p ∷ [])
unfolding Chain first_or appended count
Chain-append h [] a p back na np (n, s) = (ground (arith, np), (ground arith, refl))
Chain-append h (x ∷ []) a p back na np (n, s) =
    (ground (arith, np, na, n), Chain-append h [] a p back refl (ground (arith, np)) s)
Chain-append h (x ∷ y ∷ xs) a p back na np (n, s) = (
  ground (arith, np, na, n),
  Chain-append h (y ∷ xs) a p back (ground (arith, na)) (ground (arith, np)) s,
)

append-nil :
    (back : Option ℕ) (p : ℕ) (q : ThreadQueue) (h : Heap)
    → Alive h p
    → Ends q []
    → Appended back p [] q h
unfolding enqueue Segment first_or last_or Chain Alive
append-nil back p q h (t, e) n = record {
  new_queue = record q { queue_count = ℤ.pos 1; head = some p; tail = some p };
  new_heap = record h { prev = update h.prev p none; next = update h.next p none };
  runs = rw (n.counted, is_zero, if◌then◌else◌, e, ◌>>=◌, e, ◌>>=◌) refl;
  ends = record { counted = refl; at_head = λ r k. k; at_tail = λ r k. k };
  threads = refl;
  frame = λ r k. (ground (arith, k), λ _. ground (arith, k));
  linked = λ b z _ _. (ground (arith, z refl), ground arith, refl);
  chained = λ _. (ground arith, refl);
  alone = λ _. ground arith;
}

append-snoc :
    (back : Option ℕ) (p a : ℕ) (xs : List ℕ) (q : ThreadQueue) (h : Heap)
    → Alive h p
    → Alive h a
    → count a xs ≡ 0
    → count p (xs ++ a ∷ []) ≡ 0
    → Ends q (xs ++ a ∷ [])
    → Appended back p (xs ++ a ∷ []) q h
unfolding enqueue Segment Chain Alive appended first_or count
append-snoc back p a xs q h (t, e) (u, f) na np n =
    let last = n.at_tail a (last_or-snoc none xs a) in
    record {
      new_queue = record q { queue_count = inc q.queue_count; tail = some p };
      new_heap = appended back a p h;
      runs =
          rw
            (
              n.counted,
              length-snoc xs a,
              is_zero,
              if◌then◌else◌,
              e,
              ◌>>=◌,
              last,
              f,
              ◌>>=◌,
              e,
              ◌>>=◌,
            )
            refl;
      ends = record {
        counted = ap inc n.counted ∙ rw (length-snoc (xs ++ a ∷ []) p, inc) refl;
        at_head = λ r k. n.at_head r (sym (first_or-twice xs a p) ∙ k);
        at_tail = λ r k. sym (last_or-snoc none (xs ++ a ∷ []) p) ∙ k;
      };
      threads = refl;
      frame = λ r k. (ground (arith, k), λ z. ground (arith, k, z, count-append r xs (a ∷ [])));
      linked = λ b _ z s. rw (z, last) (Segment-append h b xs a p na np s);
      chained = Chain-append h xs a p back na np;
      alone = λ z. absurd (omega (arith, ap length z, length-snoc xs a));
    }

pub enqueue-Appended :
    (back : Option ℕ) (p : ℕ) (ps : List ℕ) (q : ThreadQueue) (h : Heap)
    → ((r : ℕ) → 0 < count r (ps ++ p ∷ []) → Alive h r)
    → ((r : ℕ) → count r (ps ++ p ∷ []) ≤ 1)
    → Ends q ps
    → Appended back p ps q h
unfolding count
enqueue-Appended back p ps q h al d n = elim (last_or-cases none ps) [
  | inl (z, _) ↦
      subst (λ z. Ends q z → Appended back p z q h) (sym z)
        (append-nil back p q h (al p (ground (arith, count-snoc p p ps)))) n
  | inr (a, xs, z, _) ↦
      subst
        (λ z.
          ((r : ℕ) → 0 < count r (z ++ p ∷ []) → Alive h r)
          → ((r : ℕ) → count r (z ++ p ∷ []) ≤ 1)
          → Ends q z
          → Appended back p z q h)
        (sym z)
        (λ al d n.
          let cp = count-snoc p p (xs ++ a ∷ []) in
          let ca = count-snoc a p (xs ++ a ∷ []) in
          let cs = count-snoc a a xs in
          append-snoc back p a xs q h (al p (ground (arith, cp))) (al a (ground (arith, ca, cs)))
            (ground (arith, ca, cs, d a)) (ground (arith, cp, d p)) n)
        al d n
]
