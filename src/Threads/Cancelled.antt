-- ===== src/Threads/Cancelled.antt =====
-- What the code of thread_cancel in SystemSoftware/Thread-scheduler/thread.c that takes a thread off the
-- ready queue does to it.
use kw_home_work.Common.{
  ℕ, ◌<◌, ◌≤◌, ◌≡◌, refl, sym, ◌∙◌, Option, none, some, List, [], ◌∷◌, ◌++◌, arith, if◌then◌else◌,
  count, count-append, inl, inr, ◌>>=◌, true, false, Option-cases, ==-false,
}
use kw_home_work.Threads.{
  Thread, Heap, ThreadQueue, unlink_cancelled, skip_head, is_head, set_prev, set_next, deref,
}
use kw_home_work.Threads.Calls.{lose}
use kw_home_work.Threads.Lists.{first_or, last_or, Segment, Segment-split}
use kw_home_work.Threads.Cut.{cut, set_at, Segment-cut, cut-off}
use kw_home_work.Threads.Append.{Alive, Ends}
use kw_home_work.Threads.Ends.{Ends-first, Ends-last, Ends-middle, counted-lose, last_or-some}
use kw_home_work.Threads.Removal.{relink-cut, skip_head-first, skip_head-other, apart, ==-true}

is_head-first :
    (p : ℕ) (q : ThreadQueue) (h : Heap) → Alive h p → q.head ≡ some p → is_head p q h ≡ some true
unfolding Alive
is_head-first p q h (t, l) e = rw (is_head, e, deref, l, ◌>>=◌, ==-true t.pid) refl

is_head-other :
    (p x : ℕ) (q : ThreadQueue) (h : Heap) (t u : Thread)
    → h.thread x ≡ some t
    → h.thread p ≡ some u
    → (t.pid ≡ u.pid → ⊥)
    → q.head ≡ some x
    → is_head p q h ≡ some false
is_head-other p x q h t u l m n e =
    rw (is_head, e, deref, l, ◌>>=◌, m, ◌>>=◌, ==-false t.pid u.pid n) refl

-- The cases of the links of the thread.
cancelled_alone :
    (p : ℕ) (q : ThreadQueue) (h : Heap)
    → h.prev p ≡ none
    → h.next p ≡ none
    → unlink_cancelled p q h ≡ some (q, h)
unfolding unlink_cancelled
cancelled_alone p q h e f = rw (unlink_cancelled, e, f) refl

cancelled_single :
    (p a : ℕ) (q : ThreadQueue) (h : Heap)
    → is_head p q h ≡ some true
    → h.prev p ≡ some a
    → h.next p ≡ none
    → unlink_cancelled p q h ≡ some (record q { head = none; tail = none }, h)
unfolding unlink_cancelled
cancelled_single p a q h k e f = rw (unlink_cancelled, e, f, k, ◌>>=◌, if◌then◌else◌) refl

cancelled_first :
    (p y : ℕ) (q q' : ThreadQueue) (h : Heap)
    → Alive h y
    → skip_head p q h ≡ some q'
    → h.prev p ≡ none
    → h.next p ≡ some y
    → unlink_cancelled p q h ≡ some (record q' { head = some y }, cut p h)
unfolding unlink_cancelled cut set_at Alive
cancelled_first p y q q' h (t, l) k e f =
    rw (unlink_cancelled, e, f, k, ◌>>=◌, set_prev, l, ◌>>=◌, set_at) refl

cancelled_last :
    (p a : ℕ) (q : ThreadQueue) (h : Heap)
    → Alive h a
    → is_head p q h ≡ some false
    → h.prev p ≡ some a
    → h.next p ≡ none
    → unlink_cancelled p q h ≡ some (record q { tail = some a }, cut p h)
unfolding unlink_cancelled cut set_at Alive
cancelled_last p a q h (t, l) k e f =
    rw (unlink_cancelled, e, f, k, ◌>>=◌, if◌then◌else◌, set_next, l, ◌>>=◌, set_at) refl

cancelled_middle :
    (p a y : ℕ) (q q' : ThreadQueue) (h : Heap)
    → Alive h a
    → Alive h y
    → (p ≡ a → ⊥)
    → skip_head p q h ≡ some q'
    → h.prev p ≡ some a
    → h.next p ≡ some y
    → unlink_cancelled p q h ≡ some (q', cut p h)
unfolding unlink_cancelled
cancelled_middle p a y q q' h l m n k e f =
    rw (unlink_cancelled, e, f, k, ◌>>=◌, relink-cut p a y h l m n e f, ◌>>=◌) refl

-- The queue and the heap afterwards. A thread that is alone on the queue may keep its links.
pub record Cancelled (h : Heap) (b : Option ℕ) (p : ℕ) (q : ThreadQueue) (xs ys : List ℕ)
    : Type 0 where
  pub new_queue : ThreadQueue
  pub new_heap : Heap
  pub runs : unlink_cancelled p (lose q) h ≡ some (new_queue, new_heap)
  pub ends : Ends new_queue (xs ++ ys)
  pub threads : new_heap.thread ≡ h.thread
  pub linked : Segment new_heap b (xs ++ ys) none
  pub kept :
      (r : ℕ)
      → count r (xs ++ p ∷ ys) ≡ 0
      → (b ≡ some r → ⊥)
      → (new_heap.prev r ≡ h.prev r) × (new_heap.next r ≡ h.next r)

Ends-gone :
    (p : ℕ) (o o' : Option ℕ) (q : ThreadQueue)
    → Ends q (p ∷ [])
    → Ends (lose (record q { head = o; tail = o' })) []
unfolding first_or last_or
Ends-gone p o o' q n = record {
  counted = counted-lose [] p [] q.queue_count n.counted;
  at_head = λ r k. absurd (ground (arith, k));
  at_tail = λ r k. absurd (ground (arith, k));
}

module _ (h : Heap) (b : Option ℕ) (p : ℕ) (q : ThreadQueue)
    (pids : (p r : ℕ) (t u : Thread)
      → h.thread p ≡ some t
      → h.thread r ≡ some u
      → t.pid ≡ u.pid
      → p ≡ r)
    (alive_back : (r : ℕ) → b ≡ some r → Alive h r × (p ≡ r → ⊥)) where
  -- With the thread cut out.
  by_cut :
      (xs ys : List ℕ) (q' : ThreadQueue)
      → ((r : ℕ) → count r (xs ++ p ∷ ys) ≤ 1)
      → ((r : ℕ) → b ≡ some r → count r (xs ++ p ∷ ys) ≡ 0)
      → Segment h b (xs ++ p ∷ ys) none
      → unlink_cancelled p (lose q) h ≡ some (q', cut p h)
      → Ends q' (xs ++ ys)
      → Cancelled h b p q xs ys
  unfolding cut
  by_cut xs ys q' d z s r n = record {
    new_queue = q';
    new_heap = cut p h;
    runs = r;
    ends = n;
    threads = refl;
    linked =
        Segment-cut h b xs p ys (λ r. omega (arith, d r, count-append r xs (p ∷ ys)))
          (λ r e. omega (arith, z r e, count-append r xs (p ∷ ys))) s;
    kept = λ r k e. cut-off h b xs p ys r k e s;
  }

  as_was :
      (q' : ThreadQueue)
      → unlink_cancelled p (lose q) h ≡ some (q', h)
      → Ends q' []
      → Cancelled h b p q [] []
  unfolding Segment
  as_was q' r n = record {
    new_queue = q';
    new_heap = h;
    runs = r;
    ends = n;
    threads = refl;
    linked = refl;
    kept = λ r k e. (refl, refl);
  }

  pub cancelled :
      (xs ys : List ℕ)
      → ((r : ℕ) → 0 < count r (xs ++ p ∷ ys) → Alive h r)
      → ((r : ℕ) → count r (xs ++ p ∷ ys) ≤ 1)
      → ((r : ℕ) → b ≡ some r → count r (xs ++ p ∷ ys) ≡ 0)
      → Segment h b (xs ++ p ∷ ys) none
      → Ends q (xs ++ p ∷ ys)
      → Cancelled h b p q xs ys
  unfolding Segment first_or last_or count Alive
  cancelled [] [] al d z (l, m, s) n = elim (Option-cases b) [
    | inl e ↦
        as_was (lose q) (cancelled_alone p (lose q) h (l ∙ e) m) (Ends-gone p q.head q.tail q n)
    | inr (c, e) ↦
        as_was (lose (record q { head = none; tail = none }))
          (cancelled_single p c (lose q) h
            (is_head-first p (lose q) h (al p (ground arith)) (n.at_head p refl)) (l ∙ e) m)
          (Ends-gone p none none q n)
  ]
  cancelled [] (y ∷ ys) al d z (l, m, s) n =
      let skip = skip_head-first p (lose q) h (al p (ground arith)) (n.at_head p refl) in
      elim (Option-cases b) [
        | inl e ↦
            by_cut [] (y ∷ ys) (lose (record q { head = some y })) d z (l, m, s)
              (cancelled_first p y (lose q) (record (lose q) { head = h.next p }) h
                (al y (ground arith)) skip (l ∙ e) m)
              (Ends-first p (y ∷ ys) (some y) q n refl)
        | inr (c, e) ↦
            let (ac, o) = alive_back c e in
            by_cut [] (y ∷ ys) (lose (record q { head = h.next p })) d z (l, m, s)
              (cancelled_middle p c y (lose q) (record (lose q) { head = h.next p }) h ac
                (al y (ground arith)) o skip (l ∙ e) m)
              (Ends-first p (y ∷ ys) (h.next p) q n m)
      ]
  cancelled (x ∷ xs) [] al d z s n =
      let (a, e, na) = last_or-some x xs in
      let (s1, (l, m, s2)) = Segment-split h b (x ∷ xs) (p ∷ []) none s in
      let (t, f) = al x (ground arith) in
      let (u, g) = al p (ground (arith, count-append p (x ∷ xs) (p ∷ []))) in
      by_cut (x ∷ xs) [] (lose (record q { tail = some a })) d z s
        (cancelled_last p a (lose q) h (al a (omega (arith, na, count-append a (x ∷ xs) (p ∷ []))))
          (is_head-other p x (lose q) h t u f g
            (λ y. apart (x ∷ xs) [] p x (ground arith) (d x) (sym (pids x p t u f g y)))
            (n.at_head x refl))
          (l ∙ e) m)
        (Ends-last x xs p (some a) q n (sym e))
  cancelled (x ∷ xs) (y ∷ ys) al d z s n =
      let (a, e, na) = last_or-some x xs in
      let (s1, (l, m, s2)) = Segment-split h b (x ∷ xs) (p ∷ y ∷ ys) none s in
      let (t, f) = al x (ground arith) in
      let (u, g) = al p (ground (arith, count-append p (x ∷ xs) (p ∷ y ∷ ys))) in
      by_cut (x ∷ xs) (y ∷ ys) (lose q) d z s
        (cancelled_middle p a y (lose q) (lose q) h
          (al a (omega (arith, na, count-append a (x ∷ xs) (p ∷ y ∷ ys))))
          (al y (ground (arith, count-append y (x ∷ xs) (p ∷ y ∷ ys))))
          (apart (x ∷ xs) (y ∷ ys) p a na (d a))
          (skip_head-other p x (lose q) h t u f g
            (λ w. apart (x ∷ xs) (y ∷ ys) p x (ground arith) (d x) (sym (pids x p t u f g w)))
            (n.at_head x refl))
          (l ∙ e) m)
        (Ends-middle x xs p y ys q n)
