-- ===== src/Threads/Removal.antt =====
-- What the code of thread_suspend and thread_resume in SystemSoftware/Thread-scheduler/thread.c that
-- takes a thread off a queue does: the thread is cut out, and the ends of the queue are adjusted.
use kw_home_work.Common.{
  ℕ, ◌<◌, ◌≤◌, ◌≡◌, refl, sym, ◌∙◌, Option, none, some, List, [], ◌∷◌, ◌++◌, arith, ◌==◌,
  if◌then◌else◌, update, count, count-append, inl, inr, ◌>>=◌, true, Option-cases, ==-false,
}
use kw_home_work.Threads.{
  Thread, Heap, ThreadQueue, unlink_suspended, skip_head, is_head, relink, set_prev, set_next,
  deref,
}
use kw_home_work.Threads.Calls.{lose}
use kw_home_work.Threads.Lists.{first_or, last_or, Segment, Segment-split}
use kw_home_work.Threads.Cut.{cut, set_at}
use kw_home_work.Threads.Append.{Alive, Ends}
use kw_home_work.Threads.Ends.{last_or-some, Ends-first, Ends-last, Ends-middle, Ends-empty}

pub ==-true : (a : ℕ) → (a == a) ≡ true
==-true a = ground arith

-- The four cases of the links of the thread.
suspended_alone :
    (p : ℕ) (q : ThreadQueue) (h : Heap)
    → h.prev p ≡ none
    → h.next p ≡ none
    → unlink_suspended p q h ≡ some (q, cut p h)
unfolding unlink_suspended cut set_at
suspended_alone p q h e f = rw (unlink_suspended, e, f, set_at) refl

suspended_first :
    (p y : ℕ) (q : ThreadQueue) (h : Heap)
    → Alive h y
    → h.prev p ≡ none
    → h.next p ≡ some y
    → unlink_suspended p q h ≡ some (record q { head = some y }, cut p h)
unfolding unlink_suspended cut set_at Alive
suspended_first p y q h (t, l) e f = rw (unlink_suspended, e, f, set_prev, l, ◌>>=◌, set_at) refl

suspended_last :
    (p a : ℕ) (q : ThreadQueue) (h : Heap)
    → Alive h a
    → h.prev p ≡ some a
    → h.next p ≡ none
    → unlink_suspended p q h ≡ some (record q { tail = some a }, cut p h)
unfolding unlink_suspended cut set_at Alive
suspended_last p a q h (t, l) e f = rw (unlink_suspended, e, f, set_next, l, ◌>>=◌, set_at) refl

pub relink-cut :
    (p a y : ℕ) (h : Heap)
    → Alive h a
    → Alive h y
    → (p ≡ a → ⊥)
    → h.prev p ≡ some a
    → h.next p ≡ some y
    → relink p h ≡ some (cut p h)
unfolding cut set_at Alive
relink-cut p a y h (t, l) (u, m) n e f =
    rw
      (
        relink,
        e,
        f,
        set_next,
        l,
        ◌>>=◌,
        update,
        ==-false p a n,
        if◌then◌else◌,
        f,
        set_prev,
        m,
        ◌>>=◌,
        set_at,
        e,
      )
      refl

suspended_middle :
    (p a y : ℕ) (q q' : ThreadQueue) (h : Heap)
    → Alive h a
    → Alive h y
    → (p ≡ a → ⊥)
    → skip_head p q h ≡ some q'
    → h.prev p ≡ some a
    → h.next p ≡ some y
    → unlink_suspended p q h ≡ some (q', cut p h)
unfolding unlink_suspended
suspended_middle p a y q q' h l m n k e f =
    rw (unlink_suspended, e, f, k, ◌>>=◌, relink-cut p a y h l m n e f, ◌>>=◌) refl

pub skip_head-first :
    (p : ℕ) (q : ThreadQueue) (h : Heap)
    → Alive h p
    → q.head ≡ some p
    → skip_head p q h ≡ some (record q { head = h.next p })
unfolding Alive
skip_head-first p q h (t, l) e =
    rw (skip_head, is_head, e, deref, l, ◌>>=◌, ==-true t.pid, if◌then◌else◌) refl

pub skip_head-other :
    (p x : ℕ) (q : ThreadQueue) (h : Heap) (t u : Thread)
    → h.thread x ≡ some t
    → h.thread p ≡ some u
    → (t.pid ≡ u.pid → ⊥)
    → q.head ≡ some x
    → skip_head p q h ≡ some q
skip_head-other p x q h t u l m n e =
    rw (skip_head, is_head, e, deref, l, ◌>>=◌, m, ◌>>=◌, ==-false t.pid u.pid n, if◌then◌else◌)
      refl

pub apart : (xs ys : List ℕ) (p a : ℕ) → 0 < count a xs → count a (xs ++ p ∷ ys) ≤ 1 → p ≡ a → ⊥
unfolding count
apart xs ys p a k d e = ground (arith, k, d, e, count-append a xs (p ∷ ys))

module _ (h : Heap) (b : Option ℕ) (p : ℕ) (q : ThreadQueue)
    (pids : (p r : ℕ) (t u : Thread)
      → h.thread p ≡ some t
      → h.thread r ≡ some u
      → t.pid ≡ u.pid
      → p ≡ r)
    (alive_back : (r : ℕ) → b ≡ some r → Alive h r × (p ≡ r → ⊥)) where
  pub suspended-cut :
      (xs ys : List ℕ)
      → ((r : ℕ) → 0 < count r (xs ++ p ∷ ys) → Alive h r)
      → ((r : ℕ) → count r (xs ++ p ∷ ys) ≤ 1)
      → Segment h b (xs ++ p ∷ ys) none
      → Ends q (xs ++ p ∷ ys)
      → (q' : ThreadQueue) × (unlink_suspended p q h ≡ some (q', cut p h))
        × Ends (lose q') (xs ++ ys)
  unfolding Segment first_or last_or count Alive
  suspended-cut [] [] al d (l, m, s) n = elim (Option-cases b) [
    | inl z ↦ (q, suspended_alone p q h (l ∙ z) m, Ends-empty p q.tail q n)
    | inr (c, z) ↦
        let (ac, _) = alive_back c z in
        (record q { tail = some c }, suspended_last p c q h ac (l ∙ z) m, Ends-empty p (some c) q n)
  ]
  suspended-cut [] (y ∷ ys) al d (l, m, s) n = elim (Option-cases b) [
    | inl z ↦ (
      record q { head = some y },
      suspended_first p y q h (al y (ground arith)) (l ∙ z) m,
      Ends-first p (y ∷ ys) (some y) q n refl,
    )
    | inr (c, z) ↦
        let (ac, o) = alive_back c z in
        (
          record q { head = h.next p },
          suspended_middle p c y q (record q { head = h.next p }) h ac (al y (ground arith)) o
              (skip_head-first p q h (al p (ground arith)) (n.at_head p refl)) (l ∙ z) m,
          Ends-first p (y ∷ ys) (h.next p) q n m,
        )
  ]
  suspended-cut (x ∷ xs) [] al d s n =
      let (a, e, na) = last_or-some x xs in
      let (s1, (l, m, s2)) = Segment-split h b (x ∷ xs) (p ∷ []) none s in
      (
        record q { tail = some a },
        suspended_last p a q h (al a (omega (arith, na, count-append a (x ∷ xs) (p ∷ [])))) (l ∙ e)
            m,
        Ends-last x xs p (some a) q n (sym e),
      )
  suspended-cut (x ∷ xs) (y ∷ ys) al d s n =
      let (a, e, na) = last_or-some x xs in
      let (s1, (l, m, s2)) = Segment-split h b (x ∷ xs) (p ∷ y ∷ ys) none s in
      let (t, f) = al x (ground arith) in
      let (u, g) = al p (ground (arith, count-append p (x ∷ xs) (p ∷ y ∷ ys))) in
      (
        q,
        suspended_middle p a y q q h
            (al a (omega (arith, na, count-append a (x ∷ xs) (p ∷ y ∷ ys))))
            (al y (ground (arith, count-append y (x ∷ xs) (p ∷ y ∷ ys))))
            (apart (x ∷ xs) (y ∷ ys) p a na (d a))
            (skip_head-other p x q h t u f g
              (λ z. apart (x ∷ xs) (y ∷ ys) p x (ground arith) (d x) (sym (pids x p t u f g z)))
              (n.at_head x refl))
            (l ∙ e) m,
        Ends-middle x xs p y ys q n,
      )
