-- ===== src/Semaphores/Posting.antt =====
-- thread_sem_post of SystemSoftware/Thread-scheduler/semaphore.c on a valid state.
use mathlib.Core.Path.{subst}
use kw_home_work.Common.{
  ℕ, suc, ◌+◌, ◌<◌, ◌≤◌, ◌≡◌, ◌≢◌, refl, sym, ◌∙◌, ap, none, some, List, [], ◌∷◌, ◌++◌, arith,
  update, count, count-snoc, length, ◌>>=◌, true, false, ℤ, inc, is_zero, inl, inr, ==_refl,
  Option-cases, ==-false,
}
use kw_home_work.Threads.{
  Thread, ThreadStatus, Threads, Heap, ThreadQueue, max_thread_num, search, modify, enqueue, unlink,
}
use kw_home_work.Threads.Calls.{with_status, lose, thread_at}
use kw_home_work.Threads.Lists.{first_or, Chain, Chain-frame, Segment-frame}
use kw_home_work.Threads.Cut.{first_or-count}
use kw_home_work.Threads.Append.{Alive, Ends, Appended, enqueue-Appended}
use kw_home_work.Threads.Population.{
  held, Running, Has, Has-update, Population, Has-Alive, Alive-update,
}
use kw_home_work.Threads.Places.{Moves, Population-moved}
use kw_home_work.Threads.Valid.{IsValid, IsValid-append}
use kw_home_work.Threads.Tables.{search-first}
use kw_home_work.Threads.Moves.{Entry, thread_at-Entry, schedule}
use kw_home_work.Threads.Resume.{shifted, resumed-first, shifted-prev, shifted-first}
use kw_home_work.Semaphores.{Semaphore, System, sem_at, set_sem, is_waiter, wake, thread_sem_post}

-- The threads that wait on a queue: linked forwards, with the ends in the queue.
pub record Waits (s : Threads) (q : ThreadQueue) (qs : List ℕ) : Type 0 where
  pub ends : Ends q qs
  pub linked : Chain s.heap qs
  pub first : (p : ℕ) → first_or none qs ≡ some p → s.heap.prev p ≡ none
  pub waiting : (p : ℕ) → 0 < count p qs → Has s.heap.thread ThreadStatus.wait p

post-Moves :
    (run : Running) (rs ws : List ℕ) (p : ℕ)
    → count p rs + count p ws + count p (held run) ≡ 0
    → Moves (schedule run rs ws) (schedule run (rs ++ p ∷ []) ws) p ThreadStatus.ready
unfolding count
post-Moves run rs ws p o = record {
  ready_as = λ r n. ground (arith, n, count-snoc r p rs);
  waiting_as = λ r n. refl;
  held_as = λ r n. omega arith;
  active_as = λ r n e. e;
  ended_as = λ r n e. e;
  blocked_as = λ r n e. e;
  if_ready = λ k. refl;
  if_waiting = λ k. absurd (omega (arith, k, o));
  if_active = λ e. absurd (ground (arith, o, ap (λ z. count p (held z)) e));
  if_ended = λ e. absurd (ground (arith, o, ap (λ z. count p (held z)) e));
  if_blocked = λ e. absurd (ground (arith, o, ap (λ z. count p (held z)) e));
  one_place = ground (arith, o, count-snoc p p rs);
}

wake_run :
    (p m : ℕ) (sem : Semaphore) (s : System) (t : Thread) (w q : ThreadQueue) (h h2 : Heap)
    → unlink p sem.waiting_queue s.threads.heap ≡ some (w, h)
    → h.thread p ≡ some t
    → enqueue s.threads.ready_queue.tail p s.threads.ready_queue
        (record h { thread = update h.thread p (some (with_status ThreadStatus.ready t)) })
      ≡ some (q, h2)
    → wake p m sem s
      ≡ some (
          set_sem m
            (record sem { waiting_queue = lose w })
            (record s { threads = record s.threads { heap = h2; ready_queue = q } }))
unfolding wake
wake_run p m sem s t w q h h2 e l f = rw (e, ◌>>=◌, modify, l, ◌>>=◌, f, ◌>>=◌) refl

post_run :
    (semid m tid p n : ℕ) (sem : Semaphore) (s s' : System)
    → sem_at semid s ≡ some m
    → s.semaphores m ≡ some sem
    → sem.waiting_queue.queue_count ≡ ℤ.pos (suc n)
    → search (is_waiter sem.waiting_queue s.threads) 0 max_thread_num ≡ some tid
    → thread_at tid s.threads ≡ some p
    → wake p m (record sem { count = inc sem.count }) s ≡ some s'
    → thread_sem_post semid s ≡ some s'
unfolding thread_sem_post
post_run semid m tid p n sem s s' a l k e f g = simp (a, ◌>>=◌, l, k, is_zero, e, f, g)

-- The entries before that of the waiter are null or have other threads that are not freed.
unfoldable pub Before : Threads → ℕ → ℕ → Type 0
Before s tid p = (j r : ℕ) → j < tid → (s.table j).p_thread ≡ some r → Alive s.heap r × (r ≢ p)

is_waiter_here :
    (q : ThreadQueue) (s : Threads) (i p : ℕ) (t : Thread)
    → (s.table i).p_thread ≡ some p
    → q.head ≡ some p
    → s.heap.thread p ≡ some t
    → is_waiter q s i ≡ some true
is_waiter_here q s i p t e f l = simp (is_waiter, e, l, f, ==_refl t.pid)

is_waiter_other :
    (q : ThreadQueue) (s : Threads) (i p : ℕ) (t : Thread)
    → ((r : ℕ) → (s.table i).p_thread ≡ some r → Alive s.heap r × (r ≢ p))
    → ((r : ℕ) (u : Thread) → s.heap.thread r ≡ some u → u.pid ≡ t.pid → r ≡ p)
    → q.head ≡ some p
    → s.heap.thread p ≡ some t
    → is_waiter q s i ≡ some false
unfolding Alive
is_waiter_other q s i p t o k f l = elim (Option-cases (s.table i).p_thread) [
  | inl e ↦ simp (is_waiter, e)
  | inr (r, e) ↦
      let ((u, m), n) = o r e in
      simp (is_waiter, e, m, f, l, ==-false u.pid t.pid (λ z. n (k r u m z)))
]

module _ (run : Running) (rs ws : List ℕ) (p : ℕ) (qs : List ℕ) (s : Threads) (q : ThreadQueue)
    (v : IsValid (schedule run rs ws) s) (x : Waits s q (p ∷ qs))
    (off : (r : ℕ) → 0 < count r (p ∷ qs) → count r rs + count r ws + count r (held run) ≡ 0)
    (once : (r : ℕ) → count r (p ∷ qs) ≤ 1) (not_back : v.links.back ≡ some p → ⊥) where
  in_front : 0 < count p (p ∷ qs)
  unfolding count
  in_front = ground arith

  removal :
      (q' : ThreadQueue) × (unlink p q s.heap ≡ some (q', shifted (first_or none qs) s.heap))
      × Ends (lose q') qs
  unfolding Chain first_or count Alive
  removal =
      resumed-first p qs q s.heap (x.first p refl) x.linked.0
        (λ r k. Has-Alive s.heap.thread ThreadStatus.wait r (x.waiting r (ground (arith, k))))
        x.ends

  module _ (t : Thread) (l : s.heap.thread p ≡ some t) (k : 0 < t.pid) where
    abbrev woken : Threads
    woken = record s {
      heap = record (shifted (first_or none qs) s.heap) {
        thread = update s.heap.thread p (some (with_status ThreadStatus.ready t));
      };
    }

    population : Population woken.heap.thread (schedule run (rs ++ p ∷ []) ws)
    population =
        Population-moved s.heap.thread (schedule run rs ws) (schedule run (rs ++ p ∷ []) ws) p t
          (with_status ThreadStatus.ready t) v.links.population l k refl
          (post-Moves run rs ws p (off p in_front))

    appending : Appended s.ready_queue.tail p rs s.ready_queue woken.heap
    unfolding Alive
    appending =
        enqueue-Appended s.ready_queue.tail p rs s.ready_queue woken.heap
          (λ r n. Has-Alive woken.heap.thread ThreadStatus.ready r (population.on_ready r n))
          (λ r. omega (arith, population.once r)) v.links.ready_ends

    abbrev after : Threads
    after = record woken { heap = appending.new_heap; ready_queue = appending.new_queue }

    not_first : (r : ℕ) → 0 < count r rs + count r ws → first_or none qs ≡ some r → ⊥
    unfolding count
    not_first r n e =
        let c = first_or-count none qs r e (λ z. ground (arith, z)) in
        ground (arith, n, off r (omega (arith, c)), c)

    after-IsValid : IsValid (schedule run (rs ++ p ∷ []) ws) after
    unfolding Alive shifted
    after-IsValid =
        IsValid-append run rs ws p v.links.back woken appending population v.is_current
          (Segment-frame s.heap woken.heap v.links.back rs none
            (λ r n. (shifted-prev s.heap qs r (not_first r (omega (arith, n))), refl))
            v.links.ready_linked)
          (λ r e.
            let (al, z) = v.back_off r e in
            (
              Alive-update s.heap.thread p r (with_status ThreadStatus.ready t) al,
              ground (arith, z, count-snoc r p rs, (λ (y : p ≡ r). not_back (e ∙ ap some (sym y)))),
            ))
          v.links.waiting_ends
          (Chain-frame s.heap woken.heap ws (λ r n. refl) v.links.waiting_linked)
          (λ r e.
            let c = first_or-count none ws r e (λ z. ground (arith, z)) in
            shifted-prev s.heap qs r (not_first r (omega (arith, c))) ∙ v.links.waiting_first r e)

    others : (r : ℕ) → 0 < count r qs → (p ≡ r → ⊥) × (count r rs ≡ 0)
    unfolding count
    others r n = (λ e. ground (arith, e, n, once r), omega (arith, off r (ground (arith, n))))

    after-Waits : Waits after (lose removal.0) qs
    unfolding Chain shifted count
    after-Waits = record {
      ends = removal.2;
      linked =
          Chain-frame woken.heap after.heap qs
            (λ r n. let (e, z) = others r n in (appending.frame r e).1 z)
            (Chain-frame s.heap woken.heap qs (λ r n. refl) x.linked.1);
      first = λ r e.
          let c = first_or-count none qs r e (λ z. ground (arith, z)) in
          (appending.frame r (others r c).0).0 ∙ shifted-first s.heap qs r e;
      waiting = λ r n.
          subst (λ th. Has th ThreadStatus.wait r) (sym appending.threads)
            (Has-update s.heap.thread ThreadStatus.wait p r _ (others r n).0
              (x.waiting r (ground (arith, n))));
    }

-- thread_sem_post of a semaphore whose waiting threads are on its queue once and nowhere else, on a
-- valid state with an entry for the first of them, where every earlier entry is null or has another
-- thread that is not freed, and where no link of the ready queue points back at the first: the
-- count goes up by one, the first waiter goes to the tail of the ready queue with status READY, the
-- others still wait in order, and the state of the threads stays valid.
pub thread_sem_post-Posted :
    (run : Running) (rs ws : List ℕ) (p : ℕ) (qs : List ℕ) (s : System) (semid m tid : ℕ)
    (sem : Semaphore)
    → (v : IsValid (schedule run rs ws) s.threads) → Waits s.threads sem.waiting_queue (p ∷ qs)
    → ((r : ℕ) → 0 < count r (p ∷ qs) → count r rs + count r ws + count r (held run) ≡ 0)
    → ((r : ℕ) → count r (p ∷ qs) ≤ 1)
    → (v.links.back ≡ some p → ⊥)
    → sem_at semid s ≡ some m
    → s.semaphores m ≡ some sem
    → Entry s.threads tid p
    → Before s.threads tid p
    → (s' : System) × (sem' : Semaphore) × (thread_sem_post semid s ≡ some s')
      × (s'.semaphores m ≡ some sem')
      × (sem'.count ≡ inc sem.count)
      × Waits s'.threads sem'.waiting_queue qs
      × IsValid (schedule run (rs ++ p ∷ []) ws) s'.threads
unfolding Has Before Alive shifted first_or
thread_sem_post-Posted run rs ws p qs s semid m tid sem v x off once nb at l e b =
    let (t, f, st, k) =
      x.waiting p (in_front run rs ws p qs s.threads sem.waiting_queue v x off once nb) in
    let (q', cuts, _) = removal run rs ws p qs s.threads sem.waiting_queue v x off once nb in
    let y = appending run rs ws p qs s.threads sem.waiting_queue v x off once nb t f k in
    let th = after run rs ws p qs s.threads sem.waiting_queue v x off once nb t f k in
    let more : Semaphore = record sem { count = inc sem.count } in
    let sem' : Semaphore = record more { waiting_queue = lose q' } in
    let s' : System = set_sem m sem' (record s { threads = th }) in
    (
      s',
      sem',
      post_run semid m tid p (length qs) sem s s' at l x.ends.counted
          (search-first (is_waiter sem.waiting_queue s.threads) 0 max_thread_num tid (omega arith)
            e.in_table
            (λ j _ n.
              is_waiter_other sem.waiting_queue s.threads j p t (λ r z. b j r n z)
                (λ r u z y. v.links.population.pids r p u t z f y) (x.ends.at_head p refl) f)
            (is_waiter_here sem.waiting_queue s.threads tid p t e.pointer (x.ends.at_head p refl)
              f))
          (thread_at-Entry s.threads tid p e (t, f))
          (wake_run p m more s t q' y.new_queue (shifted (first_or none qs) s.threads.heap)
            y.new_heap cuts f y.runs),
      ground arith,
      refl,
      after-Waits run rs ws p qs s.threads sem.waiting_queue v x off once nb t f k,
      after-IsValid run rs ws p qs s.threads sem.waiting_queue v x off once nb t f k,
    )
