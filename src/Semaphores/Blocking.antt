-- ===== src/Semaphores/Blocking.antt =====
-- thread_sem_wait of SystemSoftware/Thread-scheduler/semaphore.c when the count is 0: the running thread
-- goes on the queue of the semaphore.
use mathlib.Core.Path.{subst}
use kw_home_work.Common.{
  ℕ, ◌+◌, ◌<◌, ◌≤◌, ◌≡◌, refl, sym, ◌∙◌, ap, Option, none, some, List, [], ◌∷◌, ◌++◌, arith, update,
  count, count-snoc, ◌>>=◌, ℕ-cases, inl, inr, ==_refl, ==-false, Option-cases, ◌≢◌, false,
}
use kw_home_work.Threads.{
  Thread, ThreadStatus, Threads, Heap, ThreadQueue, Signal, modify, enqueue, max_thread_num,
}
use kw_home_work.Threads.Calls.{with_status, thread_at, thread_self, kill, is_current}
use kw_home_work.Threads.Lists.{first_or, Chain-frame, Segment-frame}
use kw_home_work.Threads.Cut.{first_or-count}
use kw_home_work.Threads.Append.{Alive, Appended, enqueue-Appended}
use kw_home_work.Threads.Population.{held, Running, Has-update, Has-Alive, Alive-update}
use kw_home_work.Threads.Places.{Moves, Population-moved, Has-self}
use kw_home_work.Threads.Valid.{IsValid}
use kw_home_work.Threads.Tables.{search-first}
use kw_home_work.Threads.Moves.{Entry, thread_at-Entry, schedule}
use kw_home_work.Semaphores.{Semaphore, System, set_sem, block}
use kw_home_work.Semaphores.Posting.{Waits}

block-Moves :
    (c : ℕ) (rs ws : List ℕ)
    → count c rs + count c ws + count c (held (Running.active c)) ≤ 1
    → Moves
        (schedule (Running.active c) rs ws)
        (schedule (Running.blocked c) rs ws)
        c
        ThreadStatus.wait
unfolding count
block-Moves c rs ws o = record {
  ready_as = λ r n. refl;
  waiting_as = λ r n. refl;
  held_as = λ r n. omega arith;
  active_as = λ r n e. absurd (ground (arith, e));
  ended_as = λ r n e. absurd (ground (arith, e));
  blocked_as = λ r n e. absurd (ground (arith, n, e));
  if_ready = λ k. absurd (ground (arith, o, k));
  if_waiting = λ k. refl;
  if_active = λ e. absurd (ground (arith, e));
  if_ended = λ e. absurd (ground (arith, e));
  if_blocked = λ e. refl;
  one_place = omega (arith, o);
}

block_run :
    (m tid c : ℕ) (sem : Semaphore) (s : System) (t : Thread) (q : ThreadQueue) (h : Heap)
    → thread_self s.threads ≡ some tid
    → thread_at tid s.threads ≡ some c
    → enqueue s.threads.ready_queue.tail c sem.waiting_queue s.threads.heap ≡ some (q, h)
    → h.thread c ≡ some t
    → block m sem s
      ≡ some (
          set_sem m
            (record sem { waiting_queue = q })
            (record s {
              threads = kill t.pid Signal.sigstop (record s.threads {
                heap = record h {
                  thread = update h.thread c (some (with_status ThreadStatus.wait t));
                };
              });
            }))
unfolding block
block_run m tid c sem s t q h self at e l = simp (block, self, at, ◌>>=◌, e, modify, l, ==_refl c)

module _ (rs ws : List ℕ) (c : ℕ) (qs : List ℕ) (s : Threads) (q : ThreadQueue)
    (v : IsValid (schedule (Running.active c) rs ws) s) (x : Waits s q qs)
    (off : (r : ℕ)
      → 0 < count r qs
      → count r rs + count r ws + count r (held (Running.active c)) ≡ 0)
    (once : (r : ℕ) → count r qs ≤ 1) where
  not_queued :
      (r : ℕ) → 0 < count r rs + count r ws + count r (held (Running.active c)) → count r qs ≡ 0
  not_queued r k = elim (ℕ-cases (count r qs) 0) [
    | inl e ↦ e
    | inr n ↦ absurd (omega (arith, k, n, off r (omega (arith, n))))
  ]

  off_queue : count c qs ≡ 0
  unfolding count
  off_queue = not_queued c (ground arith)

  once_more : (r : ℕ) → count r (qs ++ c ∷ []) ≤ 1
  unfolding count
  once_more r = ground (arith, once r, off_queue, count-snoc r c qs)

  queued-Alive : (r : ℕ) → 0 < count r (qs ++ c ∷ []) → Alive s.heap r
  unfolding Alive
  queued-Alive r k = elim (ℕ-cases c r) [
    | inl e ↦
        subst (Alive s.heap) e
          (Has-Alive s.heap.thread ThreadStatus.run c (v.links.population.on_active c refl))
    | inr n ↦
        Has-Alive s.heap.thread ThreadStatus.wait r
          (x.waiting r (ground (arith, n, k, count-snoc r c qs)))
  ]

  pub appending : Appended s.ready_queue.tail c qs q s.heap
  appending = enqueue-Appended s.ready_queue.tail c qs q s.heap queued-Alive once_more x.ends

  module _ (t : Thread) (l : s.heap.thread c ≡ some t) (k : 0 < t.pid) where
    abbrev pub after : Threads
    after = kill t.pid Signal.sigstop (record s {
      heap = record appending.new_heap {
        thread = update s.heap.thread c (some (with_status ThreadStatus.wait t));
      };
    })

    listed :
        (r : ℕ)
        → 0 < count r rs + count r ws
        → (appending.new_heap.prev r ≡ s.heap.prev r) × (appending.new_heap.next r ≡ s.heap.next r)
    unfolding count
    listed r n =
        let (f, g) = appending.frame r (λ e. ground (arith, e, n, v.links.population.once r)) in
        (f, g (not_queued r (omega (arith, n))))

    pub after-IsValid : IsValid (schedule (Running.blocked c) rs ws) after
    unfolding Alive
    after-IsValid = record {
      links = record {
        population =
            Population-moved s.heap.thread (schedule (Running.active c) rs ws)
              (schedule (Running.blocked c) rs ws) c t (with_status ThreadStatus.wait t)
              v.links.population l k refl (block-Moves c rs ws (v.links.population.once c));
        ready_ends = v.links.ready_ends;
        back = v.links.back;
        ready_linked =
            Segment-frame s.heap after.heap v.links.back rs none
              (λ r n. listed r (omega (arith, n))) v.links.ready_linked;
        waiting_ends = v.links.waiting_ends;
        waiting_linked =
            Chain-frame s.heap after.heap ws (λ r n. (listed r (omega (arith, n))).1)
              v.links.waiting_linked;
        waiting_first = λ r e.
            let n = first_or-count none ws r e (λ z. ground (arith, z)) in
            (listed r (omega (arith, n))).0 ∙ v.links.waiting_first r e;
      };
      is_current = v.is_current;
      back_off = λ r e.
          let (al, z) = v.back_off r e in
          (Alive-update s.heap.thread c r (with_status ThreadStatus.wait t) al, z);
    }

    first_queued :
        (qs' : List ℕ)
        → qs ≡ qs'
        → (r : ℕ) → first_or none (qs' ++ c ∷ []) ≡ some r
        → appending.new_heap.prev r ≡ none
    unfolding first_or count
    first_queued [] e r n = ap appending.new_heap.prev (ground (arith, n)) ∙ appending.alone e
    first_queued (w ∷ qs') e r n =
        let z : w ≡ r = ground (arith, n) in
        let j : 0 < count r qs = subst (λ y. 0 < count r y) (sym e) (ground (arith, z)) in
        (appending.frame r (λ y. ground (arith, y, j, off_queue))).0
        ∙ x.first r (ap (first_or none) e ∙ n)

    pub after-Waits : Waits after appending.new_queue (qs ++ c ∷ [])
    after-Waits = record {
      ends = appending.ends;
      linked =
          Chain-frame appending.new_heap after.heap (qs ++ c ∷ []) (λ r n. refl)
            (appending.chained x.linked);
      first = first_queued qs refl;
      waiting = λ r n. elim (ℕ-cases c r) [
        | inl e ↦
            Has-self s.heap.thread ThreadStatus.wait ThreadStatus.wait c r
              (with_status ThreadStatus.wait t) refl refl k e
        | inr y ↦
            Has-update s.heap.thread ThreadStatus.wait c r (some (with_status ThreadStatus.wait t))
              y (x.waiting r (ground (arith, y, n, count-snoc r c qs)))
      ];
    }

-- The entries before `tid` are null or have threads that are not freed and have other stacks than `t`.
unfoldable pub OtherStacks : Threads → ℕ → Thread → Type 0
OtherStacks s tid t =
    (j r : ℕ)
    → j < tid
    → (s.table j).p_thread ≡ some r
    → (u : Thread) × (s.heap.thread r ≡ some u) × (u.stack_addr ≢ t.stack_addr)

-- Then thread_self goes past them to the entry of the running thread.
is_current_other :
    (s : Threads) (tid j c : ℕ) (t : Thread)
    → OtherStacks s tid t
    → s.current ≡ some c
    → s.heap.thread c ≡ some t
    → j < tid
    → is_current s j ≡ some false
unfolding OtherStacks
is_current_other s tid j c t o cur l b = elim (Option-cases (s.table j).p_thread) [
  | inl e ↦ rw (is_current, e) refl
  | inr (r, e) ↦
      let (u, f, ne) = o j r b e in
      rw
        (
          is_current,
          e,
          cur,
          l,
          ◌>>=◌,
          f,
          ◌>>=◌,
          ==-false t.stack_addr u.stack_addr (λ z. ne (sym z)),
        )
        refl
]

thread_self-Entry :
    (s : Threads) (tid c : ℕ) (t : Thread)
    → Entry s tid c
    → OtherStacks s tid t
    → s.current ≡ some c
    → s.heap.thread c ≡ some t
    → thread_self s ≡ some tid
unfolding thread_self
thread_self-Entry s tid c t e o cur l =
    search-first (is_current s) 0 max_thread_num tid (omega arith) e.in_table
      (λ j _ b. is_current_other s tid j c t o cur l b)
      (rw (is_current, e.pointer, cur, l, ◌>>=◌, ==_refl t.stack_addr) refl)

-- The running thread goes on the queue of a semaphore, on a valid state where every entry before
-- the thread's own is null or has a thread that is not freed and has another stack (so that
-- thread_self finds the own entry), and where the threads that wait for the semaphore are on its
-- queue once and nowhere else: the thread joins the tail of the queue with status WAIT, one SIGSTOP
-- is sent, to its pid, the count does not change, and the state of the threads stays valid, with no
-- thread that runs.
pub block-Blocked :
    (rs ws : List ℕ) (c : ℕ) (qs : List ℕ) (s : System) (m tid : ℕ) (sem : Semaphore) (t : Thread)
    → IsValid (schedule (Running.active c) rs ws) s.threads
    → Waits s.threads sem.waiting_queue qs
    → ((r : ℕ) → 0 < count r qs → count r rs + count r ws + count r (held (Running.active c)) ≡ 0)
    → ((r : ℕ) → count r qs ≤ 1)
    → Entry s.threads tid c
    → OtherStacks s.threads tid t
    → s.threads.heap.thread c ≡ some t
    → 0 < t.pid
    → (s' : System) × (sem' : Semaphore) × (block m sem s ≡ some s')
      × (s'.semaphores m ≡ some sem')
      × (sem'.count ≡ sem.count)
      × (s'.threads.kills ≡ record { to = t.pid; sig = Signal.sigstop } ∷ s.threads.kills)
      × Waits s'.threads sem'.waiting_queue (qs ++ c ∷ [])
      × IsValid (schedule (Running.blocked c) rs ws) s'.threads
unfolding Alive
block-Blocked rs ws c qs s m tid sem t v x off once e o l k =
    let y = appending rs ws c qs s.threads sem.waiting_queue v x off once in
    let th = after rs ws c qs s.threads sem.waiting_queue v x off once t l k in
    let sem' : Semaphore = record sem { waiting_queue = y.new_queue } in
    (
      set_sem m sem' (record s { threads = th }),
      sem',
      block_run m tid c sem s t y.new_queue y.new_heap
            (thread_self-Entry s.threads tid c t e o v.is_current l)
            (thread_at-Entry s.threads tid c e (t, l)) y.runs
            (ap (λ (g : ℕ → Option Thread). g c) y.threads ∙ l)
          ∙ ap
              (λ (g : ℕ → Option Thread). some (
                set_sem m sem' (record s {
                  threads = kill t.pid Signal.sigstop (record s.threads {
                    heap = record y.new_heap {
                      thread = update g c (some (with_status ThreadStatus.wait t));
                    };
                  });
                })))
              y.threads,
      ground arith,
      refl,
      refl,
      after-Waits rs ws c qs s.threads sem.waiting_queue v x off once t l k,
      after-IsValid rs ws c qs s.threads sem.waiting_queue v x off once t l k,
    )
