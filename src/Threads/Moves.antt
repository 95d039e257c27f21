-- ===== src/Threads/Moves.antt =====
-- The steps of thread_suspend and thread_resume in SystemSoftware/Thread-scheduler/thread.c, and the
-- move of a thread between the lists of a schedule.
use kw_home_work.Common.{
  ℕ, ◌+◌, ◌<◌, ◌≤◌, ◌≡◌, refl, ap, some, List, [], ◌∷◌, ◌++◌, arith, ◌==◌, if◌then◌else◌, update,
  count, count-append, count-snoc, ◌>>=◌, ltb-true, true, false,
}
use kw_home_work.Threads.{
  Thread, ThreadStatus, Threads, Heap, ThreadQueue, max_thread_num, is_wait, modify,
  unlink_suspended, unlink, enqueue,
}
use kw_home_work.Threads.Calls.{thread_suspend, thread_resume, thread_at, with_status, lose}
use kw_home_work.Threads.Cut.{cut}
use kw_home_work.Threads.Append.{Alive}
use kw_home_work.Threads.Population.{held, Running, Schedule}
use kw_home_work.Threads.Places.{Moves}

-- `tid` is the entry of the thread.
pub record Entry (s : Threads) (tid p : ℕ) : Type 0 where
  pub in_table : tid < max_thread_num
  pub pointer : (s.table tid).p_thread ≡ some p

pub thread_at-Entry :
    (s : Threads) (tid p : ℕ) → Entry s tid p → Alive s.heap p → thread_at tid s ≡ some p
unfolding Alive
thread_at-Entry s tid p e (t, l) =
    rw
      (thread_at, ltb-true tid max_thread_num e.in_table, if◌then◌else◌, e.pointer, ◌>>=◌, l, ◌>>=◌)
      refl

-- The steps of thread_suspend in turn.
pub suspend_run :
    (tid p : ℕ) (s : Threads) (t u : Thread) (q w : ThreadQueue) (h h1 : Heap)
    → thread_at tid s ≡ some p
    → s.heap.thread p ≡ some t
    → is_wait t.status ≡ false
    → unlink_suspended p s.ready_queue s.heap ≡ some (q, h)
    → enqueue q.tail p s.waiting_queue h ≡ some (w, h1)
    → h1.thread p ≡ some u
    → thread_suspend tid s
      ≡ some (
        true,
        record s {
          heap = record h1 { thread = update h1.thread p (some (with_status ThreadStatus.wait u)) };
          ready_queue = lose q;
          waiting_queue = w;
        },
      )
unfolding thread_suspend
suspend_run tid p s t u q w h h1 at l n cut enq m =
    rw (at, ◌>>=◌, l, ◌>>=◌, n, if◌then◌else◌, cut, ◌>>=◌, lose, enq, ◌>>=◌, modify, m, ◌>>=◌) refl

pub resume_run :
    (tid p : ℕ) (s : Threads) (t u : Thread) (q w : ThreadQueue) (h h1 : Heap)
    → thread_at tid s ≡ some p
    → s.heap.thread p ≡ some t
    → is_wait t.status ≡ true
    → unlink p s.waiting_queue s.heap ≡ some (w, h)
    → h.thread p ≡ some u
    → enqueue s.ready_queue.tail p s.ready_queue
        (record h { thread = update h.thread p (some (with_status ThreadStatus.ready u)) })
      ≡ some (q, h1)
    → thread_resume tid s
      ≡ some (true, record s { heap = h1; ready_queue = q; waiting_queue = lose w })
unfolding thread_resume
resume_run tid p s t u q w h h1 at l n cut m enq =
    rw (at, ◌>>=◌, l, ◌>>=◌, n, if◌then◌else◌, cut, ◌>>=◌, modify, m, ◌>>=◌, enq, ◌>>=◌) refl

abbrev pub schedule : Running → List ℕ → List ℕ → Schedule
schedule run rs ws = record { running = run; ready_list = rs; waiting_list = ws }

pub count-drop :
    (xs : List ℕ) (p : ℕ) (ys : List ℕ) (r : ℕ)
    → count r (xs ++ p ∷ ys) ≡ count r (xs ++ ys) + (if p == r then 1 else 0)
unfolding count
count-drop xs p ys r = omega (arith, count-append r xs (p ∷ ys), count-append r xs ys)

pub suspend-Moves :
    (run : Running) (xs : List ℕ) (p : ℕ) (ys ws : List ℕ)
    → count p (xs ++ p ∷ ys) + count p ws + count p (held run) ≤ 1
    → (run ≡ Running.active p → ⊥)
    → (run ≡ Running.ended p → ⊥)
    → (run ≡ Running.blocked p → ⊥)
    → Moves
        (schedule run (xs ++ p ∷ ys) ws)
        (schedule run (xs ++ ys) (ws ++ p ∷ []))
        p
        ThreadStatus.wait
suspend-Moves run xs p ys ws o na ne nb = record {
  ready_as = λ r n. ground (arith, n, count-drop xs p ys r);
  waiting_as = λ r n. ground (arith, n, count-snoc r p ws);
  held_as = λ r n. omega arith;
  active_as = λ r n e. e;
  ended_as = λ r n e. e;
  blocked_as = λ r n e. e;
  if_ready = λ k. absurd (ground (arith, k, o, count-drop xs p ys p));
  if_waiting = λ k. refl;
  if_active = λ e. absurd (na e);
  if_ended = λ e. absurd (ne e);
  if_blocked = λ e. absurd (nb e);
  one_place = ground (arith, o, count-drop xs p ys p, count-snoc p p ws);
}

pub resume-Moves :
    (run : Running) (rs : List ℕ) (p : ℕ) (ws : List ℕ)
    → count p rs + count p (p ∷ ws) + count p (held run) ≤ 1
    → (run ≡ Running.active p → ⊥)
    → (run ≡ Running.ended p → ⊥)
    → (run ≡ Running.blocked p → ⊥)
    → Moves (schedule run rs (p ∷ ws)) (schedule run (rs ++ p ∷ []) ws) p ThreadStatus.ready
unfolding count
resume-Moves run rs p ws o na ne nb = record {
  ready_as = λ r n. ground (arith, n, count-snoc r p rs);
  waiting_as = λ r n. ground (arith, n);
  held_as = λ r n. omega arith;
  active_as = λ r n e. e;
  ended_as = λ r n e. e;
  blocked_as = λ r n e. e;
  if_ready = λ k. refl;
  if_waiting = λ k. absurd (ground (arith, k, o));
  if_active = λ e. absurd (na e);
  if_ended = λ e. absurd (ne e);
  if_blocked = λ e. absurd (nb e);
  one_place = ground (arith, o, count-snoc p p rs);
}

-- A thread on a list does not run.
listed-held :
    (run run' : Running) (p n : ℕ)
    → 0 < n
    → n + count p (held run) ≤ 1
    → run ≡ run'
    → count p (held run') ≡ 0
listed-held run run' p n k o e = omega (arith, ap (λ z. count p (held z)) e)

pub not_active :
    (run : Running) (p n : ℕ) → 0 < n → n + count p (held run) ≤ 1 → run ≡ Running.active p → ⊥
unfolding count
not_active run p n k o e = ground (arith, listed-held run (Running.active p) p n k o e)

pub not_ended :
    (run : Running) (p n : ℕ) → 0 < n → n + count p (held run) ≤ 1 → run ≡ Running.ended p → ⊥
unfolding count
not_ended run p n k o e = ground (arith, listed-held run (Running.ended p) p n k o e)

pub not_blocked :
    (run : Running) (p n : ℕ) → 0 < n → n + count p (held run) ≤ 1 → run ≡ Running.blocked p → ⊥
unfolding count
not_blocked run p n k o e = ground (arith, listed-held run (Running.blocked p) p n k o e)
