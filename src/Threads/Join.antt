-- ===== src/Threads/Join.antt =====
-- SystemSoftware/Thread-scheduler/thread.c: thread_join. It moves the caller to the waiting queue,
-- pauses until the thread has ended, and moves the caller to the ready queue. What happens during a
-- pause, the timer's handler and the other threads, is an argument, one function for each pause.
use kw_home_work.Common.{
  ℕ, Bool, Option, none, some, List, [], ◌∷◌, ◌==◌, if◌then◌else◌, ◌>>=◌, update, is_pos, inc,
}
use kw_home_work.Threads.{
  ThreadStatus, Heap, ThreadQueue, Signal, Threads, ThreadTblEnt, max_thread_num, is_zombie, deref,
  modify, set_prev, set_next, relink, unlink, search,
}
use kw_home_work.Threads.Calls.{kill, with_status, lose, free, thread_at}

-- The test of the first loop, which goes through every entry's pointer.
abbrev pub is_caller : Threads → ℕ → Option Bool
is_caller s i = do
  c ← deref s.current s.heap
  t ← deref (s.table i).p_thread s.heap
  some (c.stack_addr == t.stack_addr)

-- The caller at the tail of a queue, with the test `queueCount < 1` instead of `== 0`,
unfoldable pub append : ℕ → ThreadQueue → Heap → Option ((_ : ThreadQueue) × Heap)
append p q h =
    if is_pos q.queue_count
    then (do
      h1 ← set_prev (some p) q.tail h
      h2 ← set_next q.tail (some p) h1
      h3 ← set_next (some p) none h2
      some (record q { queue_count = inc q.queue_count; tail = some p }, h3))
    else do
      h1 ← set_prev (some p) none h
      h2 ← set_next (some p) none h1
      some (record q { queue_count = inc q.queue_count; head = some p; tail = some p }, h2)

-- and, when it comes back, with a test of the tail.
unfoldable pub append_back : ℕ → ThreadQueue → Heap → Option ((_ : ThreadQueue) × Heap)
unfolding append
append_back p q h =
    if is_pos q.queue_count
    then elim q.tail [
      | none ↦ do
        h1 ← set_prev (some p) none h
        h2 ← set_next (some p) none h1
        some (record q { queue_count = inc q.queue_count; tail = some p }, h2)
      | some a ↦ append p q h
    ]
    else append p q h

-- Up to the loop of pauses. The result has the caller's entry.
unfoldable pub join_start : Threads → Option ((_ : ℕ) × Threads)
unfolding search append
join_start s = do
  parent ← search (is_caller s) 0 max_thread_num
  c ← s.current
  (w, h) ← append c s.waiting_queue s.heap
  let s1 = record s { heap = h; waiting_queue = w }
  elim (h.next c) [
    | none ↦ some (parent, record s1 { current = none })
    | some _ ↦ elim (h.prev c) [
      | none ↦ some (parent, record s1 { current = none })
      | some _ ↦ do p ← thread_at parent s1; h1 ← relink p h; some (parent, record s1 { heap = h1 })
    ]
  ]

-- The loop of pauses.
unfoldable pub wait_for : ℕ → List (Threads → Option Threads) → Threads → Option Threads
wait_for tid [] s = do
  p ← thread_at tid s
  t ← s.heap.thread p
  if is_zombie t.status then some s else none
wait_for tid (pause ∷ pauses) s = do
  p ← thread_at tid s
  t ← s.heap.thread p
  if is_zombie t.status then some s else do s1 ← pause s; wait_for tid pauses s1

-- After the loop.
unfoldable pub join_end : ℕ → ℕ → Threads → Option Threads
unfolding unlink append_back
join_end tid parent s = do
  p ← thread_at parent s
  (w, h) ← unlink p s.waiting_queue s.heap
  h1 ← modify p (with_status ThreadStatus.ready) h
  (r, h2) ← append_back p s.ready_queue h1
  u ← h2.thread p
  let s1 = record s { heap = h2; ready_queue = r; waiting_queue = lose w }
  let s2 = kill u.pid Signal.sigstop s1
  q ← (s2.table tid).p_thread
  let ent : ThreadTblEnt = record (s2.table tid) { p_thread = none }
  some (record s2 { heap = free q s2.heap; table = update s2.table tid ent })

unfoldable pub thread_join : ℕ → List (Threads → Option Threads) → Threads → Option Threads
unfolding join_start wait_for join_end
thread_join tid pauses s = do
  (parent, s1) ← join_start s
  s2 ← wait_for tid pauses s1
  join_end tid parent s2
