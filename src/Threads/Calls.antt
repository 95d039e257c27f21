-- ===== src/Threads/Calls.antt =====
-- SystemSoftware/Thread-scheduler/thread.c: the calls, apart from thread_join. A result -1 is
-- `false`. The address that malloc returns and the pid that clone returns are arguments; both calls
-- are taken to succeed.
use kw_home_work.Common.{
  ℕ, Bool, true, false, Option, none, some, ◌∷◌, ◌==◌, ltb, if◌then◌else◌, ◌>>=◌, update, ℤ, dec,
  not, ◌&&◌,
}
use kw_home_work.Threads.{
  ThreadStatus, Thread, Heap, ThreadQueue, ThreadTblEnt, Signal, Kill, Threads, max_thread_num,
  stack_size_bytes, is_wait, is_ready, deref, modify, enqueue, unlink, unlink_suspended,
  unlink_cancelled, search,
}

unfoldable pub init : Threads → Threads
init s = record s {
  ready_queue = record { queue_count = ℤ.pos 0; head = none; tail = none };
  waiting_queue = record { queue_count = ℤ.pos 0; head = none; tail = none };
  table = λ i. if ltb i max_thread_num then record (s.table i) { b_used = false } else s.table i;
}

-- `kill`.
abbrev pub kill : ℕ → Signal → Threads → Threads
kill to sig s = let k : Kill = record { to = to; sig = sig } in record s { kills = k ∷ s.kills }

-- `pThreadTbEnt[tid].pThread`, for a read or a write through it.
abbrev pub thread_at : ℕ → Threads → Option ℕ
thread_at tid s =
    if ltb tid max_thread_num
    then (do p ← (s.table tid).p_thread; t ← s.heap.thread p; some p)
    else none

-- The Thread stands at the start of its own stack.
abbrev pub new_thread : ℕ → ℕ → Thread
new_thread p pid = record {
  stack_size = stack_size_bytes;
  stack_addr = p;
  status = ThreadStatus.ready;
  pid = pid;
  cpu_time = 0;
}

abbrev pub free_tid : (ℕ → ThreadTblEnt) → Option ℕ
unfolding search
free_tid table = search (λ i. some (not (table i).b_used)) 0 max_thread_num

unfoldable pub thread_create : ℕ → ℕ → Threads → Option ((_ : ℕ) × Threads)
unfolding search enqueue
thread_create p pid s = do
  tid ← free_tid s.table
  let s1 = kill pid Signal.sigstop s
  let h = record s.heap { thread = update s.heap.thread p (some (new_thread p pid)) }
  (q, h1) ← enqueue s.ready_queue.tail p s.ready_queue h
  let ent : ThreadTblEnt = record { b_used = true; p_thread = some p }
  some (tid, record s1 { heap = h1; ready_queue = q; table = update s.table tid ent })

abbrev pub with_status : ThreadStatus → Thread → Thread
with_status st t = record t { status = st }

abbrev pub lose : ThreadQueue → ThreadQueue
lose q = record q { queue_count = dec q.queue_count }

-- The waiting queue's new element points back at the tail of the ready queue.
unfoldable pub thread_suspend : ℕ → Threads → Option ((_ : Bool) × Threads)
unfolding enqueue unlink_suspended
thread_suspend tid s = do
  p ← thread_at tid s
  t ← s.heap.thread p
  if is_wait t.status then some (false, s) else do
    (q, h) ← unlink_suspended p s.ready_queue s.heap
    let r = lose q
    (w, h1) ← enqueue r.tail p s.waiting_queue h
    h2 ← modify p (with_status ThreadStatus.wait) h1
    some (true, record s { heap = h2; ready_queue = r; waiting_queue = w })

unfoldable pub thread_resume : ℕ → Threads → Option ((_ : Bool) × Threads)
unfolding enqueue unlink
thread_resume tid s = do
  p ← thread_at tid s
  t ← s.heap.thread p
  if is_wait t.status
      then (do
        (w, h) ← unlink p s.waiting_queue s.heap
        h1 ← modify p (with_status ThreadStatus.ready) h
        (r, h2) ← enqueue s.ready_queue.tail p s.ready_queue h1
        some (true, record s { heap = h2; ready_queue = r; waiting_queue = lose w }))
      else some (false, s)

abbrev pub free : ℕ → Heap → Heap
free p h = record h { thread = update h.thread p none }

-- The test `status == THREAD_STATUS_READY || THREAD_STATUS_RUN` is that of READY alone, since RUN
-- is 0. The entry stays used: `bUsed == 0` is no assignment. The body ends without a `return`:
-- the result there is `none`.
unfoldable pub thread_cancel : ℕ → Threads → Option (Option Bool × Threads)
unfolding unlink_cancelled
thread_cancel tid s =
    if ltb tid max_thread_num && not (s.table tid).b_used then some (some false, s) else do
      p ← thread_at tid s
      t ← s.heap.thread p
      let s1 = kill t.pid Signal.sigkill s
      if is_ready t.status
          then (do
            (q, h) ← unlink_cancelled p (lose s.ready_queue) s.heap
            some (none, record s1 { heap = free p h; ready_queue = q }))
          else if is_wait t.status
          then (do
            (w, h) ← unlink_cancelled p (lose s.waiting_queue) s.heap
            some (none, record s1 { heap = free p h; waiting_queue = w }))
          else some (none, record s1 { heap = free p s.heap })

-- The entry whose thread has the stack of the current one.
abbrev pub is_current : Threads → ℕ → Option Bool
is_current s i = elim (s.table i).p_thread [
  | none ↦ some false
  | some p ↦ do c ← deref s.current s.heap; t ← s.heap.thread p; some (c.stack_addr == t.stack_addr)
]

unfoldable pub thread_self : Threads → Option ℕ
unfolding search
thread_self s = search (is_current s) 0 max_thread_num

unfoldable pub thread_cputime : Threads → Option ℕ
thread_cputime s = do c ← deref s.current s.heap; some c.cpu_time

unfoldable pub thread_exit : Threads → Option Threads
thread_exit s = do
  c ← s.current
  h ← modify c (with_status ThreadStatus.zombie) s.heap
  some (record s { heap = h })
