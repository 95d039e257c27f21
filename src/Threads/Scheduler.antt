-- ===== src/Threads/Scheduler.antt =====
-- SystemSoftware/Thread-scheduler/scheduler.c: the context switch and the timer's handler.
use kw_home_work.Common.{
  ℕ, ◌+◌, Bool, true, false, Option, none, some, ◌==◌, if◌then◌else◌, ◌>>=◌, is_zero, is_pos,
}
use kw_home_work.Threads.{
  ThreadStatus, Thread, Signal, Threads, timeslice, is_wait, is_zombie, deref, modify, enqueue,
}
use kw_home_work.Threads.Calls.{kill, with_status, lose}

-- What the switch does with the thread that ran: a zombie is killed and forgotten, another goes to
-- the tail of the ready queue.
unfoldable pub put_back : ℕ → Threads → Option Threads
put_back curpid s = do
  c ← s.current
  t ← s.heap.thread c
  if is_zombie t.status then some (record (kill curpid Signal.sigkill s) { current = none }) else do
    h ← modify c (with_status ThreadStatus.ready) s.heap
    (q, h1) ← enqueue s.ready_queue.tail c s.ready_queue h
    some (record s { heap = h1; ready_queue = q })

-- The head of the ready queue becomes the current thread. The queue keeps its head when it is
-- empty afterwards.
unfoldable pub take_head : Threads → Option Threads
take_head s =
    let q = lose s.ready_queue in
    if is_zero q.queue_count then some (record s { current = q.head; ready_queue = q }) else do
      h ← q.head
      t ← s.heap.thread h
      some (record s { current = q.head; ready_queue = record q { head = s.heap.next h } })

abbrev pub started : ℕ → Thread → Thread
started newpid t = record t {
  status = if is_zombie t.status then t.status else ThreadStatus.run;
  cpu_time = t.cpu_time + timeslice;
  pid = newpid;
}

-- The code from `NOTHREAD` on.
unfoldable pub start : ℕ → Threads → Option Threads
start newpid s = do
  c ← s.current
  h ← modify c (started newpid) s.heap
  some (kill newpid Signal.sigcont (record s { heap = h }))

unfoldable pub context_switch : ℕ → ℕ → Threads → Option Threads
context_switch curpid newpid s =
    if curpid == 0
    then (do s1 ← take_head s; start newpid s1)
    else if newpid == 0
    then start curpid s
    else do s1 ← put_back curpid s; s2 ← take_head s1; start newpid s2

abbrev pub is_alarm : Signal → Bool
is_alarm Signal.sigalrm = true
is_alarm _ = false

-- The handler with a thread running, after its SIGSTOP.
unfoldable pub switch_from : Thread → Threads → Option Threads
switch_from t s =
    if is_pos s.ready_queue.queue_count
    then (do
      n ← deref s.ready_queue.head s.heap
      context_switch (if is_wait t.status then 0 else t.pid) n.pid s)
    else if is_zero s.ready_queue.queue_count
    then context_switch t.pid 0 s
    else some s

-- The handler of an alarm, by the current thread.
unfoldable pub alarm : Option ℕ → Threads → Option Threads
alarm none s = do n ← deref s.ready_queue.head s.heap; context_switch 0 n.pid s
alarm (some c) s = do
  t ← s.heap.thread c
  switch_from t (if t.pid == 0 then s else kill t.pid Signal.sigstop s)

unfoldable pub timer : Signal → Threads → Option Threads
timer sig s = if is_alarm sig then alarm s.current s else some s
