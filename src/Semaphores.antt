-- ===== src/Semaphores.antt =====
-- SystemSoftware/Thread-scheduler/semaphore.h and semaphore.c. A `Semaphore` lives at an address of a
-- heap of its own; the threads that wait for it are on a queue of the heap of threads.
pub mod Posting
pub mod Blocking
use kw_home_work.Common.{
  ℕ, zero, Bool, true, false, Option, none, some, List, [], ◌∷◌, ◌==◌, ltb, if◌then◌else◌, ◌>>=◌,
  update, ℤ, inc, dec, is_zero, not, length,
}
use kw_home_work.Threads.{
  ThreadStatus, ThreadQueue, Signal, Threads, max_thread_num, deref, modify, enqueue, unlink,
  search,
}
use kw_home_work.Threads.Calls.{kill, with_status, lose, thread_at, thread_self}

abbrev pub max_semaphore_num : ℕ
max_semaphore_num = 100

abbrev pub sem_name_max : ℕ
sem_name_max = 100

pub record Semaphore : Type 0 where
  pub count : ℤ
  pub waiting_queue : ThreadQueue

pub record SemaphoreTblEnt : Type 0 where
  pub name : List ℕ
  pub b_used : Bool
  pub p_semaphore : Option ℕ

-- `pSemaphoreTblEnt`, the semaphores, and what thread.c keeps.
pub record System : Type 0 where
  pub threads : Threads
  pub semaphores : ℕ → Option Semaphore
  pub sem_table : ℕ → SemaphoreTblEnt

-- `name` has no final zero here. `m` is the address that malloc returns, where `left` is what the
-- memory of the queue holds: it is not initialised.
unfoldable pub thread_sem_open : ℕ → ThreadQueue → List ℕ → ℤ → System → Option ((_ : ℕ) × System)
thread_sem_open m left name count s = do
  i ← search (λ j. some (not (s.sem_table j).b_used)) 0 max_semaphore_num
  if ltb (length name) sem_name_max
      then (let ent : SemaphoreTblEnt = record {
        name = name;
        b_used = true;
        p_semaphore = some m;
      } in
          let sem : Semaphore = record { count = count; waiting_queue = left } in
          some (
            i,
            record s {
              semaphores = update s.semaphores m (some sem);
              sem_table = update s.sem_table i ent;
            },
          ))
      else none

-- `pSemaphoreTblEnt[semid].pSemaphore`.
abbrev pub sem_at : ℕ → System → Option ℕ
sem_at semid s = if ltb semid max_semaphore_num then (s.sem_table semid).p_semaphore else none

abbrev pub set_sem : ℕ → Semaphore → System → System
set_sem m sem s = record s { semaphores = update s.semaphores m (some sem) }

-- `count++` and `count--`.
abbrev pub change_count : (ℤ → ℤ) → ℕ → System → Option System
change_count f m s = do
  sem ← s.semaphores m
  some (set_sem m (record sem { count = f sem.count }) s)

-- The calling thread on the queue of the semaphore, up to its SIGSTOP. Its `pPrev` is set to the tail
-- of the ready queue, unless the queue is empty.
unfoldable pub block : ℕ → Semaphore → System → Option System
block m sem s = do
  tid ← thread_self s.threads
  p ← thread_at tid s.threads
  (q, h) ← enqueue s.threads.ready_queue.tail p sem.waiting_queue s.threads.heap
  h1 ← modify p (with_status ThreadStatus.wait) h
  t ← h1.thread p
  some (
      set_sem m (record sem { waiting_queue = q })
        (record s { threads = kill t.pid Signal.sigstop (record s.threads { heap = h1 }) }))

-- The loop to `START`. What happens from a SIGSTOP until the thread runs again is an argument, one
-- function for each.
unfoldable pub wait_loop : ℕ → List (System → Option System) → System → Option System
wait_loop semid [] s = do
  tid ← thread_self s.threads
  m ← sem_at semid s
  sem ← s.semaphores m
  if is_zero sem.count then none else change_count dec m s
wait_loop semid (stop ∷ stops) s = do
  tid ← thread_self s.threads
  m ← sem_at semid s
  sem ← s.semaphores m
  if is_zero sem.count
      then (do
        s1 ← block m sem s
        s2 ← stop s1
        m2 ← sem_at semid s2
        sem2 ← s2.semaphores m2
        if is_zero sem2.count then wait_loop semid stops s2 else change_count dec m2 s2)
      else change_count dec m s

unfoldable pub thread_sem_wait : ℕ → List (System → Option System) → System → Option System
thread_sem_wait semid stops s = do tid ← thread_self s.threads; wait_loop semid stops s

-- The search for the entry of the thread that has the pid of the head of the queue.
abbrev pub is_waiter : ThreadQueue → Threads → ℕ → Option Bool
is_waiter q s i = elim (s.table i).p_thread [
  | none ↦ some false
  | some p ↦ do t ← s.heap.thread p; w ← deref q.head s.heap; some (t.pid == w.pid)
]

-- The thread off the queue of the semaphore and on the ready queue.
unfoldable pub wake : ℕ → ℕ → Semaphore → System → Option System
wake p m sem s = do
  (w, h) ← unlink p sem.waiting_queue s.threads.heap
  h1 ← modify p (with_status ThreadStatus.ready) h
  (q, h2) ← enqueue s.threads.ready_queue.tail p s.threads.ready_queue h1
  some (
      set_sem m (record sem { waiting_queue = lose w })
        (record s { threads = record s.threads { heap = h2; ready_queue = q } }))

unfoldable pub thread_sem_post : ℕ → System → Option System
thread_sem_post semid s = do
  m ← sem_at semid s
  sem ← s.semaphores m
  let more : Semaphore = record sem { count = inc sem.count }
  if is_zero sem.waiting_queue.queue_count then some (set_sem m more s) else do
    tid ← search (is_waiter sem.waiting_queue s.threads) 0 max_thread_num
    p ← thread_at tid s.threads
    wake p m more s

-- `memset` clears the name. The pointer stays.
unfoldable pub thread_sem_close : ℕ → System → Option System
thread_sem_close semid s =
    let ent : SemaphoreTblEnt = record (s.sem_table semid) { name = []; b_used = false } in
    let freed : System = record s { sem_table = update s.sem_table semid ent } in
    if ltb semid max_semaphore_num
    then elim (s.sem_table semid).p_semaphore [
      | none ↦ some freed
      | some m ↦ some (record freed { semaphores = update s.semaphores m none })
    ]
    else none
