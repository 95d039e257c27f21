-- ===== src/Threads.antt =====
-- SystemSoftware/Thread-scheduler/thread.h: threads on a heap, and the code of thread.c that puts
-- them on a queue and takes them off. A field of the heap's structs is a function of the address:
-- the links `pPrev` and `pNext` have one each, the other fields are in a `Thread`. A null pointer is
-- `none`, and so is the `Thread` at an address that is not allocated: to go through it is a fault.
pub mod Calls
pub mod Join
pub mod Scheduler
pub mod Lists
pub mod Cut
pub mod Ends
pub mod Removal
pub mod Append
pub mod Population
pub mod Places
pub mod Valid
pub mod Tables
pub mod Create
pub mod Moves
pub mod Suspend
pub mod Resume
pub mod Cancelled
pub mod Cancel
pub mod Ticks
pub mod Switches
pub mod Turns
pub mod Timer
pub mod Runs
use kw_home_work.Common.{
  ℕ, Bool, true, false, Option, none, some, ◌==◌, if◌then◌else◌, ◌>>=◌, update, ℤ, inc, dec,
  is_zero, List, ◌∷◌, zero, suc,
}

abbrev pub timeslice : ℕ
timeslice = 2

abbrev pub max_thread_num : ℕ
max_thread_num = 64

abbrev pub stack_size_bytes : ℕ
stack_size_bytes = 65536

pub data ThreadStatus : Type 0 where
  run ready wait zombie : ThreadStatus

pub record Thread : Type 0 where
  pub stack_size : ℕ
  pub stack_addr : ℕ
  pub status : ThreadStatus
  pub pid : ℕ
  pub cpu_time : ℕ

pub record Heap : Type 0 where
  pub thread : ℕ → Option Thread
  pub prev : ℕ → Option ℕ
  pub next : ℕ → Option ℕ

pub record ThreadQueue : Type 0 where
  pub queue_count : ℤ
  pub head : Option ℕ
  pub tail : Option ℕ

pub record ThreadTblEnt : Type 0 where
  pub b_used : Bool
  pub p_thread : Option ℕ

pub data Signal : Type 0 where
  sigalrm sigstop sigcont sigkill : Signal

pub record Kill : Type 0 where
  pub to : ℕ
  pub sig : Signal

-- The globals of thread.c, the heap, and the signals sent, the latest first.
pub record Threads : Type 0 where
  pub heap : Heap
  pub ready_queue : ThreadQueue
  pub waiting_queue : ThreadQueue
  pub table : ℕ → ThreadTblEnt
  pub current : Option ℕ
  pub kills : List Kill

abbrev pub is_zombie : ThreadStatus → Bool
is_zombie ThreadStatus.zombie = true
is_zombie _ = false

abbrev pub is_wait : ThreadStatus → Bool
is_wait ThreadStatus.wait = true
is_wait _ = false

abbrev pub is_ready : ThreadStatus → Bool
is_ready ThreadStatus.ready = true
is_ready _ = false

-- `*p`.
abbrev pub deref : Option ℕ → Heap → Option Thread
deref none h = none
deref (some p) h = h.thread p

abbrev pub modify : ℕ → (Thread → Thread) → Heap → Option Heap
modify p f h = do t ← h.thread p; some (record h { thread = update h.thread p (some (f t)) })

-- `a->pPrev = v` and `a->pNext = v`.
abbrev pub set_prev : Option ℕ → Option ℕ → Heap → Option Heap
set_prev none v h = none
set_prev (some a) v h = do t ← h.thread a; some (record h { prev = update h.prev a v })

abbrev pub set_next : Option ℕ → Option ℕ → Heap → Option Heap
set_next none v h = none
set_next (some a) v h = do t ← h.thread a; some (record h { next = update h.next a v })

-- A thread at the tail of a queue, `back` being what its `pPrev` is set to if the queue is not empty.
unfoldable pub enqueue : Option ℕ → ℕ → ThreadQueue → Heap → Option ((_ : ThreadQueue) × Heap)
enqueue back p q h =
    if is_zero q.queue_count
    then (do
      h1 ← set_prev (some p) none h
      h2 ← set_next (some p) none h1
      some (record q { queue_count = inc q.queue_count; head = some p; tail = some p }, h2))
    else do
      h1 ← set_prev (some p) back h
      h2 ← set_next q.tail (some p) h1
      h3 ← set_next (some p) none h2
      some (record q { queue_count = inc q.queue_count; tail = some p }, h3)

-- `p->pPrev->pNext = p->pNext; p->pNext->pPrev = p->pPrev`.
abbrev pub relink : ℕ → Heap → Option Heap
relink p h = do h1 ← set_next (h.prev p) (h.next p) h; set_prev (h1.next p) (h1.prev p) h1

-- Whether the thread's process is that of the head of the queue.
abbrev pub is_head : ℕ → ThreadQueue → Heap → Option Bool
is_head p q h = do t ← deref q.head h; u ← h.thread p; some (t.pid == u.pid)

abbrev pub skip_head : ℕ → ThreadQueue → Heap → Option ThreadQueue
skip_head p q h = do
  at_head ← is_head p q h
  some (if at_head then record q { head = h.next p } else q)

-- A thread off a queue: the code of `thread_resume`, `thread_join` and `thread_sem_post`,
unfoldable pub unlink : ℕ → ThreadQueue → Heap → Option ((_ : ThreadQueue) × Heap)
unlink p q h = elim (h.prev p) [
  | none ↦ elim (h.next p) [
    | none ↦ some (q, h)
    | some b ↦ do h1 ← set_prev (some b) none h; some (record q { head = some b }, h1)
  ]
  | some a ↦ elim (h.next p) [
    | none ↦ do h1 ← set_next (some a) none h; some (record q { tail = some a }, h1)
    | some b ↦ do h1 ← relink p h; some (q, h1)
  ]
]

-- that of `thread_suspend`,
unfoldable pub unlink_suspended : ℕ → ThreadQueue → Heap → Option ((_ : ThreadQueue) × Heap)
unlink_suspended p q h = elim (h.prev p) [
  | none ↦ elim (h.next p) [
    | none ↦ some (q, h)
    | some b ↦ do h1 ← set_prev (some b) none h; some (record q { head = some b }, h1)
  ]
  | some a ↦ elim (h.next p) [
    | none ↦ do h1 ← set_next (some a) none h; some (record q { tail = some a }, h1)
    | some b ↦ do q1 ← skip_head p q h; h1 ← relink p h; some (q1, h1)
  ]
]

-- and that of `thread_cancel`.
unfoldable pub unlink_cancelled : ℕ → ThreadQueue → Heap → Option ((_ : ThreadQueue) × Heap)
unlink_cancelled p q h = elim (h.prev p) [
  | none ↦ elim (h.next p) [
    | none ↦ some (q, h)
    | some b ↦ do
      q1 ← skip_head p q h
      h1 ← set_prev (some b) none h
      some (record q1 { head = some b }, h1)
  ]
  | some a ↦ elim (h.next p) [
    | none ↦ do
      at_head ← is_head p q h
      if at_head
          then some (record q { head = none; tail = none }, h)
          else do h1 ← set_next (some a) none h; some (record q { tail = some a }, h1)
    | some b ↦ do q1 ← skip_head p q h; h1 ← relink p h; some (q1, h1)
  ]
]

-- A loop that counts up over a table until its test holds, for as many entries as are left. Past
-- the last is a fault, and so is a test that faults.
unfoldable pub search : (ℕ → Option Bool) → ℕ → ℕ → Option ℕ
search test i zero = none
search test i (suc n) =
    let rest = search test (suc i) n in
    elim (test i) [ none ↦ none | some found ↦ if found then some i else rest ]
