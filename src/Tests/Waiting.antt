-- ===== src/Tests/Waiting.antt =====
-- The semaphores of SystemSoftware/Thread-scheduler/semaphore.c at concrete inputs: a thread waits, and
-- is posted to.
use mathlib.Core.Path.{subst}
use kw_home_work.Common.{
  zero, suc, ℕ, ◌+◌, ◌<◌, ◌≡◌, ◌≢◌, refl, ◌∙◌, true, some, [], ◌∷◌, arith, count, count-nil, ℤ,
  update, ◌>>=◌, Option, ℕ-cases, inl, inr,
}
use kw_home_work.Threads.{Threads, ThreadStatus, Thread, Signal}
use kw_home_work.Threads.Append.{Alive}
use kw_home_work.Threads.Population.{held, Running, Has-Alive}
use kw_home_work.Threads.Valid.{IsValid}
use kw_home_work.Threads.Moves.{schedule}
use kw_home_work.Threads.Lists.{first_or, last_or, Chain}
use kw_home_work.Semaphores.{Semaphore, System, thread_sem_post, block}
use kw_home_work.Semaphores.Posting.{Waits, Before, thread_sem_post-Posted}
use kw_home_work.Semaphores.Blocking.{OtherStacks, block-Blocked}
use kw_home_work.Tests.Threading.{program, s6, empty, v6, entry6}
use kw_home_work.Threads.Scheduler.{timer}

-- The waiting thread of s6 waits for a semaphore instead.
abbrev threads : Threads
threads = record s6 { waiting_queue = empty }

abbrev semaphore : Semaphore
semaphore = record { count = ℤ.pos 0; waiting_queue = s6.waiting_queue }

abbrev system : System
system = record {
  threads = threads;
  semaphores = λ m. some semaphore;
  sem_table = λ i. record { name = []; b_used = true; p_semaphore = some 50 };
}

-- A running thread that waits while none is ready is set to RUN by an alarm.
abbrev waiter : Thread
waiter = record {
  stack_size = 65536;
  stack_addr = 200;
  status = ThreadStatus.wait;
  pid = 12;
  cpu_time = 2;
}

abbrev status_of : ℕ → Option Threads → Option ThreadStatus
status_of p o = do s ← o; t ← s.heap.thread p; some t.status

abbrev blocked : Threads
blocked = record s6 {
  ready_queue = empty;
  heap = record s6.heap { thread = update s6.heap.thread 200 (some waiter) };
}

blocked_runs : status_of 200 (timer Signal.sigalrm blocked) ≡ some ThreadStatus.run
unfolding program
blocked_runs = refl

v : IsValid (schedule (Running.active 200) (100 ∷ []) []) threads
unfolding Chain first_or last_or count
v = record {
  links = record {
    population = record {
      on_ready = v6.links.population.on_ready;
      on_waiting = λ p k. absurd (omega (arith, k));
      on_active = v6.links.population.on_active;
      on_ended = v6.links.population.on_ended;
      on_blocked = v6.links.population.on_blocked;
      pids = v6.links.population.pids;
      once = λ r. omega (arith, v6.links.population.once r);
    };
    ready_ends = v6.links.ready_ends;
    back = v6.links.back;
    ready_linked = v6.links.ready_linked;
    waiting_ends = record {
      counted = refl;
      at_head = λ p k. absurd (ground (arith, k));
      at_tail = λ p k. absurd (ground (arith, k));
    };
    waiting_linked = refl;
    waiting_first = λ p k. absurd (ground (arith, k));
  };
  is_current = v6.is_current;
  back_off = λ r e. let (al, z) = v6.back_off r e in (al, omega (arith, z));
}

waits : Waits threads s6.waiting_queue (300 ∷ [])
waits = record {
  ends = v6.links.waiting_ends;
  linked = v6.links.waiting_linked;
  first = v6.links.waiting_first;
  waiting = v6.links.population.on_waiting;
}

off :
    (r : ℕ)
    → 0 < count r (300 ∷ [])
    → count r (100 ∷ []) + count r [] + count r (held (Running.active 200)) ≡ 0
off r k = omega (arith, k, v6.links.population.once r, count-nil r)

not_back : v.links.back ≡ some 300 → ⊥
unfolding v count
not_back e = ground (arith, (v6.back_off 300 e).1)

there : (p r : ℕ) → Alive threads.heap p → p ≢ 300 → p ≡ r → Alive threads.heap r × (r ≢ 300)
there p r a n e = (subst (Alive threads.heap) e a, λ z. n (e ∙ z))

before : Before threads 2 300
unfolding Before program Alive count
before zero r k e =
    there 100 r
      (Has-Alive threads.heap.thread ThreadStatus.ready 100
        (v.links.population.on_ready 100 (omega arith)))
      (omega arith) (ground (arith, e))
before (suc zero) r k e =
    there 200 r
      (Has-Alive threads.heap.thread ThreadStatus.run 200 (v.links.population.on_active 200 refl))
      (omega arith) (ground (arith, e))
before (suc (suc j)) r k e = absurd (omega (arith, k))

thread_sem_post-Posted_example :
    (s' : System) × (sem' : Semaphore) × (thread_sem_post 0 system ≡ some s')
    × (s'.semaphores 50 ≡ some sem')
    × (sem'.count ≡ ℤ.pos 1)
    × Waits s'.threads sem'.waiting_queue []
    × IsValid (schedule (Running.active 200) (100 ∷ 300 ∷ []) []) s'.threads
thread_sem_post-Posted_example =
    thread_sem_post-Posted (Running.active 200) (100 ∷ []) [] 300 [] system 0 50 2 semaphore v waits
      off (λ r. omega (arith, v6.links.population.once r)) not_back refl refl
      (record { in_table = entry6.in_table; pointer = entry6.pointer }) before

abbrev runner : Thread
runner = record waiter { status = ThreadStatus.run }

others : OtherStacks threads 1 runner
unfolding OtherStacks program
others zero r k e = elim (ℕ-cases 100 r) [
  | inl z ↦
      subst (λ x. (u : Thread) × (threads.heap.thread x ≡ some u) × (u.stack_addr ≢ 200)) z
        (
          record waiter { stack_addr = 100; status = ThreadStatus.ready; pid = 11 },
          refl,
          omega arith,
        )
  | inr n ↦ absurd (ground (arith, n, e))
]
others (suc j) r k e = absurd (omega (arith, k))

block-Blocked_example :
    (s' : System) × (sem' : Semaphore) × (block 50 semaphore system ≡ some s')
    × (s'.semaphores 50 ≡ some sem')
    × (sem'.count ≡ ℤ.pos 0)
    × (s'.threads.kills ≡ record { to = 12; sig = Signal.sigstop } ∷ threads.kills)
    × Waits s'.threads sem'.waiting_queue (300 ∷ 200 ∷ [])
    × IsValid (schedule (Running.blocked 200) (100 ∷ []) []) s'.threads
unfolding program
block-Blocked_example =
    block-Blocked (100 ∷ []) [] 200 (300 ∷ []) system 50 1 semaphore runner v waits off
      (λ r. omega (arith, v6.links.population.once r))
      (record { in_table = omega arith; pointer = refl }) others refl (omega arith)
