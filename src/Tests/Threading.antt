-- ===== src/Tests/Threading.antt =====
-- The threads of SystemSoftware/Thread-scheduler at concrete inputs: three threads are created and
-- scheduled, and one is suspended and resumed.
use kw_home_work.Common.{ℕ, ◌≡◌, refl, true, false, none, some, List, [], ◌∷◌, arith, ℤ}
use kw_home_work.Threads.{
  Thread, ThreadQueue, Threads, Signal, search, enqueue, unlink, unlink_suspended, unlink_cancelled,
}
use kw_home_work.Threads.Calls.{init, thread_create, thread_suspend, thread_resume, thread_cancel}
use kw_home_work.Threads.Scheduler.{
  timer, alarm, switch_from, context_switch, put_back, take_head, start,
}
use kw_home_work.Threads.Population.{Running}
use kw_home_work.Threads.Valid.{IsValid}
use kw_home_work.Threads.Moves.{Entry, schedule}
use kw_home_work.Threads.Create.{thread_create-Created, Created}
use kw_home_work.Threads.Cancel.{thread_cancel-Cancelled}
use kw_home_work.Threads.Suspend.{thread_suspend-Suspended}
use kw_home_work.Threads.Resume.{thread_resume-Resumed}
use kw_home_work.Threads.Timer.{timer-Ticked}
use kw_home_work.Threads.Turns.{rotate, Ticked}
use kw_home_work.Threads.Runs.{Reaches, Reaches-IsValid, alarms, alarms-served, state_or, one_or}

unfoldable pub program : Unit {0}
unfolding search enqueue unlink unlink_suspended init thread_create thread_suspend thread_resume
    thread_cancel unlink_cancelled timer alarm switch_from context_switch put_back take_head start
    rotate alarms
program = tt

abbrev pub empty : ThreadQueue
empty = record { queue_count = ℤ.pos 0; head = none; tail = none }

abbrev nothing : Threads
nothing = record {
  heap = record { thread = λ p. none; prev = λ p. none; next = λ p. none };
  ready_queue = empty;
  waiting_queue = empty;
  table = λ i. record { b_used = false; p_thread = none };
  current = none;
  kills = [];
}

abbrev s0 : Threads
s0 = init nothing

abbrev s1 : Threads
s1 = state_or s0 (thread_create 100 11 s0)

abbrev s2 : Threads
s2 = state_or s1 (thread_create 200 12 s1)

abbrev s3 : Threads
s3 = state_or s2 (thread_create 300 13 s2)

abbrev s4 : Threads
s4 = one_or s3 (timer Signal.sigalrm s3)

abbrev s5 : Threads
s5 = one_or s4 (timer Signal.sigalrm s4)

abbrev pub s6 : Threads
s6 = state_or s5 (thread_suspend 2 s5)

abbrev s7 : Threads
s7 = state_or s6 (thread_resume 2 s6)

s3_head : s3.ready_queue.head ≡ some 100
unfolding program
s3_head = refl

s5_current : s5.current ≡ some 200
unfolding program
s5_current = refl

s7_tail : s7.ready_queue.tail ≡ some 300
unfolding program
s7_tail = refl

abbrev s8 : Threads
s8 = state_or s5 (thread_cancel 2 s5)

-- The first of the ready threads is cancelled. Its entry stays used.
s8_queue : s8.ready_queue ≡ record { queue_count = ℤ.pos 1; head = some 100; tail = some 100 }
unfolding program
s8_queue = refl

s8_entry : s8.table 2 ≡ record { b_used = true; p_thread = some 300 }
unfolding program
s8_entry = refl

reach0 : Reaches (schedule Running.idle [] []) s0
unfolding program
reach0 = Reaches.start nothing (λ p. refl) refl

reach1 : Reaches (schedule Running.idle (100 ∷ []) []) s1
unfolding program
reach1 =
    Reaches.create 100 11 0 0 reach0 refl (omega arith) (λ r t e. absurd (ground (arith, e)))
      (omega arith) refl refl

reach2 : Reaches (schedule Running.idle (100 ∷ 200 ∷ []) []) s2
unfolding program
reach2 =
    Reaches.create 200 12 1 1 reach1 refl (omega arith) (λ r t e. ground (arith, e)) (omega arith)
      refl refl

reach3 : Reaches (schedule Running.idle (100 ∷ 200 ∷ 300 ∷ []) []) s3
unfolding program
reach3 =
    Reaches.create 300 13 2 2 reach2 refl (omega arith) (λ r t e. ground (arith, e)) (omega arith)
      refl refl

reach4 : Reaches (schedule (Running.active 100) (200 ∷ 300 ∷ []) []) s4
unfolding program
reach4 = Reaches.alarm reach3 (omega arith) refl

reach5 : Reaches (schedule (Running.active 200) (300 ∷ 100 ∷ []) []) s5
unfolding program
reach5 = Reaches.alarm reach4 (omega arith) refl

entry5 : Entry s5 2 300
unfolding program
entry5 = record { in_table = omega arith; pointer = refl }

used5 : (s5.table 2).b_used ≡ true
unfolding program
used5 = refl

reach6 : Reaches (schedule (Running.active 200) (100 ∷ []) (300 ∷ [])) s6
unfolding program
reach6 = Reaches.suspend [] 300 (100 ∷ []) 2 true reach5 entry5 refl

pub entry6 : Entry s6 2 300
unfolding program
entry6 = record { in_table = omega arith; pointer = refl }

v5 : IsValid (schedule (Running.active 200) (300 ∷ 100 ∷ []) []) s5
v5 = Reaches-IsValid (schedule (Running.active 200) (300 ∷ 100 ∷ []) []) s5 reach5

pub v6 : IsValid (schedule (Running.active 200) (100 ∷ []) (300 ∷ [])) s6
v6 = Reaches-IsValid (schedule (Running.active 200) (100 ∷ []) (300 ∷ [])) s6 reach6

thread_create-Created_example : Created (schedule Running.idle (100 ∷ []) []) s1 200 12
unfolding program
thread_create-Created_example =
    thread_create-Created (schedule Running.idle (100 ∷ []) []) s1 200 12 1
      (Reaches-IsValid (schedule Running.idle (100 ∷ []) []) s1 reach1) refl (omega arith)
      (λ r t e. ground (arith, e)) (omega arith) refl

thread_suspend-Suspended_example :
    (s' : Threads) × (thread_suspend 2 s5 ≡ some (true, s'))
    × IsValid (schedule (Running.active 200) (100 ∷ []) (300 ∷ [])) s'
    × (s'.table ≡ s5.table)
    × (s'.current ≡ s5.current)
    × (s'.kills ≡ s5.kills)
thread_suspend-Suspended_example =
    thread_suspend-Suspended (Running.active 200) [] 300 (100 ∷ []) [] s5 v5 2 entry5

thread_resume-Resumed_example :
    (s' : Threads) × (thread_resume 2 s6 ≡ some (true, s'))
    × IsValid (schedule (Running.active 200) (100 ∷ 300 ∷ []) []) s'
    × (s'.table ≡ s6.table)
    × (s'.current ≡ s6.current)
    × (s'.kills ≡ s6.kills)
thread_resume-Resumed_example =
    thread_resume-Resumed (Running.active 200) (100 ∷ []) 300 [] s6 v6 2 entry6

timer-Ticked_example : Ticked (schedule (Running.active 300) (100 ∷ 200 ∷ []) []) s5
unfolding rotate
timer-Ticked_example = timer-Ticked (Running.active 200) (300 ∷ 100 ∷ []) [] s5 v5 (omega arith)

Reaches-IsValid_example : IsValid (schedule (Running.active 200) (100 ∷ []) (300 ∷ [])) s6
Reaches-IsValid_example =
    Reaches-IsValid (schedule (Running.active 200) (100 ∷ []) (300 ∷ [])) s6 reach6

alarms-served_example :
    (s' : Threads) × (rs : List ℕ) × (alarms 2 s5 ≡ some s')
    × IsValid (schedule (Running.active 100) rs []) s'
    × (s'.current ≡ some 100)
alarms-served_example = alarms-served (Running.active 200) (300 ∷ []) 100 [] [] s5 v5

thread_cancel-Cancelled_example :
    (s' : Threads) × (thread_cancel 2 s5 ≡ some (none, s'))
    × IsValid (schedule (Running.active 200) (100 ∷ []) []) s'
    × (s'.heap.thread 300 ≡ none)
    × (s'.table ≡ s5.table)
    × (s'.current ≡ s5.current)
    × (t : Thread) × (s5.heap.thread 300 ≡ some t)
    × (s'.kills ≡ record { to = t.pid; sig = Signal.sigkill } ∷ s5.kills)
thread_cancel-Cancelled_example =
    thread_cancel-Cancelled (Running.active 200) [] 300 (100 ∷ []) [] s5 v5 2 entry5 used5
