-- ===== src/Threads/Turns.antt =====
-- What an alarm does to a schedule, with SystemSoftware/Thread-scheduler/scheduler.c: the turn of the
-- next thread when none runs, or one that has ended or waits for a semaphore.
use kw_home_work.Common.{
  ℕ, ◌+◌, ◌≡◌, refl, ap, none, some, List, [], ◌∷◌, ◌++◌, arith, count, length,
}
use kw_home_work.Threads.{Thread, Threads, Signal, Kill, timeslice, is_wait, is_zombie}
use kw_home_work.Threads.Calls.{kill}
use kw_home_work.Threads.Scheduler.{started, timer}
use kw_home_work.Threads.Lists.{first_or}
use kw_home_work.Threads.Population.{address, Running, Schedule, Has}
use kw_home_work.Threads.Valid.{IsValid}
use kw_home_work.Threads.Moves.{schedule}
use kw_home_work.Threads.Ticks.{head_started, head_started-IsValid, next_queue, start_run}
use kw_home_work.Threads.Places.{Population-idle}
use kw_home_work.Threads.Valid.{Linked, Linked-again}
use kw_home_work.Threads.Switches.{
  switch_run, switch_first, timer_idle, timer_busy, zombie_run, timer_waiting,
}

-- The running thread goes to the end of the ready ones and the first of these runs. A thread that has
-- ended or waits for a semaphore is dropped, and one with no other to take over runs on, even if it
-- waits.
unfoldable pub rotate : Running → List ℕ → List ℕ → Schedule
rotate Running.idle [] ws = schedule Running.idle [] ws
rotate Running.idle (p ∷ rs) ws = schedule (Running.active p) rs ws
rotate (Running.active c) [] ws = schedule (Running.active c) [] ws
rotate (Running.active c) (p ∷ rs) ws = schedule (Running.active p) (rs ++ c ∷ []) ws
rotate (Running.ended c) [] ws = schedule (Running.ended c) [] ws
rotate (Running.ended c) (p ∷ rs) ws = schedule (Running.active p) rs ws
rotate (Running.blocked c) [] ws = schedule (Running.active c) [] ws
rotate (Running.blocked c) (p ∷ rs) ws = schedule (Running.active p) rs ws

-- The thread that runs afterwards has the next time slice, and its process goes on.
pub record Served (s s' : Threads) (run : Running) : Type 0 where
  pub server : ℕ
  pub runs_now : address run ≡ some server
  pub old : Thread
  pub new : Thread
  pub was : s.heap.thread server ≡ some old
  pub is : s'.heap.thread server ≡ some new
  pub time : new.cpu_time ≡ old.cpu_time + timeslice
  pub same_pid : new.pid ≡ old.pid
  pub earlier : List Kill
  pub continued : s'.kills ≡ record { to = old.pid; sig = Signal.sigcont } ∷ earlier

unfoldable pub Ticked : Schedule → Threads → Type 0
Ticked a s =
    (s' : Threads) × (timer Signal.sigalrm s ≡ some s') × IsValid a s' × Served s s' a.running

pub served :
    (s s' : Threads) (run : Running) (p : ℕ) (t : Thread) (earlier : List Kill)
    → address run ≡ some p
    → s.heap.thread p ≡ some t
    → s'.heap.thread p ≡ some (started t.pid t)
    → s'.kills ≡ record { to = t.pid; sig = Signal.sigcont } ∷ earlier
    → Served s s' run
served s s' run p t earlier c e f k = record {
  server = p;
  runs_now = c;
  old = t;
  new = started t.pid t;
  was = e;
  is = f;
  time = refl;
  same_pid = refl;
  earlier = earlier;
  continued = k;
}

-- With no thread running.
pub tick_idle :
    (p : ℕ) (rs ws : List ℕ) (s : Threads)
    → IsValid (schedule Running.idle (p ∷ rs) ws) s
    → Ticked (schedule (Running.active p) rs ws) s
unfolding Ticked Has count first_or
tick_idle p rs ws s v =
    let v' = v.links in
    let (t, l, st, k) = v.links.population.on_ready p (ground arith) in
    let (q, takes, _) = next_queue p rs ws s v' in
    let s2 : Threads = record s { current = some p; ready_queue = q } in
    let s3 = head_started p rs ws s v' t in
    (
      s3,
      timer_idle p s s3 t v.is_current (v.links.ready_ends.at_head p refl) l
          (switch_first t.pid s s2 s3 takes (start_run p t.pid s2 t refl l)),
      head_started-IsValid p rs ws s v' t l st k,
      served s s3 (Running.active p) p t s.kills refl l (ground arith) refl,
    )

-- With a thread running that has ended.
pub tick_ended :
    (c p : ℕ) (rs ws : List ℕ) (s : Threads)
    → IsValid (schedule (Running.ended c) (p ∷ rs) ws) s
    → Ticked (schedule (Running.active p) rs ws) s
unfolding Ticked Has count first_or
tick_ended c p rs ws s v =
    let (t, l, st, k) = v.links.population.on_ended c refl in
    let (u, m, su, n) = v.links.population.on_ready p (ground arith) in
    let s0 = kill t.pid Signal.sigstop s in
    let s1 : Threads = record (kill t.pid Signal.sigkill s0) { current = none } in
    let v1 : Linked (schedule Running.idle (p ∷ rs) ws) s1 =
      Linked-again (schedule (Running.ended c) (p ∷ rs) ws) Running.idle s none s1.kills
        (Population-idle s.heap.thread (schedule (Running.ended c) (p ∷ rs) ws) v.links.population)
        v.links in
    let (q, takes, _) = next_queue p rs ws s1 v1 in
    let s2 : Threads = record s1 { current = some p; ready_queue = q } in
    let s3 = head_started p rs ws s1 v1 u in
    (
      s3,
      timer_busy c p (length rs) s s3 t u v.is_current l k (ap is_wait st)
          v.links.ready_ends.counted (v.links.ready_ends.at_head p refl) m
          (switch_run t.pid u.pid s0 s1 s2 s3 k n
            (zombie_run c t.pid s0 t v.is_current l (ap is_zombie st)) takes
            (start_run p u.pid s2 u refl m)),
      head_started-IsValid p rs ws s1 v1 u m su n,
      served s s3 (Running.active p) p u s1.kills refl m (ground arith) refl,
    )

-- With a thread running that waits for a semaphore.
pub tick_blocked :
    (c p : ℕ) (rs ws : List ℕ) (s : Threads)
    → IsValid (schedule (Running.blocked c) (p ∷ rs) ws) s
    → Ticked (schedule (Running.active p) rs ws) s
unfolding Ticked Has count first_or
tick_blocked c p rs ws s v =
    let (t, l, st, k) = v.links.population.on_blocked c refl in
    let (u, m, su, n) = v.links.population.on_ready p (ground arith) in
    let s0 = kill t.pid Signal.sigstop s in
    let v1 : Linked (schedule Running.idle (p ∷ rs) ws) s0 =
      Linked-again (schedule (Running.blocked c) (p ∷ rs) ws) Running.idle s s.current s0.kills
        (Population-idle s.heap.thread (schedule (Running.blocked c) (p ∷ rs) ws)
          v.links.population)
        v.links in
    let (q, takes, _) = next_queue p rs ws s0 v1 in
    let s2 : Threads = record s0 { current = some p; ready_queue = q } in
    let s3 = head_started p rs ws s0 v1 u in
    (
      s3,
      timer_waiting c p (length rs) s s3 t u v.is_current l k (ap is_wait st)
          v.links.ready_ends.counted (v.links.ready_ends.at_head p refl) m
          (switch_first u.pid s0 s2 s3 takes (start_run p u.pid s2 u refl m)),
      head_started-IsValid p rs ws s0 v1 u m su n,
      served s s3 (Running.active p) p u s0.kills refl m (ground arith) refl,
    )
