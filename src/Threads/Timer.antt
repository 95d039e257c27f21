-- ===== src/Threads/Timer.antt =====
-- An alarm on a valid state: SystemSoftware/Thread-scheduler/scheduler.c schedules round-robin.
use mathlib.Core.Path.{subst}
use kw_home_work.Common.{
  ℕ, ◌+◌, ◌<◌, ◌≡◌, refl, ◌∙◌, ap, none, some, List, [], ◌∷◌, ◌++◌, arith, update, count, length,
  sym,
}
use kw_home_work.Threads.{Thread, ThreadStatus, Threads, Heap, Signal, Kill, is_wait, is_zombie}
use kw_home_work.Threads.Calls.{with_status, kill}
use kw_home_work.Threads.Scheduler.{started, timer}
use kw_home_work.Threads.Lists.{first_or, Chain-frame, Segment-frame}
use kw_home_work.Threads.Append.{Alive, Appended, enqueue-Appended}
use kw_home_work.Threads.Population.{held, address, Running, Has, Population, Has-Alive}
use kw_home_work.Threads.Places.{Moves, Population-moved}
use kw_home_work.Threads.Valid.{IsValid}
use kw_home_work.Threads.Moves.{schedule}
use kw_home_work.Threads.Ticks.{
  back-Moves, head_started, head_started-IsValid, next_queue, start_run, awake-Moves,
}
use kw_home_work.Threads.Places.{stay-Moves}
use kw_home_work.Threads.Valid.{Linked, Linked-append, IsValid-status}
use kw_home_work.Threads.Switches.{switch_run, switch_self, timer_busy, timer_alone, back_run}
use kw_home_work.Threads.Turns.{rotate, Ticked, served, tick_idle, tick_ended, tick_blocked}

-- With a thread running, and another to take over.
module _ (c p : ℕ) (rs ws : List ℕ) (s : Threads)
    (v : IsValid (schedule (Running.active c) (p ∷ rs) ws) s) (t : Thread)
    (l : s.heap.thread c ≡ some t) (k : 0 < t.pid) where
  abbrev ready_again : Thread
  ready_again = with_status ThreadStatus.ready t

  abbrev stopped : Threads
  stopped = kill t.pid Signal.sigstop s

  abbrev marked : Heap
  marked = record s.heap { thread = update s.heap.thread c (some ready_again) }

  population : Population marked.thread (schedule Running.idle ((p ∷ rs) ++ c ∷ []) ws)
  population =
      Population-moved s.heap.thread (schedule (Running.active c) (p ∷ rs) ws)
        (schedule Running.idle ((p ∷ rs) ++ c ∷ []) ws) c t ready_again v.links.population l k refl
        (back-Moves c (p ∷ rs) ws (v.links.population.once c))

  appending : Appended s.ready_queue.tail c (p ∷ rs) s.ready_queue marked
  unfolding Alive
  appending =
      enqueue-Appended s.ready_queue.tail c (p ∷ rs) s.ready_queue marked
        (λ r n. Has-Alive marked.thread ThreadStatus.ready r (population.on_ready r n))
        (λ r. omega (arith, population.once r)) v.links.ready_ends

  abbrev given_back : Threads
  given_back = record stopped { heap = appending.new_heap; ready_queue = appending.new_queue }

  given_back-Linked : Linked (schedule Running.idle (p ∷ rs ++ c ∷ []) ws) given_back
  given_back-Linked =
      Linked-append Running.idle (p ∷ rs) ws c v.links.back (record stopped { heap = marked })
        appending population
        (Segment-frame s.heap marked v.links.back (p ∷ rs) none (λ r n. (refl, refl))
          v.links.ready_linked)
        v.links.waiting_ends (Chain-frame s.heap marked ws (λ r n. refl) v.links.waiting_linked)
        v.links.waiting_first

  module _ (u : Thread) (m : s.heap.thread p ≡ some u) (st : u.status ≡ ThreadStatus.ready)
      (n : 0 < u.pid) (running : t.status ≡ ThreadStatus.run) where
    not_self : (p ≡ c) → ⊥
    unfolding count
    not_self e = ground (arith, e, v.links.population.once c)

    still : given_back.heap.thread p ≡ some u
    still = ap (λ th. th p) appending.threads ∙ ground (arith, not_self, m)

    abbrev rotated : Threads
    rotated = head_started p (rs ++ c ∷ []) ws given_back given_back-Linked u

    rotates : timer Signal.sigalrm s ≡ some rotated
    unfolding first_or
    rotates =
        let (q, takes, _) = next_queue p (rs ++ c ∷ []) ws given_back given_back-Linked in
        let s2 : Threads = record given_back { current = some p; ready_queue = q } in
        timer_busy c p (length rs) s rotated t u v.is_current l k (ap is_wait running)
          v.links.ready_ends.counted (v.links.ready_ends.at_head p refl) m
          (switch_run t.pid u.pid stopped given_back s2 rotated k n
            (back_run c t.pid stopped t appending.new_queue appending.new_heap v.is_current l
              (ap is_zombie running) appending.runs)
            takes (start_run p u.pid s2 u refl still))

    tick_active : Ticked (schedule (Running.active p) (rs ++ c ∷ []) ws) s
    unfolding Ticked
    tick_active = (
      rotated,
      rotates,
      head_started-IsValid p (rs ++ c ∷ []) ws given_back given_back-Linked u still st n,
      served s rotated (Running.active p) p u stopped.kills refl m (ground arith) refl,
    )

-- With no other thread to take over.
tick_alone :
    (run run' : Running) (c : ℕ) (ws : List ℕ) (s : Threads) (t : Thread)
    → address run ≡ some c
    → address run' ≡ some c
    → IsValid (schedule run [] ws) s
    → s.heap.thread c ≡ some t
    → 0 < t.pid
    → Moves (schedule run [] ws) (schedule run' [] ws) c (started t.pid t).status
    → Ticked (schedule run' [] ws) s
unfolding Ticked
tick_alone run run' c ws s t e e' v l k mv =
    let s0 = kill t.pid Signal.sigstop s in
    let kills : List Kill = record { to = t.pid; sig = Signal.sigcont } ∷ s0.kills in
    let s1 : Threads = record s {
      heap = record s.heap { thread = update s.heap.thread c (some (started t.pid t)) };
      kills = kills;
    } in
    (
      s1,
      timer_alone c s s1 t (v.is_current ∙ e) l k v.links.ready_ends.counted
          (switch_self t.pid s0 s1 k (start_run c t.pid s0 t (v.is_current ∙ e) l)),
      IsValid-status (schedule run [] ws) run' s c (started t.pid t) kills (e ∙ sym e')
          (Population-moved s.heap.thread (schedule run [] ws) (schedule run' [] ws) c t
            (started t.pid t) v.links.population l k refl mv)
          v,
      served s s1 run' c t s0.kills e' l (ground arith) refl,
    )

tick_same :
    (run : Running) (c : ℕ) (ws : List ℕ) (s : Threads) (t : Thread)
    → address run ≡ some c
    → IsValid (schedule run [] ws) s
    → s.heap.thread c ≡ some t
    → 0 < t.pid
    → t.status ≡ (started t.pid t).status
    → Ticked (schedule run [] ws) s
tick_same run c ws s t e v l k st = tick_alone run run c ws s t e e v l k (
    subst (Moves (schedule run [] ws) (schedule run [] ws) c) st
      (stay-Moves s.heap.thread (schedule run [] ws) c t v.links.population l))

-- An alarm on a valid state does not fault as long as a thread runs or is ready. It leaves a valid
-- state: the running thread has gone to the end of the ready ones, unless it had ended or waits for a
-- semaphore, and the first of these runs; without a ready thread the running one goes on, with status
-- RUN if it waits for a semaphore, and still ended if it had ended. The thread that goes on afterwards
-- has got the time slice, and its process has been sent SIGCONT last.
pub timer-Ticked :
    (run : Running) (rs ws : List ℕ) (s : Threads)
    → IsValid (schedule run rs ws) s
    → 0 < length rs + length (held run)
    → Ticked (rotate run rs ws) s
unfolding rotate Has count
timer-Ticked Running.idle [] ws s v n = absurd (omega (arith, n))
timer-Ticked Running.idle (p ∷ rs) ws s v n = tick_idle p rs ws s v
timer-Ticked (Running.active c) [] ws s v n =
    let (t, l, st, k) = v.links.population.on_active c refl in
    tick_same (Running.active c) c ws s t refl v l k (rw (st) refl)
timer-Ticked (Running.active c) (p ∷ rs) ws s v n =
    let (t, l, st, k) = v.links.population.on_active c refl in
    let (u, m, su, j) = v.links.population.on_ready p (ground arith) in
    tick_active c p rs ws s v t l k u m su j st
timer-Ticked (Running.ended c) [] ws s v n =
    let (t, l, st, k) = v.links.population.on_ended c refl in
    tick_same (Running.ended c) c ws s t refl v l k (rw (st) refl)
timer-Ticked (Running.ended c) (p ∷ rs) ws s v n = tick_ended c p rs ws s v
timer-Ticked (Running.blocked c) [] ws s v n =
    let (t, l, st, k) = v.links.population.on_blocked c refl in
    tick_alone (Running.blocked c) (Running.active c) c ws s t refl refl v l k
      (rw (st) (awake-Moves c [] ws (v.links.population.once c)))
timer-Ticked (Running.blocked c) (p ∷ rs) ws s v n = tick_blocked c p rs ws s v
