-- ===== src/Threads/Ticks.antt =====
-- The timer's handler of SystemSoftware/Thread-scheduler/scheduler.c and thread_exit on a valid state.
use mathlib.Core.Path.{subst}
use kw_home_work.Common.{
  ℕ, ◌+◌, ◌<◌, ◌≤◌, ◌≡◌, refl, none, some, List, [], ◌∷◌, ◌++◌, arith, if◌then◌else◌, update, count,
  count-snoc, ◌>>=◌, dec, is_zero,
}
use kw_home_work.Threads.{Thread, ThreadStatus, Threads, ThreadQueue, Signal, modify}
use kw_home_work.Threads.Calls.{lose, kill}
use kw_home_work.Threads.Scheduler.{take_head, start, started}
use kw_home_work.Threads.Lists.{first_or, Segment, Chain-frame, Segment-frame}
use kw_home_work.Threads.Append.{Alive, Ends}
use kw_home_work.Threads.Population.{held, Running, Has-Alive, Alive-update}
use kw_home_work.Threads.Places.{Moves, Population-moved}
use kw_home_work.Threads.Valid.{IsValid, Linked}
use kw_home_work.Threads.Moves.{schedule}
use kw_home_work.Threads.Ends.{Ends-first, Ends-empty}

-- The head of the ready queue starts.
pub head-Moves :
    (p : ℕ) (rs ws : List ℕ) (run : Running)
    → count p (p ∷ rs) + count p ws + count p (held run) ≤ 1
    → Moves (schedule run (p ∷ rs) ws) (schedule (Running.active p) rs ws) p ThreadStatus.run
unfolding count
head-Moves p rs ws run o = record {
  ready_as = λ r n. ground (arith, n);
  waiting_as = λ r n. refl;
  held_as = λ r n. ground (arith, n);
  active_as = λ r n e. absurd (ground (arith, n, e));
  ended_as = λ r n e. absurd (ground (arith, e));
  blocked_as = λ r n e. absurd (ground (arith, e));
  if_ready = λ k. absurd (ground (arith, o, k));
  if_waiting = λ k. absurd (ground (arith, o, k));
  if_active = λ e. refl;
  if_ended = λ e. absurd (ground (arith, e));
  if_blocked = λ e. absurd (ground (arith, e));
  one_place = ground (arith, o);
}

-- A waiting thread goes on.
pub awake-Moves :
    (c : ℕ) (rs ws : List ℕ)
    → count c rs + count c ws + count c (held (Running.blocked c)) ≤ 1
    → Moves
        (schedule (Running.blocked c) rs ws)
        (schedule (Running.active c) rs ws)
        c
        ThreadStatus.run
unfolding count
awake-Moves c rs ws o = record {
  ready_as = λ r n. refl;
  waiting_as = λ r n. refl;
  held_as = λ r n. omega arith;
  active_as = λ r n e. absurd (ground (arith, n, e));
  ended_as = λ r n e. absurd (ground (arith, e));
  blocked_as = λ r n e. absurd (ground (arith, e));
  if_ready = λ k. absurd (ground (arith, o, k));
  if_waiting = λ k. absurd (ground (arith, o, k));
  if_active = λ e. refl;
  if_ended = λ e. absurd (ground (arith, e));
  if_blocked = λ e. absurd (ground (arith, e));
  one_place = omega (arith, o);
}

-- The running thread goes to the tail of the ready queue.
pub back-Moves :
    (c : ℕ) (rs ws : List ℕ)
    → count c rs + count c ws + count c (held (Running.active c)) ≤ 1
    → Moves
        (schedule (Running.active c) rs ws)
        (schedule Running.idle (rs ++ c ∷ []) ws)
        c
        ThreadStatus.ready
unfolding count
back-Moves c rs ws o = record {
  ready_as = λ r n. ground (arith, n, count-snoc r c rs);
  waiting_as = λ r n. refl;
  held_as = λ r n. omega arith;
  active_as = λ r n e. absurd (ground (arith, e));
  ended_as = λ r n e. absurd (ground (arith, e));
  blocked_as = λ r n e. absurd (ground (arith, e));
  if_ready = λ k. refl;
  if_waiting = λ k. absurd (ground (arith, o, k));
  if_active = λ e. absurd (ground (arith, e));
  if_ended = λ e. absurd (ground (arith, e));
  if_blocked = λ e. absurd (ground (arith, e));
  one_place = ground (arith, o, count-snoc c c rs);
}

pub exit-Moves :
    (c : ℕ) (rs ws : List ℕ)
    → count c rs + count c ws + count c (held (Running.active c)) ≤ 1
    → Moves
        (schedule (Running.active c) rs ws)
        (schedule (Running.ended c) rs ws)
        c
        ThreadStatus.zombie
unfolding count
exit-Moves c rs ws o = record {
  ready_as = λ r n. refl;
  waiting_as = λ r n. refl;
  held_as = λ r n. omega arith;
  active_as = λ r n e. absurd (ground (arith, e));
  ended_as = λ r n e. absurd (ground (arith, n, e));
  blocked_as = λ r n e. absurd (ground (arith, e));
  if_ready = λ k. absurd (ground (arith, o, k));
  if_waiting = λ k. absurd (ground (arith, o, k));
  if_active = λ e. absurd (ground (arith, e));
  if_ended = λ e. refl;
  if_blocked = λ e. absurd (ground (arith, e));
  one_place = omega (arith, o);
}

take_run :
    (p : ℕ) (rs : List ℕ) (s : Threads)
    → Alive s.heap p
    → s.heap.next p ≡ first_or none rs
    → Ends s.ready_queue (p ∷ rs)
    → (q : ThreadQueue) × (take_head s ≡ some (record s { current = some p; ready_queue = q }))
      × Ends q rs
unfolding take_head Alive first_or
take_run p [] s (t, l) m n = (
  lose s.ready_queue,
  rw (lose, n.counted, dec, is_zero, if◌then◌else◌, n.at_head p refl) refl,
  Ends-empty p s.ready_queue.tail s.ready_queue n,
)
take_run p (r ∷ rs) s (t, l) m n = (
  lose (record s.ready_queue { head = some r }),
  rw (lose, n.counted, dec, is_zero, if◌then◌else◌, n.at_head p refl, ◌>>=◌, l, ◌>>=◌, m) refl,
  Ends-first p (r ∷ rs) (some r) s.ready_queue n refl,
)

pub start_run :
    (p pid : ℕ) (s : Threads) (t : Thread)
    → s.current ≡ some p
    → s.heap.thread p ≡ some t
    → start pid s
      ≡ some (
          kill pid Signal.sigcont (record s {
            heap = record s.heap { thread = update s.heap.thread p (some (started pid t)) };
          }))
unfolding start
start_run p pid s t c l = rw (c, ◌>>=◌, modify, l, ◌>>=◌) refl

-- With no thread running, the head of the ready queue starts.
module _ (p : ℕ) (rs ws : List ℕ) (s : Threads)
    (v : Linked (schedule Running.idle (p ∷ rs) ws) s) where
  head-Alive : Alive s.heap p
  unfolding Alive count
  head-Alive = Has-Alive s.heap.thread ThreadStatus.ready p (v.population.on_ready p (ground arith))

  pub next_queue :
      (q : ThreadQueue) × (take_head s ≡ some (record s { current = some p; ready_queue = q }))
      × Ends q rs
  unfolding Segment
  next_queue = take_run p rs s head-Alive v.ready_linked.1 v.ready_ends

  abbrev pub head_started : Thread → Threads
  head_started t = record (kill t.pid Signal.sigcont s) {
    current = some p;
    ready_queue = next_queue.0;
    heap = record s.heap { thread = update s.heap.thread p (some (started t.pid t)) };
  }

  pub head_started-IsValid :
      (t : Thread)
      → s.heap.thread p ≡ some t
      → t.status ≡ ThreadStatus.ready
      → 0 < t.pid
      → IsValid (schedule (Running.active p) rs ws) (head_started t)
  unfolding Segment Alive count
  head_started-IsValid t l st k = record {
    links = record {
      population =
          Population-moved s.heap.thread (schedule Running.idle (p ∷ rs) ws)
            (schedule (Running.active p) rs ws) p t (started t.pid t) v.population l k refl
            (rw (st) (head-Moves p rs ws Running.idle (v.population.once p)));
      ready_ends = next_queue.2;
      back = some p;
      ready_linked =
          Segment-frame s.heap (head_started t).heap (some p) rs none (λ r n. (refl, refl))
            v.ready_linked.2;
      waiting_ends = v.waiting_ends;
      waiting_linked = Chain-frame s.heap (head_started t).heap ws (λ r n. refl) v.waiting_linked;
      waiting_first = v.waiting_first;
    };
    is_current = refl;
    back_off = λ r e. (
      Alive-update s.heap.thread p r (started t.pid t)
          (subst (λ r. Alive s.heap r) (ground (arith, e)) (t, l)),
      ground (arith, e, v.population.once r),
    );
  }
