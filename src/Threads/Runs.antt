-- ===== src/Threads/Runs.antt =====
-- Runs of the threads of SystemSoftware/Thread-scheduler: the states that the calls of thread.c and the
-- alarms of scheduler.c reach, and how long a ready thread waits.
use mathlib.Core.Path.{subst}
use kw_home_work.Common.{
  ℕ, zero, suc, ◌+◌, ◌<◌, ◌≡◌, ◌≢◌, refl, sym, ◌∙◌, ap, Bool, false, Option, none, some, List, [],
  ◌∷◌, ◌++◌, arith, update, count, length, ◌>>=◌, true,
}
use kw_home_work.Threads.{Thread, ThreadStatus, Threads, Signal, max_thread_num, modify}
use kw_home_work.Threads.Calls.{
  init, thread_create, thread_suspend, thread_resume, thread_exit, with_status, thread_cancel,
}
use kw_home_work.Threads.Scheduler.{timer}
use kw_home_work.Threads.Lists.{first_or, last_or, Segment, Chain}
use kw_home_work.Threads.Population.{held, Running, Schedule, Has}
use kw_home_work.Threads.Places.{Population-moved}
use kw_home_work.Threads.Valid.{IsValid, IsValid-status}
use kw_home_work.Threads.Moves.{Entry, schedule}
use kw_home_work.Threads.Create.{thread_create-Created}
use kw_home_work.Threads.Suspend.{thread_suspend-Suspended}
use kw_home_work.Threads.Resume.{thread_resume-Resumed}
use kw_home_work.Threads.Ticks.{exit-Moves}
use kw_home_work.Threads.Timer.{timer-Ticked}
use kw_home_work.Threads.Turns.{rotate, Ticked}
use kw_home_work.Threads.Cancel.{thread_cancel-Cancelled}

-- The states that `Init` and some calls reach: threads are created at fresh addresses with fresh pids,
-- ready ones suspended or cancelled, the one that has waited longest resumed, the running one may
-- exit, and alarms come at any time at which a thread runs or is ready. The calls on running threads
-- or other waiting ones, thread_join and the semaphores are not among them.
pub data Reaches : Schedule → Threads → Type 0 where
  start :
      (s : Threads)
      → ((p : ℕ) → s.heap.thread p ≡ none)
      → s.current ≡ none
      → Reaches (schedule Running.idle [] []) (init s)
  create :
      {run : Running} {rs ws : List ℕ} {s s' : Threads} (p pid i tid : ℕ)
      → Reaches (schedule run rs ws) s
      → s.heap.thread p ≡ none
      → 0 < pid
      → ((r : ℕ) (t : Thread) → s.heap.thread r ≡ some t → t.pid ≢ pid)
      → i < max_thread_num
      → (s.table i).b_used ≡ false
      → thread_create p pid s ≡ some (tid, s')
      → Reaches (schedule run (rs ++ p ∷ []) ws) s'
  suspend :
      {run : Running} {ws : List ℕ} {s s' : Threads} (xs : List ℕ) (p : ℕ) (ys : List ℕ) (tid : ℕ)
      (result : Bool)
      → Reaches (schedule run (xs ++ p ∷ ys) ws) s
      → Entry s tid p
      → thread_suspend tid s ≡ some (result, s')
      → Reaches (schedule run (xs ++ ys) (ws ++ p ∷ [])) s'
  resume :
      {run : Running} {rs ws : List ℕ} {s s' : Threads} (p tid : ℕ) (result : Bool)
      → Reaches (schedule run rs (p ∷ ws)) s
      → Entry s tid p
      → thread_resume tid s ≡ some (result, s')
      → Reaches (schedule run (rs ++ p ∷ []) ws) s'
  cancel :
      {run : Running} {ws : List ℕ} {s s' : Threads} (xs : List ℕ) (p : ℕ) (ys : List ℕ) (tid : ℕ)
      (result : Option Bool)
      → Reaches (schedule run (xs ++ p ∷ ys) ws) s
      → Entry s tid p
      → (s.table tid).b_used ≡ true
      → thread_cancel tid s ≡ some (result, s')
      → Reaches (schedule run (xs ++ ys) ws) s'
  exit :
      {rs ws : List ℕ} {s s' : Threads} (c : ℕ)
      → Reaches (schedule (Running.active c) rs ws) s
      → thread_exit s ≡ some s'
      → Reaches (schedule (Running.ended c) rs ws) s'
  alarm :
      {run : Running} {rs ws : List ℕ} {s s' : Threads}
      → Reaches (schedule run rs ws) s
      → 0 < length rs + length (held run)
      → timer Signal.sigalrm s ≡ some s'
      → Reaches (rotate run rs ws) s'

init-IsValid :
    (s : Threads)
    → ((p : ℕ) → s.heap.thread p ≡ none)
    → s.current ≡ none
    → IsValid (schedule Running.idle [] []) (init s)
unfolding init Segment Chain count first_or last_or
init-IsValid s z c = record {
  links = record {
    population = record {
      on_ready = λ p k. absurd (omega (arith, k));
      on_waiting = λ p k. absurd (omega (arith, k));
      on_active = λ p k. absurd (ground (arith, k));
      on_ended = λ p k. absurd (ground (arith, k));
      on_blocked = λ p k. absurd (ground (arith, k));
      pids = λ p r t u e f g. absurd (ground (arith, sym (z p) ∙ e));
      once = λ r. omega arith;
    };
    ready_ends = record {
      counted = refl;
      at_head = λ p k. absurd (ground (arith, k));
      at_tail = λ p k. absurd (ground (arith, k));
    };
    back = none;
    ready_linked = refl;
    waiting_ends = record {
      counted = refl;
      at_head = λ p k. absurd (ground (arith, k));
      at_tail = λ p k. absurd (ground (arith, k));
    };
    waiting_linked = refl;
    waiting_first = λ p k. absurd (ground (arith, k));
  };
  is_current = c;
  back_off = λ r e. absurd (ground (arith, e));
}

thread_exit-IsValid :
    (c : ℕ) (rs ws : List ℕ) (s : Threads)
    → IsValid (schedule (Running.active c) rs ws) s
    → (s' : Threads) × (thread_exit s ≡ some s') × IsValid (schedule (Running.ended c) rs ws) s'
unfolding thread_exit Has
thread_exit-IsValid c rs ws s v =
    let (t, l, st, k) = v.links.population.on_active c refl in
    (
      record s {
        heap = record s.heap {
          thread = update s.heap.thread c (some (with_status ThreadStatus.zombie t));
        };
      },
      rw (v.is_current, ◌>>=◌, modify, l, ◌>>=◌) refl,
      IsValid-status (schedule (Running.active c) rs ws) (Running.ended c) s c
          (with_status ThreadStatus.zombie t) s.kills refl
          (Population-moved s.heap.thread (schedule (Running.active c) rs ws)
            (schedule (Running.ended c) rs ws) c t (with_status ThreadStatus.zombie t)
            v.links.population l k refl (exit-Moves c rs ws (v.links.population.once c)))
          v,
    )

-- A run has one result.
abbrev pub state_or : {A : Type 0} → Threads → Option ((_ : A) × Threads) → Threads
state_or d none = d
state_or d (some (a, s)) = s

abbrev pub one_or : Threads → Option Threads → Threads
one_or d none = d
one_or d (some s) = s

-- Every state reached from `Init` by creations at fresh addresses with fresh pids, suspensions and
-- cancellations of ready threads, resumptions of the first waiting one, exits of the running one, and
-- alarms while a thread runs or is ready is valid: the two queues are linked as the lists say, with
-- their counts and ends, every thread is on one list at most and has the status of its list, and no
-- pid occurs twice.
pub Reaches-IsValid : (a : Schedule) (s : Threads) → Reaches a s → IsValid a s
unfolding Ticked
Reaches-IsValid a s (Reaches.start s0 z c) = init-IsValid s0 z c
Reaches-IsValid a s (Reaches.create {run} {rs} {ws} {s = s0} p pid i tid x z k n m u e) =
    let y =
      thread_create-Created (schedule run rs ws) s0 p pid i
        (Reaches-IsValid (schedule run rs ws) s0 x) z k n m u in
    subst (IsValid (schedule run (rs ++ p ∷ []) ws)) (ap (state_or s) (sym y.runs ∙ e)) y.valid
Reaches-IsValid a s (Reaches.suspend {run} {ws} {s = s0} xs p ys tid b x n e) =
    let (s2, f, w, _, _, _) =
      thread_suspend-Suspended run xs p ys ws s0
        (Reaches-IsValid (schedule run (xs ++ p ∷ ys) ws) s0 x) tid n in
    subst (IsValid (schedule run (xs ++ ys) (ws ++ p ∷ []))) (ap (state_or s) (sym f ∙ e)) w
Reaches-IsValid a s (Reaches.resume {run} {rs} {ws} {s = s0} p tid b x n e) =
    let (s2, f, w, _, _, _) =
      thread_resume-Resumed run rs p ws s0 (Reaches-IsValid (schedule run rs (p ∷ ws)) s0 x) tid
        n in
    subst (IsValid (schedule run (rs ++ p ∷ []) ws)) (ap (state_or s) (sym f ∙ e)) w
Reaches-IsValid a s (Reaches.cancel {run} {ws} {s = s0} xs p ys tid b x n u e) =
    let (s2, f, w, _, _, _, _, _, _) =
      thread_cancel-Cancelled run xs p ys ws s0
        (Reaches-IsValid (schedule run (xs ++ p ∷ ys) ws) s0 x) tid n u in
    subst (IsValid (schedule run (xs ++ ys) ws)) (ap (state_or s) (sym f ∙ e)) w
Reaches-IsValid a s (Reaches.exit {rs} {ws} {s = s0} c x e) =
    let (s2, f, w) =
      thread_exit-IsValid c rs ws s0 (Reaches-IsValid (schedule (Running.active c) rs ws) s0 x) in
    subst (IsValid (schedule (Running.ended c) rs ws)) (ap (one_or s) (sym f ∙ e)) w
Reaches-IsValid a s (Reaches.alarm {run} {rs} {ws} {s = s0} x n e) =
    let (s2, f, w, _) = timer-Ticked run rs ws s0 (Reaches-IsValid (schedule run rs ws) s0 x) n in
    subst (IsValid (rotate run rs ws)) (ap (one_or s) (sym f ∙ e)) w

-- The handler at as many alarms.
unfoldable pub alarms : ℕ → Threads → Option Threads
alarms zero s = some s
alarms (suc n) s = do s1 ← timer Signal.sigalrm s; alarms n s1

alarms-suc :
    (n : ℕ) (s s1 s2 : Threads)
    → timer Signal.sigalrm s ≡ some s1
    → alarms n s1 ≡ some s2
    → alarms (suc n) s ≡ some s2
unfolding alarms
alarms-suc n s s1 s2 e f = rw (e, ◌>>=◌) f

append_assoc :
    (xs : List ℕ) (p : ℕ) (ys : List ℕ) (c : ℕ)
    → (xs ++ p ∷ ys) ++ c ∷ [] ≡ xs ++ p ∷ (ys ++ c ∷ [])
append_assoc [] p ys c = refl
append_assoc (x ∷ xs) p ys c = ap (◌∷◌ x) (append_assoc xs p ys c)

alarms-active :
    (c : ℕ) (xs : List ℕ) (p : ℕ) (ys ws : List ℕ) (s : Threads)
    → IsValid (schedule (Running.active c) (xs ++ p ∷ ys) ws) s
    → (s' : Threads) × (rs : List ℕ) × (alarms (suc (length xs)) s ≡ some s')
      × IsValid (schedule (Running.active p) rs ws) s'
      × (s'.current ≡ some p)
unfolding alarms rotate Ticked
alarms-active c [] p ys ws s v =
    let (s1, e, w, _) = timer-Ticked (Running.active c) (p ∷ ys) ws s v (omega arith) in
    (s1, ys ++ c ∷ [], alarms-suc 0 s s1 s1 e refl, w, w.is_current)
alarms-active c (x ∷ xs) p ys ws s v =
    let (s1, e, w, _) = timer-Ticked (Running.active c) (x ∷ xs ++ p ∷ ys) ws s v (omega arith) in
    let w' =
      subst (λ l. IsValid (schedule (Running.active x) l ws) s1) (append_assoc xs p ys c) w in
    let (s2, rs, f, y, z) = alarms-active x xs p (ys ++ c ∷ []) ws s1 w' in
    (s2, rs, alarms-suc (suc (length xs)) s s1 s2 e f, y, z)

append_two : (xs : List ℕ) (p : ℕ) (ys zs : List ℕ) → (xs ++ p ∷ ys) ++ zs ≡ xs ++ p ∷ (ys ++ zs)
append_two [] p ys zs = refl
append_two (x ∷ xs) p ys zs = ap (◌∷◌ x) (append_two xs p ys zs)

append_none : (xs : List ℕ) → xs ++ [] ≡ xs
append_none [] = refl
append_none (x ∷ xs) = ap (◌∷◌ x) (append_none xs)

-- Whatever runs, the first of the ready threads is the next.
rotate_next :
    (run : Running) (p : ℕ) (rs ws : List ℕ)
    → (last : List ℕ) × (rotate run (p ∷ rs) ws ≡ schedule (Running.active p) (rs ++ last) ws)
unfolding rotate
rotate_next Running.idle p rs ws =
    ([], ap (λ l. schedule (Running.active p) l ws) (sym (append_none rs)))
rotate_next (Running.active c) p rs ws = (c ∷ [], refl)
rotate_next (Running.ended c) p rs ws =
    ([], ap (λ l. schedule (Running.active p) l ws) (sym (append_none rs)))
rotate_next (Running.blocked c) p rs ws =
    ([], ap (λ l. schedule (Running.active p) l ws) (sym (append_none rs)))

-- No ready thread of a valid state starves, whether a thread runs, has ended, waits for a semaphore, or
-- none does: one that k others are ahead of in the ready queue runs after k + 1 alarms, if nothing
-- else happens, and the state is valid then.
pub alarms-served :
    (run : Running) (xs : List ℕ) (p : ℕ) (ys ws : List ℕ) (s : Threads)
    → IsValid (schedule run (xs ++ p ∷ ys) ws) s
    → (s' : Threads) × (rs : List ℕ) × (alarms (suc (length xs)) s ≡ some s')
      × IsValid (schedule (Running.active p) rs ws) s'
      × (s'.current ≡ some p)
unfolding alarms Ticked
alarms-served run [] p ys ws s v =
    let (s1, e, w, _) = timer-Ticked run (p ∷ ys) ws s v (omega arith) in
    let (last, next) = rotate_next run p ys ws in
    let w' = subst (λ a. IsValid a s1) next w in
    (s1, ys ++ last, alarms-suc 0 s s1 s1 e refl, w', w'.is_current)
alarms-served run (x ∷ xs) p ys ws s v =
    let (s1, e, w, _) = timer-Ticked run (x ∷ xs ++ p ∷ ys) ws s v (omega arith) in
    let (last, next) = rotate_next run x (xs ++ p ∷ ys) ws in
    let w1 = subst (λ a. IsValid a s1) next w in
    let w' =
      subst (λ l. IsValid (schedule (Running.active x) l ws) s1) (append_two xs p ys last) w1 in
    let (s2, rs, f, y, z) = alarms-active x xs p (ys ++ last) ws s1 w' in
    (s2, rs, alarms-suc (suc (length xs)) s s1 s2 e f, y, z)
