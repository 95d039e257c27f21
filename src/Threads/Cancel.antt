-- ===== src/Threads/Cancel.antt =====
-- thread_cancel of SystemSoftware/Thread-scheduler/thread.c on a valid state.
use mathlib.Core.Path.{subst}
use kw_home_work.Common.{
  ℕ, ◌+◌, ◌<◌, ◌≤◌, ◌≡◌, refl, sym, ◌∙◌, ap, Option, none, some, List, ◌∷◌, ◌++◌, arith, ◌==◌,
  if◌then◌else◌, update, count, ◌>>=◌, ltb-true, true, Bool-cases, inl, inr,
}
use kw_home_work.Threads.{
  Thread, ThreadStatus, Threads, Heap, ThreadQueue, Signal, is_ready, unlink_cancelled,
  max_thread_num,
}
use kw_home_work.Threads.Calls.{thread_cancel, lose, free, kill}
use kw_home_work.Threads.Lists.{Chain-frame, Segment-frame}
use kw_home_work.Threads.Cut.{first_or-count}
use kw_home_work.Threads.Append.{Alive}
use kw_home_work.Threads.Cancelled.{Cancelled, cancelled}
use kw_home_work.Threads.Population.{held, Running, Has, Has-update, Population, Has-Alive}
use kw_home_work.Threads.Valid.{IsValid}
use kw_home_work.Threads.Moves.{Entry, schedule, count-drop, not_active, not_ended, not_blocked}

cancel_run :
    (tid p : ℕ) (s : Threads) (t : Thread) (q : ThreadQueue) (h : Heap)
    → tid < max_thread_num
    → (s.table tid).b_used ≡ true
    → (s.table tid).p_thread ≡ some p
    → s.heap.thread p ≡ some t
    → is_ready t.status ≡ true
    → unlink_cancelled p (lose s.ready_queue) s.heap ≡ some (q, h)
    → thread_cancel tid s
      ≡ some (none, record (kill t.pid Signal.sigkill s) { heap = free p h; ready_queue = q })
unfolding thread_cancel
cancel_run tid p s t q h n u at l r e =
    rw (ltb-true tid max_thread_num n, u, at, ◌>>=◌, l, ◌>>=◌, l, ◌>>=◌, r, if◌then◌else◌, e, ◌>>=◌)
      refl

-- A heap without the thread has nothing new.
dropped :
    (thread : ℕ → Option Thread) (p r : ℕ) (u : Thread)
    → update thread p none r ≡ some u
    → (thread r ≡ some u) × (p ≡ r → ⊥)
dropped thread p r u e = elim (Bool-cases (r == p)) [
  | inl b ↦ absurd (ground (arith, sym (ap (λ z. if z then none else thread r) b) ∙ e))
  | inr b ↦ (sym (ap (λ z. if z then none else thread r) b) ∙ e, λ z. ground (arith, z, b))
]

module _ (run : Running) (xs : List ℕ) (p : ℕ) (ys ws : List ℕ) (s : Threads)
    (v : IsValid (schedule run (xs ++ p ∷ ys) ws) s) where
  on_list : 0 < count p (xs ++ p ∷ ys)
  on_list = ground (arith, count-drop xs p ys p)

  abbrev threads : ℕ → Option Thread
  threads = update s.heap.thread p none

  kept_Alive : (r : ℕ) → Alive s.heap r → (p ≡ r → ⊥) → (t : Thread) × (threads r ≡ some t)
  unfolding Alive
  kept_Alive r (t, l) n = (t, ground (arith, n, l))

  off_back : (r : ℕ) → v.links.back ≡ some r → Alive s.heap r × (p ≡ r → ⊥)
  off_back r e =
      let (al, z) = v.back_off r e in (al, λ q. ground (arith, z, q, count-drop xs p ys r))

  removal : Cancelled s.heap v.links.back p s.ready_queue xs ys
  unfolding Alive
  removal =
      cancelled s.heap v.links.back p s.ready_queue v.links.population.pids off_back xs ys
        (λ r k. Has-Alive s.heap.thread ThreadStatus.ready r (v.links.population.on_ready r k))
        (λ r. omega (arith, v.links.population.once r)) (λ r e. omega (arith, (v.back_off r e).1))
        v.links.ready_linked v.links.ready_ends

  held_once : count p (xs ++ p ∷ ys) + count p (held run) ≤ 1
  held_once = omega (arith, v.links.population.once p)

  population : Population threads (schedule run (xs ++ ys) ws)
  population =
      let x = v.links.population in
      record {
        on_ready = λ r k.
            Has-update s.heap.thread ThreadStatus.ready p r none
              (λ e. ground (arith, e, k, x.once r, count-drop xs p ys r))
              (x.on_ready r (ground (arith, k, count-drop xs p ys r)));
        on_waiting = λ r k.
            Has-update s.heap.thread ThreadStatus.wait p r none
              (λ e. ground (arith, e, k, x.once r, count-drop xs p ys r)) (x.on_waiting r k);
        on_active = λ r k.
            Has-update s.heap.thread ThreadStatus.run p r none
              (λ e. not_active run p _ on_list held_once (k ∙ ap Running.active (sym e)))
              (x.on_active r k);
        on_ended = λ r k.
            Has-update s.heap.thread ThreadStatus.zombie p r none
              (λ e. not_ended run p _ on_list held_once (k ∙ ap Running.ended (sym e)))
              (x.on_ended r k);
        on_blocked = λ r k.
            Has-update s.heap.thread ThreadStatus.wait p r none
              (λ e. not_blocked run p _ on_list held_once (k ∙ ap Running.blocked (sym e)))
              (x.on_blocked r k);
        pids = λ q r t u e f g.
            x.pids q r t u (dropped s.heap.thread p q t e).0 (dropped s.heap.thread p r u f).0 g;
        once = λ r. ground (arith, x.once r, count-drop xs p ys r);
      }

  kept_waiting :
      (r : ℕ)
      → 0 < count r ws
      → (removal.new_heap.prev r ≡ s.heap.prev r) × (removal.new_heap.next r ≡ s.heap.next r)
  kept_waiting r k =
      removal.kept r (omega (arith, v.links.population.once r, k))
        (λ e. let (_, z) = v.back_off r e in omega (arith, z, k))

  abbrev after : Thread → Threads
  after t = record (kill t.pid Signal.sigkill s) {
    heap = free p removal.new_heap;
    ready_queue = removal.new_queue;
  }

  after-IsValid : (t : Thread) → IsValid (schedule run (xs ++ ys) ws) (after t)
  unfolding Alive
  after-IsValid t = record {
    links = record {
      population =
          subst (λ th. Population (update th p none) (schedule run (xs ++ ys) ws))
            (sym removal.threads) population;
      ready_ends = removal.ends;
      back = v.links.back;
      ready_linked =
          Segment-frame removal.new_heap (after t).heap v.links.back (xs ++ ys) none
            (λ r k. (refl, refl)) removal.linked;
      waiting_ends = v.links.waiting_ends;
      waiting_linked =
          Chain-frame s.heap (after t).heap ws (λ r k. (kept_waiting r k).1) v.links.waiting_linked;
      waiting_first = λ r e.
          let k = first_or-count none ws r e (λ q. ground (arith, q)) in
          (kept_waiting r k).0 ∙ v.links.waiting_first r e;
    };
    is_current = v.is_current;
    back_off = λ r e.
        let (al, n) = off_back r e in
        (
          subst (λ th. (u : Thread) × (update th p none r ≡ some u)) (sym removal.threads)
              (kept_Alive r al n),
          ground (arith, (v.back_off r e).1, count-drop xs p ys r),
        );
  }

  -- thread_cancel of a ready thread of a valid state, wherever it stands in the ready queue and
  -- whose entry is used, takes it out of that queue, sends its pid one SIGKILL and frees it; it
  -- returns no value, and the state stays valid, with the same table and running thread.
  pub thread_cancel-Cancelled :
      (tid : ℕ)
      → Entry s tid p
      → (s.table tid).b_used ≡ true
      → (s' : Threads) × (thread_cancel tid s ≡ some (none, s'))
        × IsValid (schedule run (xs ++ ys) ws) s'
        × (s'.heap.thread p ≡ none)
        × (s'.table ≡ s.table)
        × (s'.current ≡ s.current)
        × (t : Thread) × (s.heap.thread p ≡ some t)
        × (s'.kills ≡ record { to = t.pid; sig = Signal.sigkill } ∷ s.kills)
  unfolding Has Alive
  thread_cancel-Cancelled tid e u =
      let (t, l, st, k) = v.links.population.on_ready p on_list in
      (
        after t,
        cancel_run tid p s t removal.new_queue removal.new_heap e.in_table u e.pointer l
            (ap is_ready st) removal.runs,
        after-IsValid t,
        ground arith,
        refl,
        refl,
        t,
        l,
        refl,
      )
