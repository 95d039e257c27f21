-- ===== src/Threads/Suspend.antt =====
-- thread_suspend of SystemSoftware/Thread-scheduler/thread.c on a valid state.
use mathlib.Core.Path.{subst}
use kw_home_work.Common.{
  ℕ, ◌+◌, ◌<◌, ◌≤◌, ◌≡◌, refl, sym, ◌∙◌, ap, Option, none, some, List, [], ◌∷◌, ◌++◌, arith, update,
  count, count-append, count-snoc, inl, inr, true, ℕ-cases,
}
use kw_home_work.Threads.{Thread, ThreadStatus, Threads, ThreadQueue, is_wait, unlink_suspended}
use kw_home_work.Threads.Calls.{thread_suspend, with_status, lose}
use kw_home_work.Threads.Lists.{first_or, Chain-frame, Segment-frame}
use kw_home_work.Threads.Cut.{cut, Segment-cut, cut-off}
use kw_home_work.Threads.Append.{Alive, Ends, Appended, enqueue-Appended}
use kw_home_work.Threads.Removal.{suspended-cut}
use kw_home_work.Threads.Population.{held, Running, Has, Has-Alive, Alive-update}
use kw_home_work.Threads.Places.{Population-moved}
use kw_home_work.Threads.Valid.{IsValid}
use kw_home_work.Threads.Moves.{
  Entry, thread_at-Entry, suspend_run, schedule, count-drop, suspend-Moves, not_active, not_ended,
  not_blocked,
}

module _ (run : Running) (xs : List ℕ) (p : ℕ) (ys ws : List ℕ) (s : Threads)
    (v : IsValid (schedule run (xs ++ p ∷ ys) ws) s) where
  on_list : 0 < count p (xs ++ p ∷ ys)
  on_list = ground (arith, count-drop xs p ys p)

  held_once : count p (xs ++ p ∷ ys) + count p (held run) ≤ 1
  held_once = omega (arith, v.links.population.once p)

  ready-Alive : (r : ℕ) → 0 < count r (xs ++ p ∷ ys) → Alive s.heap r
  unfolding Alive
  ready-Alive r k = Has-Alive s.heap.thread ThreadStatus.ready r (v.links.population.on_ready r k)

  waiting-Alive : (r : ℕ) → 0 < count r (ws ++ p ∷ []) → Alive (cut p s.heap) r
  unfolding Alive cut
  waiting-Alive r k = elim (ℕ-cases p r) [
    | inl e ↦ ready-Alive r (subst (λ r. 0 < count r (xs ++ p ∷ ys)) e on_list)
    | inr n ↦
        Has-Alive s.heap.thread ThreadStatus.wait r
          (v.links.population.on_waiting r (ground (arith, n, k, count-snoc r p ws)))
  ]

  off_back : (r : ℕ) → v.links.back ≡ some r → Alive s.heap r × (p ≡ r → ⊥)
  off_back r e =
      let (al, z) = v.back_off r e in (al, λ q. ground (arith, z, q, count-drop xs p ys r))

  removal :
      (q' : ThreadQueue) × (unlink_suspended p s.ready_queue s.heap ≡ some (q', cut p s.heap))
      × Ends (lose q') (xs ++ ys)
  removal =
      suspended-cut s.heap v.links.back p s.ready_queue v.links.population.pids off_back xs ys
        ready-Alive (λ r. omega (arith, v.links.population.once r)) v.links.ready_linked
        v.links.ready_ends

  once_waiting : (r : ℕ) → count r (ws ++ p ∷ []) ≤ 1
  once_waiting r =
      ground (arith, v.links.population.once r, count-drop xs p ys r, count-snoc r p ws)

  appending : Appended removal.0.tail p ws s.waiting_queue (cut p s.heap)
  appending =
      enqueue-Appended removal.0.tail p ws s.waiting_queue (cut p s.heap) waiting-Alive once_waiting
        v.links.waiting_ends

  with_threads : Thread → (ℕ → Option Thread) → Threads
  with_threads t th = record s {
    heap = record appending.new_heap {
      thread = update th p (some (with_status ThreadStatus.wait t));
    };
    ready_queue = lose removal.0;
    waiting_queue = appending.new_queue;
  }

  suspended : Thread → Threads
  suspended t = record s {
    heap = record appending.new_heap {
      thread = update s.heap.thread p (some (with_status ThreadStatus.wait t));
    };
    ready_queue = lose removal.0;
    waiting_queue = appending.new_queue;
  }

  -- The links of the threads that stay.
  kept :
      (r : ℕ)
      → 0 < count r (xs ++ ys)
      → (appending.new_heap.prev r ≡ (cut p s.heap).prev r)
        × (appending.new_heap.next r ≡ (cut p s.heap).next r)
  kept r k =
      let o = v.links.population.once r in
      let (f, g) = appending.frame r (λ e. ground (arith, o, k, e, count-drop xs p ys r)) in
      (f, g (ground (arith, o, k, count-drop xs p ys r)))

  kept_waiting :
      (r : ℕ)
      → 0 < count r ws
      → ((cut p s.heap).prev r ≡ s.heap.prev r) × ((cut p s.heap).next r ≡ s.heap.next r)
  kept_waiting r k =
      cut-off s.heap v.links.back xs p ys r (omega (arith, v.links.population.once r, k))
        (λ e. let (_, z) = v.back_off r e in omega (arith, z, k)) v.links.ready_linked

  first_waiting :
      (ws' : List ℕ)
      → ws ≡ ws'
      → (r : ℕ) → first_or none (ws' ++ p ∷ []) ≡ some r
      → appending.new_heap.prev r ≡ none
  unfolding first_or count
  first_waiting [] e r k = ap appending.new_heap.prev (ground (arith, k)) ∙ appending.alone e
  first_waiting (w ∷ ws') e r k =
      let z : w ≡ r = ground (arith, k) in
      let n : 0 < count r ws = subst (λ l. 0 < count r l) (sym e) (ground (arith, z)) in
      let (f, _) =
        appending.frame r
          (λ q. ground (arith, v.links.population.once r, n, q, count-drop xs p ys r)) in
      f ∙ (kept_waiting r n).0 ∙ v.links.waiting_first r (ap (first_or none) e ∙ k)

  suspended-IsValid :
      (t : Thread)
      → s.heap.thread p ≡ some t
      → 0 < t.pid
      → IsValid (schedule run (xs ++ ys) (ws ++ p ∷ [])) (suspended t)
  unfolding suspended Alive
  suspended-IsValid t l k = record {
    links = record {
      population =
          Population-moved s.heap.thread (schedule run (xs ++ p ∷ ys) ws)
            (schedule run (xs ++ ys) (ws ++ p ∷ [])) p t (with_status ThreadStatus.wait t)
            v.links.population l k refl
            (suspend-Moves run xs p ys ws (v.links.population.once p)
              (not_active run p _ on_list held_once) (not_ended run p _ on_list held_once)
              (not_blocked run p _ on_list held_once));
      ready_ends = removal.2;
      back = v.links.back;
      ready_linked =
          Segment-frame (cut p s.heap) (suspended t).heap v.links.back (xs ++ ys) none kept (
            Segment-cut s.heap v.links.back xs p ys
              (λ r. omega (arith, v.links.population.once r, count-append r xs (p ∷ ys)))
              (λ r e. omega (arith, (v.back_off r e).1, count-append r xs (p ∷ ys)))
              v.links.ready_linked);
      waiting_ends = appending.ends;
      waiting_linked =
          Chain-frame appending.new_heap (suspended t).heap (ws ++ p ∷ []) (λ r k. refl)
            (appending.chained (
              Chain-frame s.heap (cut p s.heap) ws (λ r k. (kept_waiting r k).1)
                v.links.waiting_linked));
      waiting_first = first_waiting ws refl;
    };
    is_current = v.is_current;
    back_off = λ r e.
        let (al, z) = v.back_off r e in
        (
          Alive-update s.heap.thread p r (with_status ThreadStatus.wait t) al,
          ground (arith, z, (off_back r e).1, count-drop xs p ys r, count-snoc r p ws),
        );
  }

  -- thread_suspend of a ready thread of a valid state, wherever it stands in the ready queue, takes it
  -- out of that queue and puts it at the tail of the waiting queue with status WAIT; it returns 0, and
  -- the state stays valid, with the same table, running thread and signals.
  pub thread_suspend-Suspended :
      (tid : ℕ)
      → Entry s tid p
      → (s' : Threads) × (thread_suspend tid s ≡ some (true, s'))
        × IsValid (schedule run (xs ++ ys) (ws ++ p ∷ [])) s'
        × (s'.table ≡ s.table)
        × (s'.current ≡ s.current)
        × (s'.kills ≡ s.kills)
  unfolding Has suspended cut with_threads
  thread_suspend-Suspended tid e =
      let (t, l, st, k) = v.links.population.on_ready p on_list in
      let (q, cuts, _) = removal in
      (
        suspended t,
        suspend_run tid p s t t q appending.new_queue (cut p s.heap) appending.new_heap
              (thread_at-Entry s tid p e (ready-Alive p on_list)) l (ap is_wait st) cuts
              appending.runs (ap (λ th. th p) appending.threads ∙ l)
            ∙ ap (λ th. some (true, with_threads t th)) appending.threads,
        suspended-IsValid t l k,
        refl,
        refl,
        refl,
      )
