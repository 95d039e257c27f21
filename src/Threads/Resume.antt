-- ===== src/Threads/Resume.antt =====
-- thread_resume of SystemSoftware/Thread-scheduler/thread.c on a valid state.
use kw_home_work.Common.{
  ℕ, ◌+◌, ◌<◌, ◌≤◌, ◌≡◌, refl, ap, Option, none, some, List, [], ◌∷◌, ◌++◌, arith, update, count,
  count-snoc, ◌>>=◌, true,
}
use kw_home_work.Threads.{
  Thread, ThreadStatus, Threads, Heap, ThreadQueue, unlink, is_wait, set_prev,
}
use kw_home_work.Threads.Calls.{thread_resume, with_status, lose}
use kw_home_work.Threads.Lists.{first_or, Chain, Chain-frame, Segment-frame}
use kw_home_work.Threads.Cut.{set_at, first_or-count}
use kw_home_work.Threads.Append.{Alive, Ends, Appended, enqueue-Appended}
use kw_home_work.Threads.Ends.{Ends-first, Ends-empty}
use kw_home_work.Threads.Population.{held, Running, Has, Population, Has-Alive, Alive-update}
use kw_home_work.Threads.Places.{Population-moved}
use kw_home_work.Threads.Valid.{IsValid, IsValid-append}
use kw_home_work.Threads.Moves.{
  Entry, thread_at-Entry, resume_run, schedule, resume-Moves, not_active, not_ended, not_blocked,
}

-- The heap without the first of its waiting threads.
unfoldable pub shifted : Option ℕ → Heap → Heap
unfolding set_at
shifted o h = record h { prev = set_at h.prev o none }

pub resumed-first :
    (p : ℕ) (ws : List ℕ) (q : ThreadQueue) (h : Heap)
    → h.prev p ≡ none
    → h.next p ≡ first_or none ws
    → ((r : ℕ) → 0 < count r ws → Alive h r)
    → Ends q (p ∷ ws)
    → (q' : ThreadQueue) × (unlink p q h ≡ some (q', shifted (first_or none ws) h))
      × Ends (lose q') ws
unfolding unlink first_or set_at Alive count shifted
resumed-first p [] q h e f al n = (q, rw (unlink, e, f) refl, Ends-empty p q.tail q n)
resumed-first p (w ∷ ws) q h e f al n =
    let (t, l) = al w (ground arith) in
    (
      record q { head = some w },
      rw (unlink, e, f, set_prev, l, ◌>>=◌) refl,
      Ends-first p (w ∷ ws) (some w) q n refl,
    )

pub shifted-prev :
    (h : Heap) (ws : List ℕ) (r : ℕ)
    → (first_or none ws ≡ some r → ⊥)
    → (shifted (first_or none ws) h).prev r ≡ h.prev r
unfolding first_or set_at shifted
shifted-prev h [] r n = refl
shifted-prev h (w ∷ ws) r n = ground (arith, n)

pub shifted-first :
    (h : Heap) (ws : List ℕ) (r : ℕ)
    → first_or none ws ≡ some r
    → (shifted (first_or none ws) h).prev r ≡ none
unfolding first_or set_at shifted
shifted-first h [] r e = absurd (ground (arith, e))
shifted-first h (w ∷ ws) r e = ground (arith, e)

module _ (run : Running) (rs : List ℕ) (p : ℕ) (ws : List ℕ) (s : Threads)
    (v : IsValid (schedule run rs (p ∷ ws)) s) where
  on_list : 0 < count p (p ∷ ws)
  unfolding count
  on_list = ground arith

  held_once : count p (p ∷ ws) + count p (held run) ≤ 1
  held_once = omega (arith, v.links.population.once p)

  waiting-Alive : (r : ℕ) → 0 < count r (p ∷ ws) → Alive s.heap r
  unfolding Alive
  waiting-Alive r k =
      Has-Alive s.heap.thread ThreadStatus.wait r (v.links.population.on_waiting r k)

  removal :
      (q' : ThreadQueue) × (unlink p s.waiting_queue s.heap
        ≡ some (q', shifted (first_or none ws) s.heap))
      × Ends (lose q') ws
  unfolding Chain first_or count
  removal =
      resumed-first p ws s.waiting_queue s.heap (v.links.waiting_first p refl)
        v.links.waiting_linked.0 (λ r k. waiting-Alive r (ground (arith, k))) v.links.waiting_ends

  abbrev woken : Thread → Threads
  woken t = record s {
    heap = record (shifted (first_or none ws) s.heap) {
      thread = update s.heap.thread p (some (with_status ThreadStatus.ready t));
    };
    waiting_queue = lose removal.0;
  }

  module _ (t : Thread) (l : s.heap.thread p ≡ some t) (k : 0 < t.pid) where
    population : Population (woken t).heap.thread (schedule run (rs ++ p ∷ []) ws)
    population =
        Population-moved s.heap.thread (schedule run rs (p ∷ ws)) (schedule run (rs ++ p ∷ []) ws) p
          t (with_status ThreadStatus.ready t) v.links.population l k refl
          (resume-Moves run rs p ws (v.links.population.once p)
            (not_active run p _ on_list held_once) (not_ended run p _ on_list held_once)
            (not_blocked run p _ on_list held_once))

    appending : Appended s.ready_queue.tail p rs s.ready_queue (woken t).heap
    unfolding Alive
    appending =
        enqueue-Appended s.ready_queue.tail p rs s.ready_queue (woken t).heap
          (λ r n. Has-Alive (woken t).heap.thread ThreadStatus.ready r (population.on_ready r n))
          (λ r. omega (arith, population.once r)) v.links.ready_ends

    not_first : (r : ℕ) → 0 < count r rs → first_or none ws ≡ some r → ⊥
    unfolding count
    not_first r n e =
        ground
          (arith, n, first_or-count none ws r e (λ q. ground (arith, q)), v.links.population.once r)

    resumed-IsValid :
        IsValid
          (schedule run (rs ++ p ∷ []) ws)
          (record (woken t) { heap = appending.new_heap; ready_queue = appending.new_queue })
    unfolding Alive Chain count shifted
    resumed-IsValid =
        IsValid-append run rs ws p v.links.back (woken t) appending population v.is_current
          (Segment-frame s.heap (woken t).heap v.links.back rs none
            (λ r n. (shifted-prev s.heap ws r (not_first r n), refl)) v.links.ready_linked)
          (λ r e.
            let (al, z) = v.back_off r e in
            (
              Alive-update s.heap.thread p r (with_status ThreadStatus.ready t) al,
              ground (arith, z, count-snoc r p rs),
            ))
          removal.2 (Chain-frame s.heap (woken t).heap ws (λ r n. refl) v.links.waiting_linked.1)
          (shifted-first s.heap ws)

  -- thread_resume of the first thread of the waiting queue of a valid state takes it out of that queue
  -- and puts it at the tail of the ready queue with status READY; it returns 0, and the state stays
  -- valid, with the same table, running thread and signals.
  pub thread_resume-Resumed :
      (tid : ℕ)
      → Entry s tid p
      → (s' : Threads) × (thread_resume tid s ≡ some (true, s'))
        × IsValid (schedule run (rs ++ p ∷ []) ws) s'
        × (s'.table ≡ s.table)
        × (s'.current ≡ s.current)
        × (s'.kills ≡ s.kills)
  unfolding Has shifted
  thread_resume-Resumed tid e =
      let (t, l, st, k) = v.links.population.on_waiting p on_list in
      let x = appending t l k in
      let (q, cuts, _) = removal in
      (
        record (woken t) { heap = x.new_heap; ready_queue = x.new_queue },
        resume_run tid p s t t x.new_queue q (shifted (first_or none ws) s.heap) x.new_heap
            (thread_at-Entry s tid p e (waiting-Alive p on_list)) l (ap is_wait st) cuts l x.runs,
        resumed-IsValid t l k,
        refl,
        refl,
        refl,
      )
