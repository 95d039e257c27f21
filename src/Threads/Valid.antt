-- ===== src/Threads/Valid.antt =====
-- When the heap and the two queues of SystemSoftware/Thread-scheduler/thread.c show a schedule.
use mathlib.Core.Path.{subst}
use kw_home_work.Common.{
  ℕ, ◌+◌, ◌<◌, ◌≤◌, ◌≡◌, refl, sym, ◌∙◌, ap, Option, none, some, List, [], ◌∷◌, ◌++◌, arith, count,
  length, count-snoc, update,
}
use kw_home_work.Threads.{Heap, Threads, Kill, Thread}
use kw_home_work.Threads.Lists.{first_or, Segment, Chain, Chain-frame, Segment-frame}
use kw_home_work.Threads.Cut.{first_or-count}
use kw_home_work.Threads.Append.{Alive, Ends, Appended}
use kw_home_work.Threads.Population.{Running, address, Schedule, Population, Alive-update}

-- The lists are linked on the heap, with the ends in the queues. The head of the ready queue may still
-- point back at a thread that was before it: `back`. The threads of the waiting queue are linked
-- forwards only.
pub record Linked (a : Schedule) (s : Threads) : Type 0 where
  pub population : Population s.heap.thread a
  pub ready_ends : Ends s.ready_queue a.ready_list
  pub back : Option ℕ
  pub ready_linked : Segment s.heap back a.ready_list none
  pub waiting_ends : Ends s.waiting_queue a.waiting_list
  pub waiting_linked : Chain s.heap a.waiting_list
  pub waiting_first : (p : ℕ) → first_or none a.waiting_list ≡ some p → s.heap.prev p ≡ none

-- Moreover `back` is off the lists, so that a write through it does no harm.
pub record IsValid (a : Schedule) (s : Threads) : Type 0 where
  pub links : Linked a s
  pub is_current : s.current ≡ address a.running
  pub back_off :
      (r : ℕ)
      → links.back ≡ some r
      → Alive s.heap r × (count r a.ready_list + count r a.waiting_list ≡ 0)

-- A thread that is put at the tail of the ready queue.
unfoldable back_for : Option ℕ → List ℕ → Option ℕ
back_for b [] = none
back_for b (p ∷ ps) = b

back_for-nil : (b : Option ℕ) (ps : List ℕ) → ps ≡ [] → back_for b ps ≡ none
unfolding back_for
back_for-nil b [] e = refl
back_for-nil b (p ∷ ps) e = absurd (omega (arith, ap length e))

back_for-some : (b : Option ℕ) (ps : List ℕ) (r : ℕ) → back_for b ps ≡ some r → b ≡ some r
unfolding back_for
back_for-some b [] r e = absurd (ground (arith, e))
back_for-some b (p ∷ ps) r e = e

Segment-back_for :
    (h : Heap) (b : Option ℕ) (ps : List ℕ)
    → Segment h b ps none
    → Segment h (back_for b ps) ps none
unfolding back_for Segment
Segment-back_for h b [] s = refl
Segment-back_for h b (p ∷ ps) s = s

off_ready :
    (rs : List ℕ) (r p w c : ℕ)
    → count r (rs ++ p ∷ []) + w + c ≤ 1
    → 0 < w
    → (p ≡ r → ⊥) × (count r rs ≡ 0)
off_ready rs r p w c o k =
    (ground (arith, k, o, count-snoc r p rs), ground (arith, k, o, count-snoc r p rs))

pub Linked-append :
    (run : Running) (rs ws : List ℕ) (p : ℕ) (b : Option ℕ) (s : Threads)
    → (x : Appended s.ready_queue.tail p rs s.ready_queue s.heap)
    → Population s.heap.thread
        (record { running = run; ready_list = rs ++ p ∷ []; waiting_list = ws })
    → Segment s.heap b rs none
    → Ends s.waiting_queue ws
    → Chain s.heap ws
    → ((r : ℕ) → first_or none ws ≡ some r → s.heap.prev r ≡ none)
    → Linked
        (record { running = run; ready_list = rs ++ p ∷ []; waiting_list = ws })
        (record s { heap = x.new_heap; ready_queue = x.new_queue })
Linked-append run rs ws p b s x pop seg we ch first = record {
  population =
      subst
        (λ th.
          Population th (record { running = run; ready_list = rs ++ p ∷ []; waiting_list = ws }))
        (sym x.threads) pop;
  ready_ends = x.ends;
  back = back_for b rs;
  ready_linked =
      x.linked (back_for b rs) (back_for-nil b rs) refl (Segment-back_for s.heap b rs seg);
  waiting_ends = we;
  waiting_linked =
      Chain-frame s.heap x.new_heap ws
        (λ r k. let (n, z) = off_ready rs r p (count r ws) _ (pop.once r) k in (x.frame r n).1 z)
        ch;
  waiting_first = λ r e.
      let k = first_or-count none ws r e (λ q. ground (arith, q)) in
      let (n, z) = off_ready rs r p (count r ws) _ (pop.once r) k in (x.frame r n).0 ∙ first r e;
}

pub IsValid-append :
    (run : Running) (rs ws : List ℕ) (p : ℕ) (b : Option ℕ) (s : Threads)
    → (x : Appended s.ready_queue.tail p rs s.ready_queue s.heap)
    → Population s.heap.thread
        (record { running = run; ready_list = rs ++ p ∷ []; waiting_list = ws })
    → s.current ≡ address run
    → Segment s.heap b rs none
    → ((r : ℕ) → b ≡ some r → Alive s.heap r × (count r (rs ++ p ∷ []) + count r ws ≡ 0))
    → Ends s.waiting_queue ws
    → Chain s.heap ws
    → ((r : ℕ) → first_or none ws ≡ some r → s.heap.prev r ≡ none)
    → IsValid
        (record { running = run; ready_list = rs ++ p ∷ []; waiting_list = ws })
        (record s { heap = x.new_heap; ready_queue = x.new_queue })
unfolding Alive Linked-append
IsValid-append run rs ws p b s x pop c seg off we ch first = record {
  links = Linked-append run rs ws p b s x pop seg we ch first;
  is_current = c;
  back_off = λ r e. let (al, off_r) = off r (back_for-some b rs r e) in (rw (x.threads) al, off_r);
}

-- Who runs and the signals play no part.
pub Linked-again :
    (a : Schedule) (run : Running) (s : Threads) (cur : Option ℕ) (kills : List Kill)
    → Population s.heap.thread (record a { running = run })
    → Linked a s
    → Linked (record a { running = run }) (record s { current = cur; kills = kills })
Linked-again a run s cur kills x v = record {
  population = x;
  ready_ends = v.ready_ends;
  back = v.back;
  ready_linked = v.ready_linked;
  waiting_ends = v.waiting_ends;
  waiting_linked = v.waiting_linked;
  waiting_first = v.waiting_first;
}

-- A change of a thread's status alone, with a schedule of the same lists.
pub IsValid-status :
    (a : Schedule) (run : Running) (s : Threads) (p : ℕ) (t' : Thread) (kills : List Kill)
    → address a.running ≡ address run
    → Population (update s.heap.thread p (some t')) (record a { running = run })
    → IsValid a s
    → IsValid
        (record a { running = run })
        (record s {
          heap = record s.heap { thread = update s.heap.thread p (some t') };
          kills = kills;
        })
unfolding Alive
IsValid-status a run s p t' kills c x v =
    let h' : Heap = record s.heap { thread = update s.heap.thread p (some t') } in
    record {
      links = record {
        population = x;
        ready_ends = v.links.ready_ends;
        back = v.links.back;
        ready_linked =
            Segment-frame s.heap h' v.links.back a.ready_list none (λ r n. (refl, refl))
              v.links.ready_linked;
        waiting_ends = v.links.waiting_ends;
        waiting_linked = Chain-frame s.heap h' a.waiting_list (λ r n. refl) v.links.waiting_linked;
        waiting_first = v.links.waiting_first;
      };
      is_current = v.is_current ∙ c;
      back_off = λ r e. let (al, z) = v.back_off r e in (Alive-update s.heap.thread p r t' al, z);
    }
