-- ===== src/Threads/Create.antt =====
-- thread_create of SystemSoftware/Thread-scheduler/thread.c on a valid state.
use kw_home_work.Common.{
  ℕ, zero, suc, ◌+◌, ◌<◌, ◌≤◌, ◌≡◌, refl, sym, ◌∙◌, ap, true, Option, none, some, [], ◌∷◌, ◌++◌,
  arith, ◌==◌, if◌then◌else◌, update, count, count-snoc, ◌>>=◌, inl, inr, not, Bool-cases, false,
  ◌⊎◌, ◌≢◌, ==_iff,
}
use kw_home_work.Threads.{Thread, ThreadStatus, Threads, Signal, Kill, max_thread_num}
use kw_home_work.Threads.Calls.{thread_create, new_thread}
use kw_home_work.Threads.Lists.{Chain-frame, Segment-frame}
use kw_home_work.Threads.Append.{Alive, Appended, enqueue-Appended}
use kw_home_work.Threads.Population.{
  held, Running, Schedule, Has, Population, Has-Alive, Has-new, Alive-update,
}
use kw_home_work.Threads.Valid.{IsValid, IsValid-append}
use kw_home_work.Threads.Tables.{search-lowest}

-- What a heap with a new thread has at an address is the new thread, or was there before.
update-cases :
    (thread : ℕ → Option Thread) (p r : ℕ) (t u : Thread)
    → update thread p (some t) r ≡ some u
    → ((r ≡ p) × (t ≡ u)) ⊎ (thread r ≡ some u)
update-cases thread p r t u f = elim (Bool-cases (r == p)) [
  | inl b ↦
      inl ((==_iff r p).0 b, ground (arith, sym (ap (λ z. if z then some t else thread r) b) ∙ f))
  | inr b ↦ inr (sym (ap (λ z. if z then some t else thread r) b) ∙ f)
]

pub record Created (a : Schedule) (s : Threads) (p pid : ℕ) : Type 0 where
  pub tid : ℕ
  pub state : Threads
  pub runs : thread_create p pid s ≡ some (tid, state)
  pub in_table : tid < max_thread_num
  pub unused : (s.table tid).b_used ≡ false
  pub lowest : (i : ℕ) → i < tid → (s.table i).b_used ≡ true
  pub entry : state.table tid ≡ record { b_used = true; p_thread = some p }
  pub entries : (i : ℕ) → i ≢ tid → state.table i ≡ s.table i
  pub is_new : state.heap.thread p ≡ some (new_thread p pid)
  pub others : (r : ℕ) → r ≢ p → state.heap.thread r ≡ s.heap.thread r
  pub stopped : state.kills ≡ record { to = pid; sig = Signal.sigstop } ∷ s.kills
  pub valid :
      IsValid
        (record {
          running = a.running;
          ready_list = a.ready_list ++ p ∷ [];
          waiting_list = a.waiting_list;
        })
        state

module _ (a : Schedule) (s : Threads) (p pid : ℕ) (v : IsValid a s) (fresh : s.heap.thread p ≡ none)
    (pid_pos : 0 < pid)
    (pid_new : (r : ℕ) (t : Thread) → s.heap.thread r ≡ some t → t.pid ≢ pid) where
  abbrev threads : ℕ → Option Thread
  threads = update s.heap.thread p (some (new_thread p pid))

  absent : (st : ThreadStatus) (n : ℕ) → (0 < n → Has s.heap.thread st p) → n ≡ 0
  absent st zero f = refl
  absent st (suc n) f =
      let (t, e) = Has-Alive s.heap.thread st p (f (omega arith)) in
      absurd (ground (arith, e, fresh))

  off_running : (run : Running) → a.running ≡ run → count p (held run) ≡ 0
  unfolding count
  off_running Running.idle e = refl
  off_running (Running.active c) e =
      absent ThreadStatus.run (count p (c ∷ []))
        (λ k. v.links.population.on_active p (e ∙ ap Running.active (ground (arith, k))))
  off_running (Running.ended c) e =
      absent ThreadStatus.zombie (count p (c ∷ []))
        (λ k. v.links.population.on_ended p (e ∙ ap Running.ended (ground (arith, k))))
  off_running (Running.blocked c) e =
      absent ThreadStatus.wait (count p (c ∷ []))
        (λ k. v.links.population.on_blocked p (e ∙ ap Running.blocked (ground (arith, k))))

  off_lists : count p a.ready_list + count p a.waiting_list + count p (held a.running) ≡ 0
  off_lists = omega (
    arith,
    absent ThreadStatus.ready (count p a.ready_list) (v.links.population.on_ready p),
    absent ThreadStatus.wait (count p a.waiting_list) (v.links.population.on_waiting p),
    off_running a.running refl,
  )

  once_off :
      (r : ℕ)
      → count r (a.ready_list ++ p ∷ []) + count r a.waiting_list + count r (held a.running) ≤ 1
  unfolding count
  once_off r = elim (Bool-cases (p == r)) [
    | inl b ↦
        let e : p ≡ r = (==_iff p r).0 b in
        ground (arith, e, off_lists, count-snoc r p a.ready_list)
    | inr b ↦ ground (arith, b, v.links.population.once r, count-snoc r p a.ready_list)
  ]

  new-Population : Population threads (record a { ready_list = a.ready_list ++ p ∷ [] })
  unfolding Has
  new-Population = record {
    on_ready = λ r k. elim (Bool-cases (p == r)) [
      | inl b ↦ (new_thread p pid, ground (arith, b), refl, pid_pos)
      | inr b ↦
          Has-new s.heap.thread ThreadStatus.ready p r _ fresh
            (v.links.population.on_ready r (ground (arith, b, k, count-snoc r p a.ready_list)))
    ];
    on_waiting = λ r k.
        Has-new s.heap.thread ThreadStatus.wait p r _ fresh (v.links.population.on_waiting r k);
    on_active = λ r k.
        Has-new s.heap.thread ThreadStatus.run p r _ fresh (v.links.population.on_active r k);
    on_ended = λ r k.
        Has-new s.heap.thread ThreadStatus.zombie p r _ fresh (v.links.population.on_ended r k);
    on_blocked = λ r k.
        Has-new s.heap.thread ThreadStatus.wait p r _ fresh (v.links.population.on_blocked r k);
    pids = λ q r t u f g k. elim (update-cases s.heap.thread p q (new_thread p pid) t f) [
      | inl (x, y) ↦ elim (update-cases s.heap.thread p r (new_thread p pid) u g) [
        | inl (z, w) ↦ x ∙ sym z
        | inr z ↦ absurd (pid_new r u z (sym k ∙ sym (ap (λ o. o.pid) y)))
      ]
      | inr x ↦ elim (update-cases s.heap.thread p r (new_thread p pid) u g) [
        | inl (z, w) ↦ absurd (pid_new q t x (k ∙ sym (ap (λ o. o.pid) w)))
        | inr z ↦ v.links.population.pids q r t u x z k
      ]
    ];
    once = once_off;
  }

  listed-Alive :
      (r : ℕ) → 0 < count r (a.ready_list ++ p ∷ []) → Alive (record s.heap { thread = threads }) r
  unfolding Alive
  listed-Alive r k = Has-Alive threads ThreadStatus.ready r (new-Population.on_ready r k)

  appending :
      Appended s.ready_queue.tail p a.ready_list s.ready_queue (record s.heap { thread = threads })
  appending =
      enqueue-Appended s.ready_queue.tail p a.ready_list s.ready_queue
        (record s.heap { thread = threads }) listed-Alive (λ r. omega (arith, once_off r))
        v.links.ready_ends

  abbrev stops : Kill
  stops = record { to = pid; sig = Signal.sigstop }

  abbrev before : ℕ → Threads
  before tid = record s {
    heap = record s.heap { thread = threads };
    table = update s.table tid (record { b_used = true; p_thread = some p });
    kills = stops ∷ s.kills;
  }

  off_back :
      (r : ℕ)
      → v.links.back ≡ some r
      → Alive (record s.heap { thread = threads }) r
        × (count r (a.ready_list ++ p ∷ []) + count r a.waiting_list ≡ 0)
  unfolding Alive
  off_back r e =
      let (al, z) = v.back_off r e in
      let (t, f) = al in
      (
        Alive-update s.heap.thread p r (new_thread p pid) al,
        elim (Bool-cases (p == r)) [
          | inl b ↦
              absurd (ground (arith, sym f ∙ ap s.heap.thread (sym ((==_iff p r).0 b)) ∙ fresh))
          | inr b ↦ ground (arith, z, b, count-snoc r p a.ready_list)
        ],
      )

  create_at : (i : ℕ) → i < max_thread_num → (s.table i).b_used ≡ false → Created a s p pid
  unfolding thread_create
  create_at i in_table unused =
      let (tid, found, below, is_free, lower) =
        search-lowest (λ j. not (s.table j).b_used) 0 max_thread_num i (omega arith) in_table
          (ap not unused) in
      record {
        tid = tid;
        state = record (before tid) {
          heap = appending.new_heap;
          ready_queue = appending.new_queue;
        };
        runs = rw (found, ◌>>=◌, appending.runs, ◌>>=◌) refl;
        in_table = below;
        unused = ground (arith, is_free);
        lowest = λ j k. ground (arith, lower j (omega arith) k);
        entry = ground arith;
        entries = λ j k. ground (arith, k);
        is_new = rw (appending.threads) ground arith;
        others = λ r k. rw (appending.threads) ground (arith, k);
        stopped = refl;
        valid =
            IsValid-append a.running a.ready_list a.waiting_list p v.links.back (before tid)
              appending new-Population v.is_current
              (Segment-frame s.heap (before tid).heap v.links.back a.ready_list none
                (λ r k. (refl, refl)) v.links.ready_linked)
              off_back v.links.waiting_ends
              (Chain-frame s.heap (before tid).heap a.waiting_list (λ r k. refl)
                v.links.waiting_linked)
              v.links.waiting_first;
      }

-- thread_create, when malloc returns an address that holds no thread, clone a pid that no thread has,
-- and the table has an unused entry: it returns the lowest one, which gets the thread, with status
-- READY, stops its process, and puts it at the tail of the ready queue; the state stays valid, and no
-- other thread or entry changes.
pub thread_create-Created :
    (a : Schedule) (s : Threads) (p pid i : ℕ)
    → IsValid a s
    → s.heap.thread p ≡ none
    → 0 < pid
    → ((r : ℕ) (t : Thread) → s.heap.thread r ≡ some t → t.pid ≢ pid)
    → i < max_thread_num
    → (s.table i).b_used ≡ false
    → Created a s p pid
thread_create-Created a s p pid i v fresh pos_pid new_pid below unused =
    create_at a s p pid v fresh pos_pid new_pid i below unused
