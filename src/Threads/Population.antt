-- ===== src/Threads/Population.antt =====
-- The abstract view of SystemSoftware/Thread-scheduler/thread.c: which thread runs, and the lists of
-- those that are ready and of those that wait; and how the statuses of the threads show it.
use kw_home_work.Common.{
  ℕ, ◌+◌, ◌<◌, ◌≤◌, ◌≡◌, refl, sym, ◌∙◌, ap, Option, none, some, List, [], ◌∷◌, arith, ◌==◌,
  if◌then◌else◌, update, count, inl, inr, Bool-cases, ==_iff,
}
use kw_home_work.Threads.{Thread, ThreadStatus}

-- The thread that runs may have called `thread_exit`, or wait for a semaphore.
pub data Running : Type 0 where
  idle : Running
  active ended blocked : ℕ → Running

abbrev pub address : Running → Option ℕ
address Running.idle = none
address (Running.active c) = some c
address (Running.ended c) = some c
address (Running.blocked c) = some c

abbrev pub held : Running → List ℕ
held Running.idle = []
held (Running.active c) = c ∷ []
held (Running.ended c) = c ∷ []
held (Running.blocked c) = c ∷ []

pub record Schedule : Type 0 where
  pub running : Running
  pub ready_list : List ℕ
  pub waiting_list : List ℕ

unfoldable pub Has : (ℕ → Option Thread) → ThreadStatus → ℕ → Type 0
Has thread st p = (t : Thread) × (thread p ≡ some t) × (t.status ≡ st) × (0 < t.pid)

-- The status of each thread is that of the list it is on, and no two threads have the same pid.
pub record Population (thread : ℕ → Option Thread) (a : Schedule) : Type 0 where
  pub on_ready : (p : ℕ) → 0 < count p a.ready_list → Has thread ThreadStatus.ready p
  pub on_waiting : (p : ℕ) → 0 < count p a.waiting_list → Has thread ThreadStatus.wait p
  pub on_active : (p : ℕ) → a.running ≡ Running.active p → Has thread ThreadStatus.run p
  pub on_ended : (p : ℕ) → a.running ≡ Running.ended p → Has thread ThreadStatus.zombie p
  pub on_blocked : (p : ℕ) → a.running ≡ Running.blocked p → Has thread ThreadStatus.wait p
  pub pids :
      (p r : ℕ) (t u : Thread) → thread p ≡ some t → thread r ≡ some u → t.pid ≡ u.pid → p ≡ r
  pub once : (r : ℕ) → count r a.ready_list + count r a.waiting_list + count r (held a.running) ≤ 1

-- A change of one thread that keeps its pid.
pub Has-update :
    (thread : ℕ → Option Thread) (st : ThreadStatus) (p r : ℕ) (v : Option Thread)
    → (p ≡ r → ⊥)
    → Has thread st r
    → Has (update thread p v) st r
unfolding Has
Has-update thread st p r v n (t, e, k, z) = (t, ground (arith, n) ∙ e, k, z)

pub Alive-update :
    (thread : ℕ → Option Thread) (p r : ℕ) (t : Thread)
    → (u : Thread) × (thread r ≡ some u)
    → (u : Thread) × (update thread p (some t) r ≡ some u)
Alive-update thread p r t (u, e) = elim (Bool-cases (r == p)) [
  | inl b ↦ (t, rw (b) refl)
  | inr b ↦ (u, rw (b) e)
]

abbrev pid_or : ℕ → Option Thread → ℕ
pid_or n none = n
pid_or n (some t) = t.pid

-- What a changed heap has at an address was there before, with the same pid.
update-some :
    (thread : ℕ → Option Thread) (p r : ℕ) (t t' u : Thread)
    → thread p ≡ some t
    → t'.pid ≡ t.pid
    → update thread p (some t') r ≡ some u
    → (v : Thread) × (thread r ≡ some v) × (v.pid ≡ u.pid)
update-some thread p r t t' u e k f = elim (Bool-cases (r == p)) [
  | inl b ↦ (
    t,
    ap thread ((==_iff r p).0 b) ∙ e,
    sym k ∙ ap (λ o. pid_or 0 o) (sym (ap (λ z. if z then some t' else thread r) b) ∙ f),
  )
  | inr b ↦ (u, sym (ap (λ z. if z then some t' else thread r) b) ∙ f, refl)
]

pub pids-update :
    (thread : ℕ → Option Thread) (p : ℕ) (t t' : Thread)
    → thread p ≡ some t
    → t'.pid ≡ t.pid
    → ((p r : ℕ) (t u : Thread) → thread p ≡ some t → thread r ≡ some u → t.pid ≡ u.pid → p ≡ r)
    → (q r : ℕ) (u v : Thread) → update thread p (some t') q ≡ some u
    → update thread p (some t') r ≡ some v
    → u.pid ≡ v.pid
    → q ≡ r
pids-update thread p t t' e k f q r u v g h z =
    let (u2, g2, x) = update-some thread p q t t' u e k g in
    let (v2, h2, y) = update-some thread p r t t' v e k h in f q r u2 v2 g2 h2 (x ∙ z ∙ sym y)

pub Has-Alive :
    (thread : ℕ → Option Thread) (st : ThreadStatus) (p : ℕ)
    → Has thread st p
    → (t : Thread) × (thread p ≡ some t)
unfolding Has
Has-Alive thread st p (t, e, _, _) = (t, e)

pub Has-new :
    (thread : ℕ → Option Thread) (st : ThreadStatus) (p r : ℕ) (v : Option Thread)
    → thread p ≡ none
    → Has thread st r
    → Has (update thread p v) st r
unfolding Has
Has-new thread st p r v n (t, e, k, z) = (t, ground (arith, n, e), k, z)
