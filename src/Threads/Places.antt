-- ===== src/Threads/Places.antt =====
-- A thread of SystemSoftware/Thread-scheduler/thread.c that gets another status and another place in a
-- schedule.
use mathlib.Core.Path.{subst}
use kw_home_work.Common.{
  ℕ, ◌+◌, ◌<◌, ◌≤◌, ◌≡◌, refl, sym, ◌∙◌, Option, some, arith, update, count, inl, inr, ℕ-cases,
}
use kw_home_work.Threads.{Thread, ThreadStatus}
use kw_home_work.Threads.Population.{
  Running, held, Schedule, Has, Population, Has-update, pids-update,
}

-- One thread gets another status and another place.
pub record Moves (a a' : Schedule) (p : ℕ) (st : ThreadStatus) : Type 0 where
  pub ready_as : (r : ℕ) → (p ≡ r → ⊥) → count r a'.ready_list ≡ count r a.ready_list
  pub waiting_as : (r : ℕ) → (p ≡ r → ⊥) → count r a'.waiting_list ≡ count r a.waiting_list
  pub held_as : (r : ℕ) → (p ≡ r → ⊥) → count r (held a'.running) ≤ count r (held a.running)
  pub active_as :
      (r : ℕ) → (p ≡ r → ⊥) → a'.running ≡ Running.active r → a.running ≡ Running.active r
  pub ended_as : (r : ℕ) → (p ≡ r → ⊥) → a'.running ≡ Running.ended r → a.running ≡ Running.ended r
  pub blocked_as :
      (r : ℕ) → (p ≡ r → ⊥) → a'.running ≡ Running.blocked r → a.running ≡ Running.blocked r
  pub if_ready : 0 < count p a'.ready_list → st ≡ ThreadStatus.ready
  pub if_waiting : 0 < count p a'.waiting_list → st ≡ ThreadStatus.wait
  pub if_active : a'.running ≡ Running.active p → st ≡ ThreadStatus.run
  pub if_ended : a'.running ≡ Running.ended p → st ≡ ThreadStatus.zombie
  pub if_blocked : a'.running ≡ Running.blocked p → st ≡ ThreadStatus.wait
  pub one_place : count p a'.ready_list + count p a'.waiting_list + count p (held a'.running) ≤ 1

pub Has-self :
    (thread : ℕ → Option Thread) (st st' : ThreadStatus) (p r : ℕ) (t : Thread)
    → t.status ≡ st
    → st ≡ st'
    → 0 < t.pid
    → p ≡ r
    → Has (update thread p (some t)) st' r
unfolding Has
Has-self thread st st' p r t e f k z = (t, ground (arith, z), e ∙ f, k)

pub Population-moved :
    (thread : ℕ → Option Thread) (a a' : Schedule) (p : ℕ) (t t' : Thread)
    → Population thread a
    → thread p ≡ some t
    → 0 < t.pid
    → t'.pid ≡ t.pid
    → Moves a a' p t'.status
    → Population (update thread p (some t')) a'
Population-moved thread a a' p t t' x e k z m =
    let k' : 0 < t'.pid = ground (arith, k, z) in
    record {
      on_ready = λ r n. elim (ℕ-cases p r) [
        | inl y ↦
            Has-self thread t'.status ThreadStatus.ready p r t' refl
              (m.if_ready (subst (λ r. 0 < count r a'.ready_list) (sym y) n)) k' y
        | inr y ↦
            Has-update thread ThreadStatus.ready p r (some t') y
              (x.on_ready r (omega (arith, n, m.ready_as r y)))
      ];
      on_waiting = λ r n. elim (ℕ-cases p r) [
        | inl y ↦
            Has-self thread t'.status ThreadStatus.wait p r t' refl
              (m.if_waiting (subst (λ r. 0 < count r a'.waiting_list) (sym y) n)) k' y
        | inr y ↦
            Has-update thread ThreadStatus.wait p r (some t') y
              (x.on_waiting r (omega (arith, n, m.waiting_as r y)))
      ];
      on_active = λ r n. elim (ℕ-cases p r) [
        | inl y ↦
            Has-self thread t'.status ThreadStatus.run p r t' refl
              (m.if_active (subst (λ r. a'.running ≡ Running.active r) (sym y) n)) k' y
        | inr y ↦
            Has-update thread ThreadStatus.run p r (some t') y (x.on_active r (m.active_as r y n))
      ];
      on_ended = λ r n. elim (ℕ-cases p r) [
        | inl y ↦
            Has-self thread t'.status ThreadStatus.zombie p r t' refl
              (m.if_ended (subst (λ r. a'.running ≡ Running.ended r) (sym y) n)) k' y
        | inr y ↦
            Has-update thread ThreadStatus.zombie p r (some t') y (x.on_ended r (m.ended_as r y n))
      ];
      on_blocked = λ r n. elim (ℕ-cases p r) [
        | inl y ↦
            Has-self thread t'.status ThreadStatus.wait p r t' refl
              (m.if_blocked (subst (λ r. a'.running ≡ Running.blocked r) (sym y) n)) k' y
        | inr y ↦
            Has-update thread ThreadStatus.wait p r (some t') y
              (x.on_blocked r (m.blocked_as r y n))
      ];
      pids = pids-update thread p t t' e z x.pids;
      once = λ r. elim (ℕ-cases p r) [
        | inl b ↦
            subst
              (λ r. count r a'.ready_list + count r a'.waiting_list + count r (held a'.running) ≤ 1)
              b m.one_place
        | inr y ↦ omega (arith, m.ready_as r y, m.waiting_as r y, m.held_as r y, x.once r)
      ];
    }

pub Has-status :
    (thread : ℕ → Option Thread) (st : ThreadStatus) (p : ℕ) (t : Thread)
    → thread p ≡ some t
    → Has thread st p
    → t.status ≡ st
unfolding Has
Has-status thread st p t e (u, f, g, k) = ground (arith, sym e ∙ f, g)

-- A thread that keeps its status may stay where it is.
pub stay-Moves :
    (thread : ℕ → Option Thread) (a : Schedule) (p : ℕ) (t : Thread)
    → Population thread a
    → thread p ≡ some t
    → Moves a a p t.status
stay-Moves thread a p t x e = record {
  ready_as = λ r n. refl;
  waiting_as = λ r n. refl;
  held_as = λ r n. omega arith;
  active_as = λ r n k. k;
  ended_as = λ r n k. k;
  blocked_as = λ r n k. k;
  if_ready = λ k. Has-status thread ThreadStatus.ready p t e (x.on_ready p k);
  if_waiting = λ k. Has-status thread ThreadStatus.wait p t e (x.on_waiting p k);
  if_active = λ k. Has-status thread ThreadStatus.run p t e (x.on_active p k);
  if_ended = λ k. Has-status thread ThreadStatus.zombie p t e (x.on_ended p k);
  if_blocked = λ k. Has-status thread ThreadStatus.wait p t e (x.on_blocked p k);
  one_place = x.once p;
}

pub Population-idle :
    (thread : ℕ → Option Thread) (a : Schedule)
    → Population thread a
    → Population thread (record a { running = Running.idle })
unfolding count
Population-idle thread a x = record {
  on_ready = x.on_ready;
  on_waiting = x.on_waiting;
  on_active = λ r e. absurd (ground (arith, e));
  on_ended = λ r e. absurd (ground (arith, e));
  on_blocked = λ r e. absurd (ground (arith, e));
  pids = x.pids;
  once = λ r. omega (arith, x.once r);
}
