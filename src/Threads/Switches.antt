-- ===== src/Threads/Switches.antt =====
-- The branches of the timer's handler and of __ContextSwitch in
-- SystemSoftware/Thread-scheduler/scheduler.c, run step by step.
use kw_home_work.Common.{
  ℕ, suc, ◌<◌, ◌≡◌, refl, ◌∙◌, ap, none, some, arith, ◌==◌, if◌then◌else◌, update, ◌>>=◌, true,
  false, ℤ, is_zero, is_pos,
}
use kw_home_work.Threads.{
  Thread, ThreadStatus, Threads, Heap, ThreadQueue, Signal, is_wait, is_zombie, modify, enqueue,
}
use kw_home_work.Threads.Calls.{with_status, kill}
use kw_home_work.Threads.Scheduler.{
  put_back, take_head, start, context_switch, switch_from, timer, alarm,
}

==-pos : (n : ℕ) → 0 < n → (n == 0) ≡ false
==-pos n k = ground (arith, k)

pub switch_run :
    (curpid newpid : ℕ) (s s1 s2 s3 : Threads)
    → 0 < curpid
    → 0 < newpid
    → put_back curpid s ≡ some s1
    → take_head s1 ≡ some s2
    → start newpid s2 ≡ some s3
    → context_switch curpid newpid s ≡ some s3
unfolding context_switch
switch_run curpid newpid s s1 s2 s3 k n e f g =
    rw (==-pos curpid k, if◌then◌else◌, ==-pos newpid n, if◌then◌else◌, e, ◌>>=◌, f, ◌>>=◌, g) refl

pub switch_first :
    (newpid : ℕ) (s s2 s3 : Threads)
    → take_head s ≡ some s2
    → start newpid s2 ≡ some s3
    → context_switch 0 newpid s ≡ some s3
unfolding context_switch
switch_first newpid s s2 s3 f g = rw (f, ◌>>=◌, g) refl

pub switch_self :
    (curpid : ℕ) (s s3 : Threads)
    → 0 < curpid
    → start curpid s ≡ some s3
    → context_switch curpid 0 s ≡ some s3
unfolding context_switch
switch_self curpid s s3 k g = rw (==-pos curpid k, if◌then◌else◌, g) refl

pub timer_idle :
    (p : ℕ) (s s' : Threads) (u : Thread)
    → s.current ≡ none
    → s.ready_queue.head ≡ some p
    → s.heap.thread p ≡ some u
    → context_switch 0 u.pid s ≡ some s'
    → timer Signal.sigalrm s ≡ some s'
unfolding timer alarm
timer_idle p s s' u c h l e = ap (λ o. alarm o s) c ∙ simp (h, l, ◌>>=◌, e)

pub timer_busy :
    (c p n : ℕ) (s s' : Threads) (t u : Thread)
    → s.current ≡ some c
    → s.heap.thread c ≡ some t
    → 0 < t.pid
    → is_wait t.status ≡ false
    → s.ready_queue.queue_count ≡ ℤ.pos (suc n)
    → s.ready_queue.head ≡ some p
    → s.heap.thread p ≡ some u
    → context_switch t.pid u.pid (kill t.pid Signal.sigstop s) ≡ some s'
    → timer Signal.sigalrm s ≡ some s'
unfolding timer alarm switch_from
timer_busy c p n s s' t u cur l k w q h m e =
    ap (λ o. alarm o s) cur ∙ simp (l, ◌>>=◌, ==-pos t.pid k, q, is_pos, h, m, w, e)

-- A thread that waits for a semaphore is passed over: the switch is told that none ran.
pub timer_waiting :
    (c p n : ℕ) (s s' : Threads) (t u : Thread)
    → s.current ≡ some c
    → s.heap.thread c ≡ some t
    → 0 < t.pid
    → is_wait t.status ≡ true
    → s.ready_queue.queue_count ≡ ℤ.pos (suc n)
    → s.ready_queue.head ≡ some p
    → s.heap.thread p ≡ some u
    → context_switch 0 u.pid (kill t.pid Signal.sigstop s) ≡ some s'
    → timer Signal.sigalrm s ≡ some s'
unfolding timer alarm switch_from
timer_waiting c p n s s' t u cur l k w q h m e =
    ap (λ o. alarm o s) cur ∙ simp (l, ◌>>=◌, ==-pos t.pid k, q, is_pos, h, m, w, e)

pub timer_alone :
    (c : ℕ) (s s' : Threads) (t : Thread)
    → s.current ≡ some c
    → s.heap.thread c ≡ some t
    → 0 < t.pid
    → s.ready_queue.queue_count ≡ ℤ.pos 0
    → context_switch t.pid 0 (kill t.pid Signal.sigstop s) ≡ some s'
    → timer Signal.sigalrm s ≡ some s'
unfolding timer alarm switch_from
timer_alone c s s' t cur l k q e =
    ap (λ o. alarm o s) cur ∙ simp (l, ◌>>=◌, ==-pos t.pid k, q, is_pos, is_zero, e)

pub back_run :
    (c curpid : ℕ) (s : Threads) (t : Thread) (q : ThreadQueue) (h : Heap)
    → s.current ≡ some c
    → s.heap.thread c ≡ some t
    → is_zombie t.status ≡ false
    → enqueue s.ready_queue.tail c s.ready_queue (record s.heap {
      thread = update s.heap.thread c (some (with_status ThreadStatus.ready t));
    })
      ≡ some (q, h)
    → put_back curpid s ≡ some (record s { heap = h; ready_queue = q })
unfolding put_back
back_run c curpid s t q h cur l z e =
    simp (cur, ◌>>=◌, l, ◌>>=◌, z, if◌then◌else◌, modify, l, ◌>>=◌, e, ◌>>=◌)

pub zombie_run :
    (c curpid : ℕ) (s : Threads) (t : Thread)
    → s.current ≡ some c
    → s.heap.thread c ≡ some t
    → is_zombie t.status ≡ true
    → put_back curpid s ≡ some (record (kill curpid Signal.sigkill s) { current = none })
unfolding put_back
zombie_run c curpid s t cur l z = rw (cur, ◌>>=◌, l, ◌>>=◌, z, if◌then◌else◌) refl
