-- ===== src/Threads/Steps/Calls.antt =====
-- threads/thread.c, `thread_exit` and `thread_set_priority` on well-formed kernels.
use pintos_filesys.Base.{
  ℕ, ◌≡◌, refl, ap, sym, ◌∙◌, Bool, true, false, not, ◌&&◌, Option, [], if◌then◌else◌, ◌==◌, once,
  assert, ◌>>◌, ◌>>=◌, subst, Returns, ℕ_discrete, ne→not_==,
}
use mathlib.Core.Bool.{false≢true}
use pintos_filesys.Threads.{
  Status, thread_dying, is_running, is_ready, Kernel, status_of, set_thread, set_status, schedule,
  do_schedule, thread_set_priority, thread_exit, effective,
}
use pintos_filesys.Threads.Shape.{is_some, IsKernel, Stopped, Kept, set_status-status}
use pintos_filesys.Threads.Scheduling.{
  Waits, schedule-IsKernel, current_running, thread_current_lem, stop_pick, status_cases,
}
use pintos_filesys.Threads.Queueing.{current_awake}
use pintos_filesys.Threads.Highest.{Settled, compare_cur_next_priority-Settled}
use pintos_filesys.Threads.Locks.{set_thread-IsKernel}

-- The lists hold for a thread that waits for nothing and stops.
pub IsKernel-Waits : (k : Kernel) (w : ℕ → Option ℕ) → IsKernel k w → Waits k w
IsKernel-Waits k w v = record {
  ready = v.queued.ready;
  waiting = v.queued.waiting;
  asleep = λ t ne h. v.queued.asleep t h;
  idle = v.queued.idle;
  one = v.one;
}

dying-Stopped :
    (k : Kernel) (w : ℕ → Option ℕ)
    → IsKernel k w
    → Stopped (set_status (record k { destruction_req = [] }) k.current thread_dying) w
dying-Stopped k w v = record {
  queued = record {
    ready = λ t.
        v.queued.ready t
        ∙ rw (set_status-status k k.current t thread_dying)
            (pick (status_of k t) (t == k.current) (not (t == k.idle_thread)) (v.one t));
    waiting = v.queued.waiting;
    asleep = λ t h.
        rw (set_status-status k k.current t thread_dying) (elim (ℕ_discrete t k.current) [
          | yes same ↦
              absurd
                (false≢true (sym (current_awake k w v) ∙ ap (λ a. is_some (w a)) (sym same) ∙ h))
          | no other ↦ rw (ne→not_== t k.current other) (v.queued.asleep t h)
        ]);
    idle = v.queued.idle;
  };
  all = λ t.
      rw (set_status-status k k.current t thread_dying)
        (stop_pick (status_of k t) thread_dying (t == k.current) (v.one t) refl);
}
  where
    pick :
        (s : Status) (b i : Bool)
        → is_running s ≡ b
        → once (is_ready s && i) ≡ once (is_ready (if b then thread_dying else s) && i)
    pick s true i h = ap (λ x. once (is_ready x && i)) (status_cases s h)
    pick s false i h = refl

pub thread_exit-IsKernel :
    (k : Kernel) (w : ℕ → Option ℕ)
    → IsKernel k w
    → k.intr_context ≡ false
    → Returns
        (λ k'.
          IsKernel k' w
          × Kept (set_status (record k { destruction_req = [] }) k.current thread_dying) k')
        (thread_exit k)
unfolding thread_exit do_schedule
thread_exit-IsKernel k w v out =
    subst (Returns (λ k'. IsKernel k' w × Kept stopped k'))
      (sym (
        ap (λ b. assert (not b) >> do_schedule thread_dying k) out
        ∙ ap
            (λ m. m >>= λ cur.
              schedule (set_status (record k { destruction_req = [] }) cur thread_dying))
            (thread_current_lem k (current_running k w v))))
      (schedule-IsKernel stopped w (dying-Stopped k w v))
  where
    stopped : Kernel
    stopped = set_status (record k { destruction_req = [] }) k.current thread_dying

-- The caller's new priority.
unfoldable pub prioritised : ℕ → Kernel → Kernel
prioritised new k = set_thread k k.current (record (k.threads k.current) {
  original_priority = new;
  priority = effective new (k.threads k.current).donations;
})

-- Outside interrupts `thread_set_priority` keeps the kernel well-formed and leaves a thread running
-- that no ready thread has a higher priority than.
pub thread_set_priority-Settled :
    (new : ℕ) (k : Kernel) (w : ℕ → Option ℕ)
    → IsKernel k w
    → k.intr_context ≡ false
    → Returns (Settled (prioritised new k) w) (thread_set_priority new k)
unfolding thread_set_priority prioritised
thread_set_priority-Settled new k w v out = rw (thread_current_lem k (current_running k w v)) (
    compare_cur_next_priority-Settled (prioritised new k) w
      (set_thread-IsKernel k w k.current
        (record (k.threads k.current) {
          original_priority = new;
          priority = effective new (k.threads k.current).donations;
        })
        refl v)
      out)
