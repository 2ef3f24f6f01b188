-- ===== src/Threads/Yielding.antt =====
-- threads/thread.c, `thread_yield` on well-formed kernels.
use pintos_filesys.Base.{
  ℕ, ◌≡◌, refl, arith, ap, sym, ◌∙◌, Bool, true, false, not, ◌&&◌, Option, [], if◌then◌else◌, ◌==◌,
  once, ℕ_discrete, assert, ◌>>◌, ◌>>=◌, subst, Returns, Returns-mono, Outcome, ok, ne→not_==,
}
use mathlib.Core.Bool.{false≢true}
use pintos_filesys.Threads.{
  Status, thread_ready, is_running, is_ready, Kernel, status_of, set_status, schedule,
  thread_current, thread_yield, do_schedule, enqueue,
}
use pintos_filesys.Threads.Shape.{
  is_some, Queued, IsKernel, Stopped, Kept, Kept-trans, set_status-status, set_status-priority,
  set_status-donations,
}
use pintos_filesys.Threads.Scheduling.{
  schedule-IsKernel, current_running, stop_pick, thread_current_lem,
}
use pintos_filesys.Threads.Queueing.{enqueued-Queued, current-Loose, Queued-reqs}

-- The idle thread has no place in the ready list.
idle-Queued :
    (k : Kernel) (w : ℕ → Option ℕ)
    → Queued k w
    → Queued (set_status k k.idle_thread thread_ready) w
idle-Queued k w v = record {
  ready = λ x.
      v.ready x
      ∙ rw (set_status-status k k.idle_thread x thread_ready)
          (pick (status_of k x) (x == k.idle_thread));
  waiting = v.waiting;
  asleep = λ x h.
      rw (set_status-status k k.idle_thread x thread_ready) (elim (ℕ_discrete x k.idle_thread) [
        | yes same ↦ absurd (false≢true (sym v.idle ∙ ap (λ a. is_some (w a)) (sym same) ∙ h))
        | no other ↦ rw (ne→not_== x k.idle_thread other) (v.asleep x h)
      ]);
  idle = v.idle;
}
  where
    pick :
        (s : Status) (b : Bool)
        → once (is_ready s && not b) ≡ once (is_ready (if b then thread_ready else s) && not b)
    pick s true = ground arith
    pick s false = refl

-- The kernel that `thread_yield` calls `schedule` on.
abbrev pub yielded : (idle : Bool) → Kernel → Kernel
yielded idle k =
    set_status (record (if idle then k else enqueue k.current k) { destruction_req = [] }) k.current
      thread_ready

yielded-Queued :
    (idle : Bool) (k : Kernel) (w : ℕ → Option ℕ)
    → IsKernel k w
    → (k.current == k.idle_thread) ≡ idle
    → Queued (yielded idle k) w
yielded-Queued true k w v e =
    let same : k.current ≡ k.idle_thread = ground (arith, e) in
    subst (λ i. Queued (record (set_status k i thread_ready) { destruction_req = [] }) w) (sym same)
      (Queued-reqs (set_status k k.idle_thread thread_ready) w [] (idle-Queued k w v.queued))
yielded-Queued false k w v e =
    Queued-reqs (set_status (enqueue k.current k) k.current thread_ready) w []
      (enqueued-Queued k w k.current (current-Loose k w v λ same. ground (arith, e, same)))

pub yielded-Kept : (idle : Bool) (k : Kernel) → Kept k (yielded idle k)
yielded-Kept true k = record {
  priority = λ x. set_status-priority k k.current x thread_ready;
  donations = λ x. set_status-donations k k.current x thread_ready;
  semas = refl;
  holders = refl;
  idle_thread = refl;
  intr_context = refl;
}
yielded-Kept false k = record {
  priority = λ x. set_status-priority k k.current x thread_ready;
  donations = λ x. set_status-donations k k.current x thread_ready;
  semas = refl;
  holders = refl;
  idle_thread = refl;
  intr_context = refl;
}

pub yielded-Stopped :
    (idle : Bool) (k : Kernel) (w : ℕ → Option ℕ)
    → IsKernel k w
    → (k.current == k.idle_thread) ≡ idle
    → Stopped (yielded idle k) w
yielded-Stopped idle k w v e = record {
  queued = yielded-Queued idle k w v e;
  all = λ t. stopped idle t;
}
  where
    stopped : (b : Bool) (t : ℕ) → is_running (status_of (yielded b k) t) ≡ false
    stopped true t =
        rw (set_status-status k k.current t thread_ready)
          (stop_pick (status_of k t) thread_ready (t == k.current) (v.one t) refl)
    stopped false t =
        rw (set_status-status k k.current t thread_ready)
          (stop_pick (status_of k t) thread_ready (t == k.current) (v.one t) refl)

pub thread_yield-schedule :
    (k : Kernel)
    → k.intr_context ≡ false
    → is_running (status_of k k.current) ≡ true
    → thread_yield k ≡ schedule (yielded (k.current == k.idle_thread) k)
unfolding thread_yield do_schedule
thread_yield-schedule k out run =
    ap (λ m. m >>= λ cur. assert (not k.intr_context) >> go cur) (thread_current_lem k run)
    ∙ ap (λ b. assert (not b) >> go k.current) out
    ∙ ap
        (λ m.
          m >>= λ cur. schedule (set_status (record q { destruction_req = [] }) cur thread_ready))
        (still (k.current == k.idle_thread))
  where
    q : Kernel
    q = if k.current == k.idle_thread then k else enqueue k.current k

    go : ℕ → Outcome Kernel
    go cur = do_schedule thread_ready (if cur == k.idle_thread then k else enqueue cur k)

    still : (b : Bool) → thread_current (if b then k else enqueue k.current k) ≡ ok k.current
    still true = thread_current_lem k run
    still false = thread_current_lem (enqueue k.current k) run

-- `thread_yield` gives the CPU to the first ready thread, which may be the caller.
pub thread_yield-IsKernel :
    (k : Kernel) (w : ℕ → Option ℕ)
    → IsKernel k w
    → k.intr_context ≡ false
    → Returns (λ k'. IsKernel k' w × Kept k k') (thread_yield k)
thread_yield-IsKernel k w v out =
    let idle = k.current == k.idle_thread in
    subst (Returns (λ k'. IsKernel k' w × Kept k k'))
      (sym (thread_yield-schedule k out (current_running k w v)))
      (Returns-mono _ (λ k'. IsKernel k' w × Kept k k') _
        (schedule-IsKernel (yielded idle k) w (yielded-Stopped idle k w v refl))
        λ k' (v', kept). (v', Kept-trans k _ k' (yielded-Kept idle k) kept))
