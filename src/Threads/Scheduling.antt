-- ===== src/Threads/Scheduling.antt =====
-- threads/thread.c: the operations of the scheduler on well-formed states.
use pintos_filesys.Base.{
  ℕ, ◌≡◌, refl, arith, ap, sym, ◌∙◌, Bool, true, false, not, ◌&&◌, Option, List, [], ◌∷◌,
  if◌then◌else◌, ◌==◌, count, once, Bool-cases, inl, inr, ℕ_discrete, assert, ◌>>◌, ◌>>=◌, subst,
  Returns, Returns-mono, ok, ne→not_==, ==_refl, eq→==, ◌≢◌,
}
use mathlib.Core.Bool.{false≢true}
use pintos_filesys.Threads.{
  Semaphore, Status, thread_running, thread_ready, thread_blocked, thread_dying, is_running,
  is_ready, is_blocked, Kernel, status_of, switch_to, set_status, schedule, next_thread_to_run,
  thread_current, thread_block,
}
use pintos_filesys.Threads.Shape.{
  is_on, is_some, IsKernel, Stopped, Kept, Kept-trans, Switched, switch_to-Switched,
  set_status-status, set_status-Kept,
}

ready_pick :
    (s : Status) (i b : Bool)
    → once (is_ready s && i && not b) ≡ once (is_ready (if b then thread_running else s) && i)
ready_pick s i true = ground arith
ready_pick s true false = ground arith
ready_pick s false false = ground arith

one_pick :
    (s : Status) (b : Bool)
    → is_running s ≡ false
    → is_running (if b then thread_running else s) ≡ b
one_pick s true h = refl
one_pick s false h = h

-- The CPU goes to a thread that waits for nothing and that the ready list no longer has.
switch_to-IsKernel :
    (k : Kernel) (w : ℕ → Option ℕ) (next : ℕ)
    → ((t : ℕ)
        → count t k.ready_list
          ≡ once (is_ready (status_of k t) && not (t == k.idle_thread) && not (t == next)))
    → ((s t : ℕ) → count t (k.semas s).waiters ≡ once (is_on s (w t)))
    → ((t : ℕ) → is_some (w t) ≡ true → is_blocked (status_of k t) ≡ true)
    → is_some (w k.idle_thread) ≡ false
    → is_some (w next) ≡ false
    → ((t : ℕ) → is_running (status_of k t) ≡ false)
    → IsKernel (switch_to next k) w
switch_to-IsKernel k w next queue waiting asleep idle free stopped = record {
  queued = record {
    ready = λ t.
        rw (z.ready_list, z.status t, z.kept.idle_thread)
          (queue t ∙ ready_pick (status_of k t) (not (t == k.idle_thread)) (t == next));
    waiting = λ s t. ap (λ (m : ℕ → Semaphore). count t (m s).waiters) z.kept.semas ∙ waiting s t;
    asleep = λ t h. rw (z.status t) (asleep_pick t h);
    idle = ap (λ i. is_some (w i)) z.kept.idle_thread ∙ idle;
  };
  one = λ t. rw (z.status t, z.current) (one_pick (status_of k t) (t == next) (stopped t));
}
  where
    z : Switched next k (switch_to next k)
    z = switch_to-Switched next k

    asleep_pick :
        (t : ℕ)
        → is_some (w t) ≡ true
        → is_blocked (if t == next then thread_running else status_of k t) ≡ true
    asleep_pick t h = elim (ℕ_discrete t next) [
      | yes same ↦ absurd (false≢true (sym free ∙ ap (λ a. is_some (w a)) (sym same) ∙ h))
      | no other ↦ rw (ne→not_== t next other) (asleep t h)
    ]

pub not_both : (s : Status) → is_blocked s ≡ true → is_ready s ≡ true → ⊥
not_both thread_running b r = false≢true b
not_both thread_ready b r = false≢true b
not_both thread_blocked b r = false≢true r
not_both thread_dying b r = false≢true b

Kept-queue :
    (k l : Kernel) (a b : List ℕ)
    → Kept (record k { ready_list = b }) l
    → Kept (record k { ready_list = a }) l
Kept-queue k l a b w = record {
  priority = w.priority;
  donations = w.donations;
  semas = w.semas;
  holders = w.holders;
  idle_thread = w.idle_thread;
  intr_context = w.intr_context;
}

-- A scheduling that starts with no running thread gives the CPU to one.
pub schedule-IsKernel :
    (k : Kernel) (w : ℕ → Option ℕ)
    → Stopped k w
    → Returns (λ k'. IsKernel k' w × Kept k k') (schedule k)
unfolding schedule next_thread_to_run count
schedule-IsKernel k w s = go k.ready_list refl
  where
    awake : (t : ℕ) (ts : List ℕ) → k.ready_list ≡ t ∷ ts → is_some (w t) ≡ false
    awake t ts e = elim (Bool-cases (is_some (w t))) [
      | inl on ↦ absurd (
          not_both (status_of k t) (s.queued.asleep t on)
            (ground (arith, ap (count t) e, s.queued.ready t)))
      | inr off ↦ off
    ]

    go : (l : List ℕ) → k.ready_list ≡ l → Returns (λ k'. IsKernel k' w × Kept k k') (schedule k)
    go [] e =
        rw (schedule, e, s.all k.current)
          (
            switch_to-IsKernel (record k { ready_list = [] }) w k.idle_thread
                (λ x. ground (arith, ap (count x) e, s.queued.ready x)) s.queued.waiting
                s.queued.asleep s.queued.idle s.queued.idle s.all,
            Kept-queue k _ [] []
                (switch_to-Switched k.idle_thread (record k { ready_list = [] })).kept,
          )
    go (t ∷ ts) e =
        rw (schedule, e, s.all k.current)
          (
            switch_to-IsKernel (record k { ready_list = ts }) w t
                (λ x. ground (arith, ap (count x) e, s.queued.ready x)) s.queued.waiting
                s.queued.asleep s.queued.idle (awake t ts e) s.all,
            Kept-queue k _ (t ∷ ts) ts (switch_to-Switched t (record k { ready_list = ts })).kept,
          )

pub current_running :
    (k : Kernel) (w : ℕ → Option ℕ) → IsKernel k w → is_running (status_of k k.current) ≡ true
current_running k w v = v.one k.current ∙ ==_refl k.current

-- The running thread stops, with a new status and a place in the ready list if it is to have one.
pub stop_pick :
    (s new : Status) (b : Bool)
    → is_running s ≡ b
    → is_running new ≡ false
    → is_running (if b then new else s) ≡ false
stop_pick s new true h n = n
stop_pick s new false h n = h

pub status_cases : (s : Status) → is_running s ≡ true → s ≡ thread_running
status_cases thread_running h = refl
status_cases thread_ready h = absurd (false≢true h)
status_cases thread_blocked h = absurd (false≢true h)
status_cases thread_dying h = absurd (false≢true h)

-- What holds of a kernel whose current thread may wait already, but runs.
pub record Waits (k : Kernel) (w : ℕ → Option ℕ) : Type 0 where
  pub ready :
      (t : ℕ) → count t k.ready_list ≡ once (is_ready (status_of k t) && not (t == k.idle_thread))
  pub waiting : (s t : ℕ) → count t (k.semas s).waiters ≡ once (is_on s (w t))
  pub asleep : (t : ℕ) → t ≢ k.current → is_some (w t) ≡ true → is_blocked (status_of k t) ≡ true
  pub idle : is_some (w k.idle_thread) ≡ false
  pub one : (t : ℕ) → is_running (status_of k t) ≡ (t == k.current)

blocked-Stopped :
    (k : Kernel) (w : ℕ → Option ℕ) → Waits k w → Stopped (set_status k k.current thread_blocked) w
blocked-Stopped k w v = record {
  queued = record {
    ready = λ t.
        v.ready t
        ∙ rw (set_status-status k k.current t thread_blocked)
            (pick (status_of k t) (t == k.current) (not (t == k.idle_thread)) (v.one t));
    waiting = v.waiting;
    asleep = λ t h.
        rw (set_status-status k k.current t thread_blocked) (elim (ℕ_discrete t k.current) [
          | yes same ↦ rw (eq→== t k.current same) refl
          | no other ↦ rw (ne→not_== t k.current other) (v.asleep t other h)
        ]);
    idle = v.idle;
  };
  all = λ t.
      rw (set_status-status k k.current t thread_blocked)
        (stop_pick (status_of k t) thread_blocked (t == k.current) (v.one t) refl);
}
  where
    pick :
        (s : Status) (b i : Bool)
        → is_running s ≡ b
        → once (is_ready s && i) ≡ once (is_ready (if b then thread_blocked else s) && i)
    pick s true i h = ap (λ x. once (is_ready x && i)) (status_cases s h)
    pick s false i h = refl

pub thread_current_lem :
    (k : Kernel) → is_running (status_of k k.current) ≡ true → thread_current k ≡ ok k.current
unfolding thread_current
thread_current_lem k h = ap (λ b. assert b >> ok k.current) h

thread_block-schedule :
    (k : Kernel)
    → k.intr_context ≡ false
    → is_running (status_of k k.current) ≡ true
    → thread_block k ≡ schedule (set_status k k.current thread_blocked)
unfolding thread_block
thread_block-schedule k out run =
    ap
      (λ b.
        assert (not b) >> (thread_current k >>= λ cur. schedule (set_status k cur thread_blocked)))
      out
    ∙ ap (λ m. m >>= λ cur. schedule (set_status k cur thread_blocked)) (thread_current_lem k run)

-- `thread_block` gives the CPU to another thread.
pub thread_block-IsKernel :
    (k : Kernel) (w : ℕ → Option ℕ)
    → Waits k w
    → k.intr_context ≡ false
    → Returns (λ k'. IsKernel k' w × Kept k k') (thread_block k)
thread_block-IsKernel k w v out =
    subst (Returns (λ k'. IsKernel k' w × Kept k k'))
      (sym (thread_block-schedule k out (v.one k.current ∙ ==_refl k.current)))
      (Returns-mono _ (λ k'. IsKernel k' w × Kept k k') _
        (schedule-IsKernel (set_status k k.current thread_blocked) w (blocked-Stopped k w v))
        λ k' (v', kept). (v', Kept-trans k _ k' (set_status-Kept k k.current thread_blocked) kept))
