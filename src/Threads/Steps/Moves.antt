-- ===== src/Threads/Steps/Moves.antt =====
-- threads/thread.c and threads/synch.c: what the parts of the operations keep of the kernel.
use pintos_filesys.Base.{
  ℕ, zero, suc, ◌≡◌, ◌≢◌, refl, arith, ap, sym, ◌∙◌, Bool, true, false, not, ◌&&◌, ◌==◌, Option,
  none, some, Outcome, ok, panic, once, count, subst, inl, inr, Bool-cases, Returns, Returns-mono,
  assert, ◌>>◌, stable_sort, List,
}
use mathlib.Core.Bool.{false≢true}
use pintos_filesys.Threads.{
  Thread, Donation, Kernel, Semaphore, status_of, is_blocked, set_status, enqueue, thread_ready,
  set_thread, thread_unblock,
}
use pintos_filesys.Threads.Synch.{
  donation_order, sema_down, sema_try_down, try_value, down_round, donate_round, lock_taken,
  set_holder, remove_donation_for_lock, recalculated, recalc_priority, other_donations,
}
use pintos_filesys.Threads.Shape.{is_on, is_some, IsKernel, Kept}
use pintos_filesys.Threads.Scheduling.{current_running, thread_current_lem}
use pintos_filesys.Threads.Queueing.{Loose, Unblocked, thread_unblock-Unblocked}
use pintos_filesys.Threads.Waking.{not_ready}
use pintos_filesys.Threads.Donations.{Donated, donate_round-Donated}
use pintos_filesys.Threads.Acquire.{set_holder-IsKernel}
use pintos_filesys.Threads.Release.{recalculated-status}
use pintos_filesys.Threads.Locks.{set_thread-IsKernel, Donated-IsKernel}

-- What a call that has returned has returned.
pub returned : {A : Type 0} (P : A → Type 0) (m : Outcome A) (a : A) → Returns P m → m ≡ ok a → P a
returned P m a h e = subst (Returns P) e h

-- No lock has changed, and the lists are right.
pub record Calm (k : Kernel) (w : ℕ → Option ℕ) (k' : Kernel) : Type 0 where
  pub kernel : IsKernel k' w
  pub value : (l : ℕ) → (k'.semas l).value ≡ (k.semas l).value
  pub holders : k'.holders ≡ k.holders
  pub context : k'.intr_context ≡ k.intr_context

pub Kept-Calm :
    (k : Kernel) (w : ℕ → Option ℕ) (k' : Kernel) → IsKernel k' w → Kept k k' → Calm k w k'
Kept-Calm k w k' v kept = record {
  kernel = v;
  value = λ l. ap (λ (s : ℕ → Semaphore). (s l).value) kept.semas;
  holders = kept.holders;
  context = kept.intr_context;
}

pub set_thread-Calm :
    (k : Kernel) (w : ℕ → Option ℕ) (t : ℕ) (x : Thread)
    → x.status ≡ status_of k t
    → IsKernel k w
    → Calm k w (set_thread k t x)
set_thread-Calm k w t x same v = record {
  kernel = set_thread-IsKernel k w t x same v;
  value = λ l. refl;
  holders = refl;
  context = refl;
}

-- A step of `lock_acquire` and two of `lock_release`.
pub donate_round-Calm :
    (k : Kernel) (w : ℕ → Option ℕ) (l : ℕ)
    → IsKernel k w
    → Returns (Calm k w) (donate_round (k.holders l) (λ next k1. ok k1) true k.current l k)
donate_round-Calm k w l v =
    Returns-mono (Donated k) (Calm k w) _ (donate_round-Donated k l (current_running k w v)) λ k' d.
      record {
        kernel = Donated-IsKernel k k' w d v;
        value = d.value;
        holders = d.holders;
        context = d.intr_context;
      }

pub remove_donation_for_lock-Calm :
    (k : Kernel) (w : ℕ → Option ℕ) (l : ℕ)
    → IsKernel k w
    → Returns (Calm k w) (remove_donation_for_lock l k)
unfolding remove_donation_for_lock
remove_donation_for_lock-Calm k w l v = rw (thread_current_lem k (current_running k w v)) (
    set_thread-Calm k w k.current
      (record (k.threads k.current) {
        donations = other_donations l (k.threads k.current).donations;
      })
      refl v)

pub recalc_priority-Calm :
    (k : Kernel) (w : ℕ → Option ℕ) → IsKernel k w → Returns (Calm k w) (recalc_priority k)
unfolding recalc_priority
recalc_priority-Calm k w v = rw (thread_current_lem k (current_running k w v)) (
    set_thread-Calm k w k.current (recalculated (k.threads k.current) sorted)
      (recalculated-status (k.threads k.current) sorted) v)
  where
    sorted : List Donation
    sorted = stable_sort donation_order (k.threads k.current).donations

-- `sema_try_down` gets the semaphore where `sema_down` does not wait.
pub sema_try_down-sema_down :
    (k k' : Kernel) (s : ℕ)
    → k.intr_context ≡ false
    → sema_try_down s k ≡ (true, k')
    → sema_down s k ≡ ok (true, k')
unfolding sema_try_down sema_down try_value down_round
sema_try_down-sema_down k k' s out e =
    ap (λ b. assert (not b) >> down_round (k.semas s).value s k) out ∙ go (k.semas s).value e
  where
    go : (n : ℕ) → try_value n s k ≡ (true, k') → down_round n s k ≡ ok (true, k')
    go zero e = absurd (false≢true (ap (λ r. r.0) e))
    go (suc n) e = ap ok e

-- A thread that waits for no semaphore.
unwaited : (o : Option ℕ) → ((s : ℕ) → once (is_on s o) ≡ 0) → is_some o ≡ false
unwaited none h = refl
unwaited (some s) h = absurd (ground (arith, h s))

-- A blocked thread that waits for no semaphore becomes ready.
pub thread_unblock-Calm :
    (k k' : Kernel) (w : ℕ → Option ℕ) (t : ℕ)
    → IsKernel k w
    → t ≢ k.idle_thread
    → ((s : ℕ) → count t (k.semas s).waiters ≡ 0)
    → thread_unblock t k ≡ ok k'
    → Calm k w k'
unfolding thread_unblock
thread_unblock-Calm k k' w t v busy none_has e = elim (Bool-cases (is_blocked (status_of k t))) [
  | inl sleeps ↦
      let u =
        returned (Unblocked t k w) (thread_unblock t k) k'
          (thread_unblock-Unblocked k w t (loose sleeps) sleeps v.one) e in
      Kept-Calm k w k' u.kernel u.kept
  | inr awake ↦ absurd (
      panic≢ok (sym (ap (λ b. assert b >> ok (set_status (enqueue t k) t thread_ready)) awake) ∙ e))
]
  where
    panic≢ok : panic ≡ ok k' → ⊥
    panic≢ok h = cc

    not_on : is_some (w t) ≡ false
    not_on = unwaited (w t) λ s. sym (v.queued.waiting s t) ∙ none_has s

    loose : is_blocked (status_of k t) ≡ true → Loose k w t
    loose sleeps = record {
      out =
          v.queued.ready t
          ∙ ap (λ b. once (b && not (t == k.idle_thread))) (not_ready (status_of k t) sleeps);
      ready = λ a ne. v.queued.ready a;
      waiting = v.queued.waiting;
      asleep = v.queued.asleep;
      idle = v.queued.idle;
      awake = not_on;
      not_idle = busy;
    }

-- The current thread is written down as the holder.
pub record Held (l : ℕ) (k : Kernel) (w : ℕ → Option ℕ) (r : Bool × Kernel) : Type 0 where
  pub kernel : IsKernel r.1 w
  pub semas : r.1.semas ≡ k.semas
  pub holders : r.1.holders ≡ (set_holder k l (some k.current)).holders
  pub context : r.1.intr_context ≡ k.intr_context

-- What follows `sema_down` in `lock_acquire`.
pub lock_taken-Held :
    (k : Kernel) (w : ℕ → Option ℕ) (l : ℕ) → IsKernel k w → Returns (Held l k w) (lock_taken l k)
unfolding lock_taken
lock_taken-Held k w l v = rw (thread_current_lem k (current_running k w v)) (record {
  kernel =
      set_holder-IsKernel (set_thread k k.current x) w l (some k.current)
        (set_thread-IsKernel k w k.current x refl v);
  semas = refl;
  holders = refl;
  context = refl;
})
  where
    x : Thread
    x = record (k.threads k.current) { pending_lock = none }
