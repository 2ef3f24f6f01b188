-- ===== src/Threads/Locks.antt =====
-- threads/synch.c, what `lock_acquire` does for a lock before it waits for it.
use pintos_filesys.Base.{
  ℕ, ◌+◌, ◌≡◌, refl, ap, sym, ◌∙◌, true, not, ◌&&◌, Option, none, some, ◌==◌, count, once, subst,
  Returns, Returns-mono,
}
use pintos_filesys.Threads.{
  is_running, is_ready, is_blocked, Thread, Kernel, status_of, priority_of, set_thread,
}
use pintos_filesys.Threads.Synch.{donate_for, donate_loop, lock_donate}
use pintos_filesys.Threads.Shape.{is_some, IsKernel, Kept-refl}
use pintos_filesys.Threads.Apart.{Apart, Kept-Apart}
use pintos_filesys.Threads.Scheduling.{current_running, thread_current_lem}
use pintos_filesys.Threads.Donations.{
  Donated, Outranks, chain_ends, kept_field, donate_loop-Outranks,
}

-- The semaphore of a lock has the value 1 while nobody holds it, and 0 while somebody does.
unfoldable pub IsLock : ℕ → Kernel → Type 0
IsLock l k = (k.semas l).value + once (is_some (k.holders l)) ≡ 1

-- A change of a thread that keeps its status.
pub set_thread-IsKernel :
    (k : Kernel) (w : ℕ → Option ℕ) (t : ℕ) (x : Thread)
    → x.status ≡ status_of k t
    → IsKernel k w
    → IsKernel (set_thread k t x) w
set_thread-IsKernel k w t x same v = record {
  queued = record {
    ready = λ a.
        v.queued.ready a ∙ sym (ap (λ st. once (is_ready st && not (a == k.idle_thread))) (kept a));
    waiting = v.queued.waiting;
    asleep = λ a h. ap is_blocked (kept a) ∙ v.queued.asleep a h;
    idle = v.queued.idle;
  };
  one = λ a. ap is_running (kept a) ∙ v.one a;
}
  where
    kept : (a : ℕ) → status_of (set_thread k t x) a ≡ status_of k a
    kept = kept_field k t x (λ y. y.status) same

pub Donated-IsKernel :
    (k k' : Kernel) (w : ℕ → Option ℕ) → Donated k k' → IsKernel k w → IsKernel k' w
Donated-IsKernel k k' w d v = record {
  queued = record {
    ready = λ a.
        ap (count a) d.ready_list ∙ v.queued.ready a ∙ sym (rw (d.status a, d.idle_thread) refl);
    waiting = λ s a. d.waiters s a ∙ v.queued.waiting s a;
    asleep = λ a h. ap is_blocked (d.status a) ∙ v.queued.asleep a h;
    idle = ap (λ i. is_some (w i)) d.idle_thread ∙ v.queued.idle;
  };
  one = λ a. ap is_running (d.status a) ∙ v.one a ∙ sym (ap (λ c. a == c) d.current);
}

-- The current thread waits for the lock.
abbrev pub pending : ℕ → Kernel → Kernel
pending l k = set_thread k k.current (record (k.threads k.current) { pending_lock = some l })

-- What the donations of the priority `p` for a lock leave.
pub record Promised (l p : ℕ) (k : Kernel) (w : ℕ → Option ℕ) (k' : Kernel) : Type 0 where
  pub kernel : IsKernel k' w
  pub current : k'.current ≡ k.current
  pub idle_thread : k'.idle_thread ≡ k.idle_thread
  pub intr_context : k'.intr_context ≡ k.intr_context
  pub holders : k'.holders ≡ k.holders
  pub value : (k'.semas l).value ≡ (k.semas l).value
  pub apart : Apart l k k'
  pub outranks : Outranks (k.holders l) p k'

pub lock_donate-Promised :
    (n l : ℕ) (k : Kernel) (w : ℕ → Option ℕ)
    → IsKernel k w
    → chain_ends n (some l) (pending l k) ≡ true
    → Returns (Promised l (priority_of k k.current) k w) (lock_donate n true l k)
unfolding lock_donate donate_for
lock_donate-Promised n l k w v ends =
    rw (thread_current_lem k (current_running k w v)) (go (k.holders l) refl)
  where
    k1 : Kernel
    k1 = pending l k

    v1 : IsKernel k1 w
    v1 =
        set_thread-IsKernel k w k.current (record (k.threads k.current) { pending_lock = some l })
          refl v

    same : (t : ℕ) → priority_of k1 t ≡ priority_of k t
    same =
        kept_field k k.current (record (k.threads k.current) { pending_lock = some l })
          (λ y. y.priority) refl

    promise :
        (k' : Kernel)
        → Donated k1 k' × Outranks (k1.holders l) (priority_of k1 k1.current) k'
        → Promised l (priority_of k k.current) k w k'
    promise k' (d, o) = record {
      kernel = Donated-IsKernel k1 k' w d v1;
      current = d.current;
      idle_thread = d.idle_thread;
      intr_context = d.intr_context;
      holders = d.holders;
      value = d.value l;
      apart = record {
        value = λ s ne. d.value s;
        holder = λ s ne. ap (λ (m : ℕ → Option ℕ). m s) d.holders;
        context = d.intr_context;
      };
      outranks = subst (λ p. Outranks (k.holders l) p k') (same k.current) o;
    }

    go :
        (hd : Option ℕ)
        → k.holders l ≡ hd
        → Returns (Promised l (priority_of k k.current) k w) (donate_for hd n true k.current l k)
    go none e = record {
      kernel = v;
      current = refl;
      idle_thread = refl;
      intr_context = refl;
      holders = refl;
      value = refl;
      apart = Kept-Apart l k k (Kept-refl k);
      outranks = rw e tt;
    }
    go (some h) e =
        Returns-mono _ (Promised l (priority_of k k.current) k w)
          (donate_loop n true k.current (some l) k1)
          (donate_loop-Outranks n l k1 (current_running k1 w v1) ends) λ k' r. promise k' r
