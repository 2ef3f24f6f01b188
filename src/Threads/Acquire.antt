-- ===== src/Threads/Acquire.antt =====
-- threads/synch.c, a call of `lock_acquire` that is not interrupted: who waits for the lock has given
-- its priority to the holder.
use pintos_filesys.Base.{
  ℕ, suc, ◌≡◌, ◌≢◌, refl, arith, ap, sym, ◌∙◌, Bool, true, false, not, Option, none, some,
  if◌then◌else◌, once, assert, ◌>>◌, ◌>>=◌, subst, Returns, Returns-bind, Outcome, ok, ==_refl,
}
use pintos_filesys.Threads.{Kernel, priority_of, set_thread}
use pintos_filesys.Threads.Synch.{
  set_holder, is_thread, lock_donate, sema_down, lock_take, lock_taken, lock_acquire,
  lock_held_by_current_thread,
}
use pintos_filesys.Threads.Shape.{is_some, IsKernel, Kept-refl}
use pintos_filesys.Threads.Apart.{Apart, Apart-trans, Kept-Apart, set_holder-Apart}
use pintos_filesys.Threads.Scheduling.{current_running, thread_current_lem}
use pintos_filesys.Threads.Waiting.{waits, Taken, Asleep, Downed, sema_down-Downed}
use pintos_filesys.Threads.Donations.{Outranks, chain_ends}
use pintos_filesys.Threads.Locks.{set_thread-IsKernel, pending, Promised, lock_donate-Promised}

-- The caller has taken the value of the semaphore down and holds the lock.
pub record Acquired (l : ℕ) (k : Kernel) (w : ℕ → Option ℕ) (k' : Kernel) : Type 0 where
  pub kernel : IsKernel k' w
  pub value : (k.semas l).value ≡ suc (k'.semas l).value
  pub current : k'.current ≡ k.current
  pub after : k'.holders l ≡ some k.current
  pub apart : Apart l k k'

-- The value is 0, the caller waits for the lock, who holds it has at least the priority `p`, and
-- another thread runs.
pub record Refused (l p : ℕ) (k : Kernel) (w : ℕ → Option ℕ) (k' : Kernel) : Type 0 where
  pub kernel : IsKernel k' (waits w k.current (some l))
  pub value : (k.semas l).value ≡ 0
  pub still : (k'.semas l).value ≡ 0
  pub holder : Outranks (k.holders l) p k'
  pub holders : k'.holders ≡ k.holders
  pub apart : Apart l k k'

abbrev pub Acquires : (l p : ℕ) → Kernel → (ℕ → Option ℕ) → Bool × Kernel → Type 0
Acquires l p k w (true, k') = Acquired l k w k'
Acquires l p k w (false, k') = Refused l p k w k'

pub unheld : (o : Option ℕ) → once (is_some o) ≡ 0 → o ≡ none
unheld none h = refl
unheld (some x) h = absurd (omega (arith, h))

pub holder_set : (k : Kernel) (l : ℕ) (o : Option ℕ) → (set_holder k l o).holders l ≡ o
holder_set k l o = rw (==_refl l) refl

pub set_holder-IsKernel :
    (k : Kernel) (w : ℕ → Option ℕ) (l : ℕ) (o : Option ℕ)
    → IsKernel k w
    → IsKernel (set_holder k l o) w
set_holder-IsKernel k w l o v = record {
  queued = record {
    ready = v.queued.ready;
    waiting = v.queued.waiting;
    asleep = v.queued.asleep;
    idle = v.queued.idle;
  };
  one = v.one;
}

Taken-Acquired :
    (l b : ℕ) (k k1 k2 : Kernel) (w : ℕ → Option ℕ)
    → Promised l b k w k1
    → Taken l k1 w k2
    → Returns (Acquires l b k w) (lock_taken l k2)
unfolding lock_taken
Taken-Acquired l b k k1 k2 w p t =
    rw (thread_current_lem k2 (current_running k2 w t.kernel)) (record {
      kernel = set_holder-IsKernel freed w l (some k2.current) (
          set_thread-IsKernel k2 w k2.current
            (record (k2.threads k2.current) { pending_lock = none }) refl t.kernel);
      value = sym p.value ∙ t.value;
      current = t.current ∙ p.current;
      after = holder_set freed l (some k2.current) ∙ ap some (t.current ∙ p.current);
      apart = Apart-trans l k k1 _ p.apart (
          Apart-trans l k1 k2 _ t.apart (record {
            value = λ s ne. refl;
            holder = (set_holder-Apart l freed (some k2.current)).holder;
            context = refl;
          }));
    })
  where
    freed : Kernel
    freed = set_thread k2 k2.current (record (k2.threads k2.current) { pending_lock = none })

Outranks-same :
    (o : Option ℕ) (p : ℕ) (k k' : Kernel)
    → ((t : ℕ) → priority_of k' t ≡ priority_of k t)
    → Outranks o p k
    → Outranks o p k'
Outranks-same none p k k' same h = tt
Outranks-same (some t) p k k' same h = omega (arith, same t, h)

Asleep-Refused :
    (l b : ℕ) (k k1 k2 : Kernel) (w : ℕ → Option ℕ)
    → Promised l b k w k1
    → Asleep l k1 w k2
    → Refused l b k w k2
Asleep-Refused l b k k1 k2 w p a = record {
  kernel = subst (λ c. IsKernel k2 (waits w c (some l))) p.current a.kernel;
  value = sym p.value ∙ a.value;
  still = a.still;
  holder = Outranks-same (k.holders l) b k1 k2 a.priority p.outranks;
  holders = a.holders ∙ p.holders;
  apart = Apart-trans l k k1 k2 p.apart a.apart;
}

lock_take-Acquires :
    (l b : ℕ) (k k1 : Kernel) (w : ℕ → Option ℕ)
    → Promised l b k w k1
    → k.intr_context ≡ false
    → k.current ≢ k.idle_thread
    → Returns (Acquires l b k w) (lock_take l k1)
unfolding lock_take
lock_take-Acquires l b k k1 w p out other =
    Returns-bind (Downed l k1 w) (Acquires l b k w) (sema_down l k1)
      (λ (got, k2). if got then lock_taken l k2 else ok (false, k2))
      (sema_down-Downed k1 w l p.kernel (p.intr_context ∙ out)
        λ e. other (sym p.current ∙ e ∙ p.idle_thread))
      result
  where
    result :
        (r : Bool × Kernel)
        → Downed l k1 w r
        → Returns (Acquires l b k w) (if r.0 then lock_taken l r.1 else ok (false, r.1))
    result (true, k2) t = Taken-Acquired l b k k1 k2 w p t
    result (false, k2) a = Asleep-Refused l b k k1 k2 w p a

-- When the thread runs again it tries again, and has promised nothing in between.
pub lock_take-again :
    (l : ℕ) (k : Kernel) (w : ℕ → Option ℕ)
    → IsKernel k w
    → k.intr_context ≡ false
    → k.current ≢ k.idle_thread
    → Returns (Acquires l 0 k w) (lock_take l k)
lock_take-again l k w v out other =
    lock_take-Acquires l 0 k k w
      (record {
        kernel = v;
        current = refl;
        idle_thread = refl;
        intr_context = refl;
        holders = refl;
        value = refl;
        apart = Kept-Apart l k k (Kept-refl k);
        outranks = nothing (k.holders l);
      })
      out other
  where
    nothing : (o : Option ℕ) → Outranks o 0 k
    nothing none = tt
    nothing (some h) = omega arith

-- Outside interrupts, in a thread that is not the idle one and does not hold the lock, with memory and
-- a chain of locks that ends within the fuel, a call of `lock_acquire` that is not interrupted makes
-- the caller the holder if the value of the semaphore is positive, and takes the value down.
-- Otherwise the caller waits and another thread runs; the holder, which another thread that was
-- interrupted before it became the holder is not yet, has at least the caller's priority. The kernel
-- stays well-formed and other locks are kept.
pub lock_acquire-Acquires :
    (n l : ℕ) (k : Kernel) (w : ℕ → Option ℕ)
    → IsKernel k w
    → k.intr_context ≡ false
    → k.current ≢ k.idle_thread
    → is_thread k.current (k.holders l) ≡ false
    → chain_ends n (some l) (pending l k) ≡ true
    → Returns (Acquires l (priority_of k k.current) k w) (lock_acquire n true l k)
unfolding lock_acquire lock_held_by_current_thread
lock_acquire-Acquires n l k w v out other free ends =
    subst (Returns (Acquires l (priority_of k k.current) k w)) (sym eq) (
      Returns-bind (Promised l (priority_of k k.current) k w)
        (Acquires l (priority_of k k.current) k w) (lock_donate n true l k) (lock_take l)
        (lock_donate-Promised n l k w v ends)
        λ k1 p. lock_take-Acquires l (priority_of k k.current) k k1 w p out other)
  where
    go : Bool → Outcome (Bool × Kernel)
    go held = assert (not held) >> (lock_donate n true l k >>= lock_take l)

    eq : lock_acquire n true l k ≡ (lock_donate n true l k >>= lock_take l)
    eq =
        ap (λ b. assert (not b) >> (lock_held_by_current_thread l k >>= go)) out
        ∙ ap (λ m. m >>= (λ cur. ok (is_thread cur (k.holders l))) >>= go)
            (thread_current_lem k (current_running k w v))
        ∙ ap go free
