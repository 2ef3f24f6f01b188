-- ===== src/Threads/Steps.antt =====
-- threads/thread.c and threads/synch.c: the runs of the kernel as sequences of steps, by whichever
-- thread is current. A step is what the source does with interrupts off, or a part of an operation on
-- locks, which runs with interrupts on. Any step of any thread may follow any other, with `yields`
-- for the timer's interrupt, so that there are more runs than the source has. A round of the loop of
-- `lock_acquire`, the removal of donations and the sorting of them are each one step. thread_create
-- and the operations on conditions have no steps.
pub mod Calls
pub mod Locks
pub mod Moves
pub mod Runs
use pintos_filesys.Base.{
  ℕ, zero, suc, ◌+◌, ◌≡◌, ◌≢◌, Bool, true, false, ◌&&◌, Option, none, some, Outcome, ok, once,
  count, if◌then◌else◌, ◌==◌,
}
use pintos_filesys.Threads.{
  Kernel, thread_block, thread_unblock, thread_yield, thread_set_priority, thread_exit,
  compare_cur_next_priority,
}
use pintos_filesys.Threads.Synch.{
  set_holder, is_thread, sema_down, sema_try_down, sema_up, donate_round, lock_taken,
  remove_donation_for_lock, recalc_priority,
}
use pintos_filesys.Threads.Shape.{is_some, IsKernel}
use pintos_filesys.Threads.Locks.{pending}

-- Where a thread is in its use of a lock: not in it, behind `sema_down`, behind the assignment of
-- `holder`, or behind that of null in `lock_release`. Behind `sema_up` it is outside again.
pub data Position : Type 0 where
  outside : Position
  taken : Position
  holding : Position
  freed : Position

abbrev pub is_inside : Position → Bool
is_inside outside = false
is_inside taken = true
is_inside holding = true
is_inside freed = true

abbrev pub is_holding : Position → Bool
is_holding outside = false
is_holding taken = false
is_holding holding = true
is_holding freed = false

-- The kernel, and where each thread is in its use of each lock.
pub record Machine : Type 0 where
  pub kernel : Kernel
  pub position : (t l : ℕ) → Position

abbrev pub with_kernel : Machine → Kernel → Machine
with_kernel m k = record m { kernel = k }

-- A thread goes on in its use of a lock.
abbrev pub moved : Machine → Kernel → (t l : ℕ) → Position → Machine
moved m k t l p = record {
  kernel = k;
  position = λ a b. if a == t && b == l then p else m.position a b;
}

-- One step. The addresses for which `locks` holds are semaphores of locks, which are used through
-- their locks only, as the code does. A thread that wakes up in `sema_down` tries the next round of
-- its loop as a further step.
pub data Step (locks : ℕ → Bool) (m : Machine) : Machine → Type 0 where
  yields : (k : Kernel) → thread_yield m.kernel ≡ ok k → Step locks m (with_kernel m k)
  blocks : (k : Kernel) → thread_block m.kernel ≡ ok k → Step locks m (with_kernel m k)
  exits :
      (k : Kernel)
      → m.kernel.current ≢ m.kernel.idle_thread
      → thread_exit m.kernel ≡ ok k
      → Step locks m (with_kernel m k)
  sets :
      (p : ℕ) (k : Kernel) → thread_set_priority p m.kernel ≡ ok k → Step locks m (with_kernel m k)
  settles :
      (k : Kernel) → compare_cur_next_priority m.kernel ≡ ok k → Step locks m (with_kernel m k)
  -- A thread that has blocked itself, and waits for no semaphore.
  wakes :
      (t : ℕ) (k : Kernel)
      → t ≢ m.kernel.idle_thread
      → ((s : ℕ) → count t (m.kernel.semas s).waiters ≡ 0)
      → thread_unblock t m.kernel ≡ ok k
      → Step locks m (with_kernel m k)
  downs :
      (s : ℕ) (got : Bool) (k : Kernel)
      → locks s ≡ false
      → m.kernel.current ≢ m.kernel.idle_thread
      → sema_down s m.kernel ≡ ok (got, k)
      → Step locks m (with_kernel m k)
  ups :
      (s : ℕ) (k : Kernel)
      → locks s ≡ false
      → sema_up s m.kernel ≡ ok k
      → Step locks m (with_kernel m k)
  -- `lock_acquire`: the caller's `pending_lock`, and a round of the loop.
  pends : (l : ℕ) → Step locks m (with_kernel m (pending l m.kernel))
  donates :
      (l : ℕ) (k : Kernel)
      → donate_round (m.kernel.holders l) (λ next k1. ok k1) true m.kernel.current l m.kernel ≡ ok k
      → Step locks m (with_kernel m k)
  -- `sema_down` on a lock's semaphore: the caller waits, or it is behind it.
  sleeps :
      (l : ℕ) (k : Kernel)
      → locks l ≡ true
      → m.kernel.current ≢ m.kernel.idle_thread
      → sema_down l m.kernel ≡ ok (false, k)
      → Step locks m (with_kernel m k)
  takes :
      (l : ℕ) (k : Kernel)
      → locks l ≡ true
      → m.kernel.current ≢ m.kernel.idle_thread
      → sema_down l m.kernel ≡ ok (true, k)
      → Step locks m (moved m k m.kernel.current l taken)
  -- `sema_try_down` in `lock_try_acquire`, where it succeeds.
  tries :
      (l : ℕ) (k : Kernel)
      → locks l ≡ true
      → m.kernel.current ≢ m.kernel.idle_thread
      → sema_try_down l m.kernel ≡ (true, k)
      → Step locks m (moved m k m.kernel.current l taken)
  -- What follows, in `lock_acquire` and in `lock_try_acquire`.
  holds :
      (l : ℕ) (k : Kernel)
      → locks l ≡ true
      → m.position m.kernel.current l ≡ taken
      → lock_taken l m.kernel ≡ ok (true, k)
      → Step locks m (moved m k m.kernel.current l holding)
  holds_tried :
      (l : ℕ)
      → locks l ≡ true
      → m.position m.kernel.current l ≡ taken
      → Step locks m
          (moved m (set_holder m.kernel l (some m.kernel.current)) m.kernel.current l holding)
  -- `lock_release`: its parts in their order are `drops`, `recalcs`, `frees`, `leaves` and `settles`.
  drops :
      (l : ℕ) (k : Kernel)
      → remove_donation_for_lock l m.kernel ≡ ok k
      → Step locks m (with_kernel m k)
  recalcs : (k : Kernel) → recalc_priority m.kernel ≡ ok k → Step locks m (with_kernel m k)
  frees :
      (l : ℕ)
      → locks l ≡ true
      → m.position m.kernel.current l ≡ holding
      → Step locks m (moved m (set_holder m.kernel l none) m.kernel.current l freed)
  leaves :
      (l : ℕ) (k : Kernel)
      → locks l ≡ true
      → m.position m.kernel.current l ≡ freed
      → sema_up l m.kernel ≡ ok k
      → Step locks m (moved m k m.kernel.current l outside)

-- A run.
pub data Run (locks : ℕ → Bool) (m : Machine) : Machine → Type 0 where
  done : Run locks m m
  step : (m' m'' : Machine) → Run locks m m' → Step locks m' m'' → Run locks m m''

-- The holder of a lock that a thread, at its position, or none is inside of.
abbrev pub holder_at : Option ℕ → (ℕ → Position) → Option ℕ
holder_at none p = none
holder_at (some t) p = if is_holding (p t) then some t else none

-- One thread at most is inside the lock, the value of its semaphore is 1 while none is, and the
-- holder is the thread inside, from the one assignment to the other.
pub record LockSound (l : ℕ) (m : Machine) : Type 0 where
  pub owner : Option ℕ
  pub value : (m.kernel.semas l).value + once (is_some owner) ≡ 1
  pub alone : (t : ℕ) → is_inside (m.position t l) ≡ is_thread t owner
  pub holder : m.kernel.holders l ≡ holder_at owner (λ t. m.position t l)

-- The lists are right for some threads that wait, exactly the current thread is running, and the
-- locks are in order.
pub record Sound (locks : ℕ → Bool) (m : Machine) : Type 0 where
  pub waits_on : ℕ → Option ℕ
  pub kernel : IsKernel m.kernel waits_on
  pub context : m.kernel.intr_context ≡ false
  pub lock : (l : ℕ) → locks l ≡ true → LockSound l m
