-- ===== src/Threads/Condition.antt =====
-- threads/synch.c: condition variables. A waiter is the semaphore on the stack of the thread that
-- waits, and has its address.
use pintos_filesys.Base.{
  ℕ, zero, suc, Bool, true, false, not, Outcome, ok, hang, ◌>>=◌, ◌>>◌, assert, List, [], ◌∷◌,
  if◌then◌else◌, ltb, ◌==◌, insert_sorted, stable_sort, length, ◌+◌,
}
use pintos_filesys.Threads.{Kernel, priority_of}
use pintos_filesys.Threads.Synch.{
  sema_init, sema_down, sema_up, lock_acquire, lock_release, lock_held_by_current_thread,
}

-- By the priorities of the first threads that wait; nobody waiting is the lowest.
abbrev pub front_order : Kernel → List ℕ → List ℕ → Bool
front_order k [] ys = false
front_order k (t1 ∷ xs) [] = true
front_order k (t1 ∷ xs) (t2 ∷ ys) = ltb (priority_of k t2) (priority_of k t1)

abbrev pub compare_priority_for_cond : Kernel → (sema_a sema_b : ℕ) → Bool
compare_priority_for_cond k a b = front_order k (k.semas a).waiters (k.semas b).waiters

abbrev pub set_cond : Kernel → ℕ → List ℕ → Kernel
set_cond k c ws = record k { conds = λ a. if a == c then ws else k.conds a }

unfoldable pub cond_init : ℕ → Kernel → Kernel
cond_init c k = set_cond k c []

-- The new waiter in the list of the condition.
unfoldable pub add_waiter : (cond waiter : ℕ) → Kernel → Kernel
add_waiter c waiter k =
    let k1 = sema_init waiter 0 k in
    set_cond k1 c (insert_sorted (compare_priority_for_cond k1) waiter (k1.conds c))

-- From `sema_down` on.
unfoldable pub cond_sleep :
    (fuel : ℕ) (memory : Bool) (waiter lock : ℕ) → Kernel → Outcome (Bool × Kernel)
cond_sleep fuel memory waiter l k = do
  (got, k1) ← sema_down waiter k
  let again = lock_acquire fuel memory l k1
  (if got then again else ok (false, k1))

-- Whether the caller has the lock again.
unfoldable pub cond_wait :
    (fuel : ℕ) (memory : Bool) (cond waiter lock : ℕ) → Kernel → Outcome (Bool × Kernel)
cond_wait fuel memory c waiter l k = do
  assert (not k.intr_context)
  held ← lock_held_by_current_thread l k
  assert held
  k1 ← lock_release l (add_waiter c waiter k)
  let sleep = cond_sleep fuel memory waiter l k1
  (if k1.current == k.current then sleep else ok (false, k1))

unfoldable pub cond_signal : (cond lock : ℕ) → Kernel → Outcome Kernel
cond_signal c l k = do
  assert (not k.intr_context)
  held ← lock_held_by_current_thread l k
  assert held
  elim (stable_sort (compare_priority_for_cond k) (k.conds c)) [
    | [] ↦ ok k
    | waiter ∷ rest ↦ sema_up waiter (set_cond k c rest)
  ]

-- The loop of `cond_broadcast`, as long as the caller runs.
unfoldable pub broadcast_loop : (fuel : ℕ) (cond lock : ℕ) → Kernel → Outcome Kernel
broadcast_loop zero c l k = hang
broadcast_loop (suc fuel) c l k = elim (k.conds c) as (λ x. Outcome Kernel) [
  | [] ↦ ok k
  | waiter ∷ rest ↦ do
    k1 ← cond_signal c l k
    let more = broadcast_loop fuel c l k1
    (if k1.current == k.current then more else ok k1)
]

unfoldable pub cond_broadcast : (cond lock : ℕ) → Kernel → Outcome Kernel
cond_broadcast c l k = broadcast_loop (length (k.conds c) + 1) c l k
