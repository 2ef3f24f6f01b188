-- ===== src/Threads/Synch.antt =====
-- threads/synch.c: semaphores and locks. A call tells whether it got what it asked for: if not, the
-- caller is blocked, and goes on with the loop of `sema_down` when it runs again. The operations on
-- semaphores run with interrupts off. Those on locks do not: `lock_acquire`, `lock_try_acquire` and
-- `lock_release` are calls in which no interrupt gives the CPU away before the call does, and Steps has
-- their parts as steps between which other threads run.
use pintos_filesys.Base.{
  ℕ, zero, suc, ◌+◌, Bool, true, false, not, Option, none, some, Outcome, ok, fault, hang, ◌>>=◌,
  ◌>>◌, assert, List, [], ◌∷◌, if◌then◌else◌, ltb, ◌==◌, insert_sorted, stable_sort, by_key, wrap32,
}
use pintos_filesys.Threads.{
  Donation, Thread, Semaphore, Kernel, priority_of, set_thread, compare_priority, thread_current,
  thread_get_priority, thread_block, thread_unblock, compare_cur_next_priority,
}

abbrev pub set_sema : Kernel → ℕ → Semaphore → Kernel
set_sema k s x = record k { semas = λ a. if a == s then x else k.semas a }

abbrev pub set_holder : Kernel → ℕ → Option ℕ → Kernel
set_holder k l h = record k { holders = λ a. if a == l then h else k.holders a }

unfoldable pub sema_init : (s value : ℕ) → Kernel → Kernel
sema_init s value k = set_sema k s (record { value = value; waiters = [] })

-- The current thread waits for the semaphore.
unfoldable pub wait_on : ℕ → Kernel → Outcome Kernel
wait_on s k = do
  cur ← thread_current k
  let sema = k.semas s
  thread_block
      (set_sema k s (record sema { waiters = insert_sorted (compare_priority k) cur sema.waiters }))

-- One round of the loop on the semaphore's value: it is taken, or the thread waits.
unfoldable pub down_round : (value : ℕ) → ℕ → Kernel → Outcome (Bool × Kernel)
down_round zero s k = wait_on s k >>= λ k'. ok (false, k')
down_round (suc v) s k = ok (true, set_sema k s (record (k.semas s) { value = v }))

unfoldable pub sema_down : ℕ → Kernel → Outcome (Bool × Kernel)
sema_down s k = assert (not k.intr_context) >> down_round (k.semas s).value s k

unfoldable pub try_value : (value : ℕ) → ℕ → Kernel → Bool × Kernel
try_value zero s k = (false, k)
try_value (suc v) s k = (true, set_sema k s (record (k.semas s) { value = v }))

unfoldable pub sema_try_down : ℕ → Kernel → Bool × Kernel
sema_try_down s k = try_value (k.semas s).value s k

-- The first of the sorted waiters becomes ready.
unfoldable pub wake_first : (sorted : List ℕ) → ℕ → Kernel → Outcome Kernel
wake_first [] s k = ok k
wake_first (t ∷ ts) s k = thread_unblock t (set_sema k s (record (k.semas s) { waiters = ts }))

unfoldable pub wake : ℕ → Kernel → Outcome Kernel
wake s k = wake_first (stable_sort (compare_priority k) (k.semas s).waiters) s k

unfoldable pub sema_up : ℕ → Kernel → Outcome Kernel
sema_up s k = do
  k1 ← wake s k
  compare_cur_next_priority
      (set_sema k1 s (record (k1.semas s) { value = wrap32 ((k1.semas s).value + 1) }))

unfoldable pub lock_init : ℕ → Kernel → Kernel
lock_init l k = sema_init l 1 (set_holder k l none)

abbrev pub is_thread : ℕ → Option ℕ → Bool
is_thread t none = false
is_thread t (some h) = t == h

unfoldable pub lock_held_by_current_thread : ℕ → Kernel → Outcome Bool
lock_held_by_current_thread l k = do cur ← thread_current k; ok (is_thread cur (k.holders l))

-- A donation of the current thread; writing to it is a fault if malloc gives no memory.
unfoldable pub create_donation : (memory : Bool) (thread lock : ℕ) → Kernel → Outcome Donation
create_donation memory thread lock k = do
  p ← thread_get_priority k
  (if memory then ok (record { priority = p; donor = thread; lock = lock }) else fault)

abbrev pub donation_order : Donation → Donation → Bool
donation_order = by_key (λ (d : Donation). d.priority)

-- The holder with the donation, and at least the priority of it.
abbrev pub donated : Donation → Thread → Thread
donated d t = record t {
  priority = if ltb t.priority d.priority then d.priority else t.priority;
  donations = insert_sorted donation_order d t.donations;
}

abbrev pub sort_waiters : Option ℕ → Kernel → Kernel
sort_waiters none k = k
sort_waiters (some l) k =
    set_sema k l
      (record (k.semas l) { waiters = stable_sort (compare_priority k) (k.semas l).waiters })

-- A round of the loop of `lock_acquire` at a lock with the given holder, and the rest of the loop.
unfoldable pub donate_round :
    (holder : Option ℕ) (rest : Option ℕ → Kernel → Outcome Kernel) (memory : Bool) (cur l : ℕ)
    → Kernel
    → Outcome Kernel
donate_round none rest memory cur l k = ok k
donate_round (some h) rest memory cur l k = do
  p ← thread_get_priority k
  let next = do
    d ← create_donation memory cur l k
    let k1 = set_thread k h (donated d (k.threads h))
    rest (k1.threads h).pending_lock (sort_waiters (k1.threads h).pending_lock k1)
  if ltb p (priority_of k h) then ok k else next

-- The loop of `lock_acquire`, a round for each lock in the chain.
unfoldable pub donate_loop :
    (fuel : ℕ) (memory : Bool) (cur : ℕ) → Option ℕ → Kernel → Outcome Kernel
donate_loop fuel memory cur none k = ok k
donate_loop zero memory cur (some l) k = hang
donate_loop (suc fuel) memory cur (some l) k =
    donate_round (k.holders l) (donate_loop fuel memory cur) memory cur l k

-- What follows `sema_down`.
unfoldable pub lock_taken : ℕ → Kernel → Outcome (Bool × Kernel)
lock_taken l k = do
  cur ← thread_current k
  ok (
    true,
    set_holder (set_thread k cur (record (k.threads cur) { pending_lock = none })) l (some cur),
  )

-- `sema_down` and what follows it.
unfoldable pub lock_take : ℕ → Kernel → Outcome (Bool × Kernel)
lock_take l k = do
  (got, k1) ← sema_down l k
  let taken = lock_taken l k1
  (if got then taken else ok (false, k1))

-- The donations for a lock with the given holder.
unfoldable pub donate_for :
    (holder : Option ℕ) (fuel : ℕ) (memory : Bool) (cur l : ℕ) → Kernel → Outcome Kernel
donate_for none fuel memory cur l k = ok k
donate_for (some h) fuel memory cur l k =
    donate_loop fuel memory cur (some l)
      (set_thread k cur (record (k.threads cur) { pending_lock = some l }))

-- What `lock_acquire` does before `sema_down`.
unfoldable pub lock_donate : (fuel : ℕ) (memory : Bool) → ℕ → Kernel → Outcome Kernel
lock_donate fuel memory l k = do
  cur ← thread_current k
  donate_for (k.holders l) fuel memory cur l k

unfoldable pub lock_acquire : (fuel : ℕ) (memory : Bool) → ℕ → Kernel → Outcome (Bool × Kernel)
lock_acquire fuel memory l k = do
  assert (not k.intr_context)
  held ← lock_held_by_current_thread l k
  assert (not held)
  k1 ← lock_donate fuel memory l k
  lock_take l k1

unfoldable pub lock_try_acquire : ℕ → Kernel → Outcome (Bool × Kernel)
lock_try_acquire l k = do
  held ← lock_held_by_current_thread l k
  assert (not held)
  let (success, k1) = sema_try_down l k
  cur ← thread_current k1
  ok (success, if success then set_holder k1 l (some cur) else k1)

-- The donations for other locks. The loop goes on from an element that it has removed, against the
-- comment on `list_remove`; LinkedList.Dropping runs it on the links of list.c.
unfoldable pub other_donations : ℕ → List Donation → List Donation
other_donations l [] = []
other_donations l (d ∷ ds) =
    let rest = other_donations l ds in if d.lock == l then rest else d ∷ rest

unfoldable pub remove_donation_for_lock : ℕ → Kernel → Outcome Kernel
remove_donation_for_lock l k = do
  cur ← thread_current k
  let t = k.threads cur
  ok (set_thread k cur (record t { donations = other_donations l t.donations }))

-- The thread with its donations sorted, and the higher of its own priority and the first donation's.
abbrev pub recalculated : Thread → List Donation → Thread
recalculated t [] = record t { priority = t.original_priority; donations = [] }
recalculated t (d ∷ ds) = record t {
  priority = if ltb t.original_priority d.priority then d.priority else t.original_priority;
  donations = d ∷ ds;
}

unfoldable pub recalc_priority : Kernel → Outcome Kernel
recalc_priority k = do
  cur ← thread_current k
  let t = k.threads cur
  ok (set_thread k cur (recalculated t (stable_sort donation_order t.donations)))

-- Up to the point at which the caller runs no more, or to the end.
unfoldable pub lock_release : ℕ → Kernel → Outcome Kernel
lock_release l k = do
  held ← lock_held_by_current_thread l k
  assert held
  k1 ← remove_donation_for_lock l k
  k2 ← recalc_priority k1
  k3 ← sema_up l (set_holder k2 l none)
  let again = compare_cur_next_priority k3
  (if k3.current == k.current then again else ok k3)
