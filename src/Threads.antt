-- ===== src/Threads.antt =====
-- threads/thread.c: the scheduler, with `thread_mlfqs` unset, on one CPU. Threads, semaphores, locks
-- and conditions are addresses; a lock has the address of its semaphore. The kernel's lists are lists
-- of addresses, in the order that list.c keeps them in. An operation here runs with interrupts off
-- where it changes what others see, but for thread_create, of which the definition is a call that is
-- not interrupted. It ends early where the CPU goes to another thread. Priorities are not negative.
pub mod Synch
pub mod Condition
pub mod Shape
pub mod Apart
pub mod Scheduling
pub mod Queueing
pub mod Yielding
pub mod Waiting
pub mod Waking
pub mod Highest
pub mod Donations
pub mod Locks
pub mod Acquire
pub mod Release
pub mod Steps
mod Examples
use pintos_filesys.Base.{
  ℕ, zero, suc, ◌+◌, Bool, true, false, not, ◌&&◌, ◌||◌, Option, none, some, Outcome, ok, ◌>>=◌,
  ◌>>◌, assert, List, [], ◌∷◌, ◌++◌, if◌then◌else◌, ltb, leb, ◌==◌, insert_sorted, stable_sort,
  by_key,
}

abbrev pub pri_min : ℕ
pri_min = 0

abbrev pub pri_max : ℕ
pri_max = 63

abbrev pub time_slice : ℕ
time_slice = 4

-- `enum thread_status`.
pub data Status : Type 0 where
  thread_running : Status
  thread_ready : Status
  thread_blocked : Status
  thread_dying : Status

abbrev pub is_running : Status → Bool
is_running thread_running = true
is_running thread_ready = false
is_running thread_blocked = false
is_running thread_dying = false

abbrev pub is_ready : Status → Bool
is_ready thread_running = false
is_ready thread_ready = true
is_ready thread_blocked = false
is_ready thread_dying = false

abbrev pub is_blocked : Status → Bool
is_blocked thread_running = false
is_blocked thread_ready = false
is_blocked thread_blocked = true
is_blocked thread_dying = false

abbrev pub is_dying : Status → Bool
is_dying thread_running = false
is_dying thread_ready = false
is_dying thread_blocked = false
is_dying thread_dying = true

pub record Donation : Type 0 where
  pub priority : ℕ
  pub donor : ℕ
  pub lock : ℕ

-- `struct thread`.
pub record Thread : Type 0 where
  pub tid : ℕ
  pub status : Status
  pub priority : ℕ
  pub original_priority : ℕ
  pub pending_lock : Option ℕ
  pub donations : List Donation
  pub children_list : List ℕ

pub record Semaphore : Type 0 where
  pub value : ℕ
  pub waiters : List ℕ

pub record Kernel : Type 0 where
  pub threads : ℕ → Thread
  pub current : ℕ
  pub ready_list : List ℕ
  pub all_list : List ℕ
  pub destruction_req : List ℕ
  pub idle_thread : ℕ
  pub initial_thread : ℕ
  pub thread_ticks : ℕ
  pub next_tid : ℕ
  pub intr_context : Bool
  pub yield_on_return : Bool
  pub semas : ℕ → Semaphore
  pub holders : ℕ → Option ℕ
  pub conds : ℕ → List ℕ

abbrev pub status_of : Kernel → ℕ → Status
status_of k t = (k.threads t).status

abbrev pub priority_of : Kernel → ℕ → ℕ
priority_of k t = (k.threads t).priority

abbrev pub set_thread : Kernel → ℕ → Thread → Kernel
set_thread k t x = record k { threads = λ a. if a == t then x else k.threads a }

abbrev pub set_status : Kernel → ℕ → Status → Kernel
set_status k t s = set_thread k t (record (k.threads t) { status = s })

-- `t1->priority > t2->priority`.
abbrev pub compare_priority : Kernel → (t1 t2 : ℕ) → Bool
compare_priority k = by_key (priority_of k)

unfoldable pub thread_current : Kernel → Outcome ℕ
thread_current k = assert (is_running (status_of k k.current)) >> ok k.current

unfoldable pub thread_get_priority : Kernel → Outcome ℕ
thread_get_priority k = do t ← thread_current k; ok (priority_of k t)

unfoldable pub next_thread_to_run : Kernel → ℕ × Kernel
next_thread_to_run k = elim k.ready_list as (λ x. ℕ × Kernel) [
  | [] ↦ (k.idle_thread, k)
  | t ∷ ts ↦ (t, record k { ready_list = ts })
]

-- The request to free the thread that was switched from.
unfoldable pub reap : (curr : ℕ) → Kernel → Kernel
reap curr k =
    if is_dying (status_of k curr) && not (curr == k.initial_thread)
    then record k { destruction_req = insert_sorted (compare_priority k) curr k.destruction_req }
    else k

-- The CPU goes to `next`.
unfoldable pub switch_to : (next : ℕ) → Kernel → Kernel
switch_to next k =
    let k1 = record (set_status k next thread_running) { thread_ticks = 0 } in
    if k.current == next then k1 else record (reap k.current k1) { current = next }

unfoldable pub schedule : Kernel → Outcome Kernel
schedule k = do
  let (next, k1) = next_thread_to_run k
  assert (not (is_running (status_of k k.current)))
  ok (switch_to next k1)

-- The pages of the threads in `destruction_req` are freed.
unfoldable pub do_schedule : Status → Kernel → Outcome Kernel
do_schedule status k = do
  cur ← thread_current k
  schedule (set_status (record k { destruction_req = [] }) cur status)

unfoldable pub thread_block : Kernel → Outcome Kernel
thread_block k = do
  assert (not k.intr_context)
  cur ← thread_current k
  schedule (set_status k cur thread_blocked)

-- `list_insert_ordered (&ready_list, ...)`.
abbrev pub enqueue : ℕ → Kernel → Kernel
enqueue t k = record k { ready_list = insert_sorted (compare_priority k) t k.ready_list }

unfoldable pub thread_unblock : ℕ → Kernel → Outcome Kernel
thread_unblock t k = do
  assert (is_blocked (status_of k t))
  ok (set_status (enqueue t k) t thread_ready)

unfoldable pub thread_yield : Kernel → Outcome Kernel
thread_yield k = do
  cur ← thread_current k
  assert (not k.intr_context)
  do_schedule thread_ready (if cur == k.idle_thread then k else enqueue cur k)

-- Behind the test for an empty ready list.
unfoldable pub compare_front : (front : ℕ) → Kernel → Outcome Kernel
compare_front front k = do
  cur ← thread_current k
  let yield = thread_yield k
  (if ltb (priority_of k cur) (priority_of k front)
      then (if k.intr_context then ok (record k { yield_on_return = true }) else yield)
      else ok k)

unfoldable pub compare_cur_next_priority : Kernel → Outcome Kernel
compare_cur_next_priority k =
    elim (stable_sort (compare_priority k) k.ready_list) as (λ x. Outcome Kernel) [
      | [] ↦ ok k
      | front ∷ rest ↦ compare_front front (record k { ready_list = front ∷ rest })
    ]

-- The new priority, or that of the first donation if it is higher.
abbrev pub effective : (new : ℕ) → List Donation → ℕ
effective new [] = new
effective new (d ∷ ds) = if ltb new d.priority then d.priority else new

unfoldable pub thread_set_priority : (new_priority : ℕ) → Kernel → Outcome Kernel
thread_set_priority new k = do
  cur ← thread_current k
  let t = k.threads cur
  compare_cur_next_priority (
      set_thread k cur (record t { original_priority = new; priority = effective new t.donations }))

unfoldable pub init_thread : (t priority : ℕ) → Kernel → Outcome Kernel
init_thread t priority k = do
  assert (leb pri_min priority && leb priority pri_max)
  let fresh : Thread = record {
    tid = 0;
    status = thread_blocked;
    priority = priority;
    original_priority = priority;
    pending_lock = none;
    donations = [];
    children_list = [];
  }
  ok (record (set_thread k t fresh) { all_list = k.all_list ++ t ∷ [] })

-- The counter; the lock around it is not modelled.
abbrev pub allocate_tid : Kernel → ℕ × Kernel
allocate_tid k = (k.next_tid, record k { next_tid = k.next_tid + 1 })

-- `page` is what `palloc_get_page` gives; `none` is TID_ERROR.
unfoldable pub thread_create :
    (page : Option ℕ) (priority : ℕ) → Kernel → Outcome (Option ℕ × Kernel)
thread_create none priority k = thread_current k >>= λ cur. ok (none, k)
thread_create (some t) priority k = do
  cur ← thread_current k
  k1 ← init_thread t priority k
  let (tid, k2) = allocate_tid k1
  let k3 = set_thread k2 t (record (k2.threads t) { tid = tid })
  let parent = k3.threads cur
  let k4 = set_thread k3 cur (record parent { children_list = parent.children_list ++ t ∷ [] })
  k5 ← thread_unblock t k4
  let yield = thread_yield k5
  k6 ← (if compare_priority k5 t cur then yield else ok k5)
  ok (some tid, k6)

-- Behind `process_exit`; the caller does not run again.
unfoldable pub thread_exit : Kernel → Outcome Kernel
thread_exit k = assert (not k.intr_context) >> do_schedule thread_dying k

-- In the interrupt context; the statistics are not modelled.
unfoldable pub thread_tick : Kernel → Outcome Kernel
thread_tick k = do
  cur ← thread_current k
  let k1 = record k { thread_ticks = k.thread_ticks + 1 }
  ok (if leb time_slice k1.thread_ticks then record k1 { yield_on_return = true } else k1)
