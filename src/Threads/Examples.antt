-- ===== src/Threads/Examples.antt =====
-- threads/thread.c and threads/synch.c on a concrete kernel: thread 1 is the idle thread, 2 runs with
-- priority 50 and holds lock 60, 3 is ready with 20 and holds lock 70, and 4 is ready with 40.
use pintos_filesys.Base.{
  ℕ, ◌≡◌, refl, arith, Bool, true, false, ◌||◌, Outcome, ok, ◌>>=◌, Returns, Option, none, some,
  List, [], ◌∷◌, if◌then◌else◌, ◌==◌, ◌&&◌, count, ℕ_discrete, sym, subst,
}
use pintos_filesys.Threads.{
  Status, thread_running, thread_ready, thread_blocked, Thread, Kernel, priority_of, thread_yield,
  thread_block, schedule, do_schedule, switch_to, reap, next_thread_to_run, thread_current,
  thread_get_priority, set_status, compare_cur_next_priority,
}
use pintos_filesys.Threads.Synch.{
  set_sema, set_holder, sema_down, sema_up, down_round, wait_on, donate_loop, donate_round,
  donate_for, create_donation, lock_donate, lock_take, lock_taken, lock_acquire, lock_release,
  lock_held_by_current_thread,
}
use pintos_filesys.Threads.Shape.{IsKernel}
use pintos_filesys.Threads.Highest.{Settled, compare_cur_next_priority-Settled}
use pintos_filesys.Threads.Waiting.{Downed, sema_down-Downed}
use pintos_filesys.Threads.Waking.{Upped, sema_up-Upped}
use pintos_filesys.Threads.Donations.{
  Donated, Outranks, chain_ends, holder_ends, donate_loop-Outranks,
}
use pintos_filesys.Threads.Locks.{IsLock, pending}
use pintos_filesys.Threads.Acquire.{Acquires, lock_acquire-Acquires}
use pintos_filesys.Threads.Steps.{
  outside, taken, holding, Machine, moved, with_kernel, yields, takes, holds_tried, Run, done, step,
  LockSound, Sound,
}
use pintos_filesys.Threads.Steps.Runs.{Run-exclusive}
use pintos_filesys.Threads.Release.{Released, lock_release-Released}

abbrev thread : Status → ℕ → Thread
thread s p = record {
  tid = 1;
  status = s;
  priority = p;
  original_priority = p;
  pending_lock = none;
  donations = [];
  children_list = [];
}

abbrev threads : ℕ → Thread
threads a =
    if a == 2
    then thread thread_running 50
    else if a == 3
    then thread thread_ready 20
    else if a == 4
    then thread thread_ready 40
    else thread thread_blocked 0

abbrev kernel : Kernel
kernel = record {
  threads = threads;
  current = 2;
  ready_list = 4 ∷ 3 ∷ [];
  all_list = 1 ∷ 2 ∷ 3 ∷ 4 ∷ [];
  destruction_req = [];
  idle_thread = 1;
  initial_thread = 2;
  thread_ticks = 0;
  next_tid = 5;
  intr_context = false;
  yield_on_return = false;
  semas = λ s.
      if s == 60
      then record { value = 0; waiters = [] }
      else if s == 70
      then record { value = 0; waiters = [] }
      else record { value = 1; waiters = [] };
  holders = λ l. if l == 60 then some 2 else if l == 70 then some 3 else none;
  conds = λ c. [];
}

abbrev nobody : ℕ → Option ℕ
nobody t = none

kernel-IsKernel : IsKernel kernel nobody
unfolding count
kernel-IsKernel = record {
  queued = record {
    ready = λ t. ground arith;
    waiting = λ s t. ground arith;
    asleep = λ t h. absurd (ground (arith, h));
    idle = refl;
  };
  one = λ t. ground arith;
}

compare_cur_next_priority-Settled_example :
    Returns (Settled kernel nobody) (compare_cur_next_priority kernel)
compare_cur_next_priority-Settled_example =
    compare_cur_next_priority-Settled kernel nobody kernel-IsKernel refl

sema_down-Downed_example : Returns (Downed 70 kernel nobody) (sema_down 70 kernel)
sema_down-Downed_example =
    sema_down-Downed kernel nobody 70 kernel-IsKernel refl λ e. absurd (omega (arith, e))

sema_up-Upped_example : Returns (Upped 5 kernel nobody) (sema_up 5 kernel)
sema_up-Upped_example = sema_up-Upped kernel nobody 5 kernel-IsKernel refl

locks : IsLock 70 kernel × IsLock 60 kernel
unfolding IsLock
locks = (refl, refl)

ends : (chain_ends 1 (some 70) kernel ≡ true) × (chain_ends 1 (some 70) (pending 70 kernel) ≡ true)
unfolding chain_ends holder_ends
ends = (refl, refl)

donate_loop-Outranks_example :
    Returns
      (λ k'.
        Donated kernel k' × Outranks (kernel.holders 70) (priority_of kernel kernel.current) k')
      (donate_loop 1 true kernel.current (some 70) kernel)
donate_loop-Outranks_example = donate_loop-Outranks 1 70 kernel refl ends.0

lock_acquire-Acquires_example :
    Returns
      (Acquires 70 (priority_of kernel kernel.current) kernel nobody)
      (lock_acquire 1 true 70 kernel)
lock_acquire-Acquires_example =
    lock_acquire-Acquires 1 70 kernel nobody kernel-IsKernel refl (λ e. absurd (omega (arith, e)))
      refl ends.1

lock_release-Released_example : Returns (Released 60 kernel) (lock_release 60 kernel)
lock_release-Released_example =
    lock_release-Released 60 kernel nobody kernel-IsKernel locks.1 refl refl

-- Locks 60, 70 and 80.
abbrev some_locks : ℕ → Bool
some_locks l = l == 60 || l == 70 || l == 80

abbrev machine : Machine
machine = record {
  kernel = kernel;
  position =
      λ t l. if t == 2 && l == 60 then holding else if t == 3 && l == 70 then holding else outside;
}

machine-Sound : Sound some_locks machine
machine-Sound = record {
  waits_on = nobody;
  kernel = kernel-IsKernel;
  context = refl;
  lock = λ l h. lock_state l (ℕ_discrete l 60) (ℕ_discrete l 70);
}
  where
    lock_state : (l : ℕ) → Dec (l ≡ 60) → Dec (l ≡ 70) → LockSound l machine
    lock_state l (yes a) d =
        subst (λ x. LockSound x machine) (sym a)
          (record { owner = some 2; value = refl; alone = λ t. ground arith; holder = refl })
    lock_state l (no a) (yes b) =
        subst (λ x. LockSound x machine) (sym b)
          (record { owner = some 3; value = refl; alone = λ t. ground arith; holder = refl })
    lock_state l (no a) (no b) = record {
      owner = none;
      value = ground (arith, a, b);
      alone = λ t. ground (arith, a, b);
      holder = ground (arith, a, b);
    }

-- Thread 2 comes behind `sema_down` of lock 80, is interrupted there and goes on, and becomes the
-- holder.
abbrev behind_down : Machine
behind_down = moved machine (set_sema kernel 80 (record { value = 0; waiters = [] })) 2 80 taken

abbrev interrupted : Machine
interrupted =
    with_kernel behind_down
      (record (set_status (set_status behind_down.kernel 2 thread_ready) 2 thread_running) {
        thread_ticks = 0;
      })

abbrev holder_of_80 : Machine
holder_of_80 = moved interrupted (set_holder interrupted.kernel 80 (some 2)) 2 80 holding

three_steps : Run some_locks machine holder_of_80
unfolding thread_yield do_schedule thread_current schedule next_thread_to_run switch_to reap
    sema_down down_round
three_steps =
    step interrupted holder_of_80
      (step behind_down interrupted
        (step machine behind_down done
          (takes 80 behind_down.kernel refl (λ e. absurd (omega (arith, e))) refl))
        (yields interrupted.kernel refl))
      (holds_tried 80 refl refl)

Run-exclusive_example : ◌≡◌ {A = ℕ} 2 2
Run-exclusive_example =
    Run-exclusive some_locks machine holder_of_80 80 2 2 machine-Sound three_steps refl refl refl

-- Thread 2 waits for the lock of thread 3, which gets its priority. But thread 4 runs next, since the
-- ready list is not sorted again.
after_call : Bool × Kernel → Outcome (ℕ × List ℕ)
after_call (got, k) = ok (priority_of k 3, k.current ∷ k.ready_list)

donated_late : (lock_acquire 1 true 70 kernel >>= after_call) ≡ ok (50, 4 ∷ 3 ∷ [])
unfolding after_call lock_acquire lock_held_by_current_thread thread_current lock_donate donate_for
    donate_loop donate_round create_donation thread_get_priority lock_take sema_down down_round
    wait_on thread_block schedule next_thread_to_run switch_to reap lock_taken
donated_late = refl
