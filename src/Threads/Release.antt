-- ===== src/Threads/Release.antt =====
-- threads/synch.c: releasing a lock gives back the priority that was donated for it.
use pintos_filesys.Base.{
  ℕ, ◌+◌, ◌≡◌, not, ◌&&◌, amount, amount-stable_sort, refl, arith, ap, sym, ◌∙◌, Bool, true, false,
  Option, none, some, List, [], ◌∷◌, if◌then◌else◌, ◌==◌, once, assert, ◌>>◌, ◌>>=◌, subst, Returns,
  Returns-bind, Returns-mono, Outcome, ok, stable_sort, Sorted, max, maximum, maximum-stable_sort,
  stable_sort-Sorted, maximum-front, ==_refl, bind_assoc,
}
use pintos_filesys.Threads.{
  Thread, Donation, Kernel, priority_of, set_thread, compare_cur_next_priority,
}
use pintos_filesys.Threads.Synch.{
  set_holder, is_thread, donation_order, other_donations, remove_donation_for_lock, recalculated,
  recalc_priority, sema_up, lock_release, lock_held_by_current_thread,
}
use pintos_filesys.Threads.Shape.{is_some, IsKernel}
use pintos_filesys.Threads.Apart.{Apart, Apart-trans, Kept-Apart, set_holder-Apart}
use pintos_filesys.Threads.Scheduling.{current_running, thread_current_lem}
use pintos_filesys.Threads.Highest.{Highest, Settled, compare_cur_next_priority-Settled}
use pintos_filesys.Threads.Waking.{Upped, Upped-IsKernel, sema_up-Upped}
use pintos_filesys.Threads.Locks.{IsLock, set_thread-IsKernel}
use pintos_filesys.Threads.Acquire.{set_holder-IsKernel, holder_set}

-- The highest priority that was donated.
abbrev pub highest_donation : List Donation → ℕ
highest_donation = maximum (λ (d : Donation). d.priority)

-- The priority of a donation that is not for the lock.
pub for_others : ℕ → Donation → ℕ
for_others l d = if d.lock == l then 0 else d.priority

other_donations-maximum :
    (l : ℕ) (ds : List Donation)
    → highest_donation (other_donations l ds) ≡ maximum (for_others l) ds
unfolding maximum other_donations for_others
other_donations-maximum l [] = refl
other_donations-maximum l (d ∷ ds) = ground (arith, other_donations-maximum l ds)

recalculated-priority :
    (t : Thread) (ds : List Donation)
    → Sorted donation_order ds
    → (recalculated t ds).priority ≡ max t.original_priority (highest_donation ds)
unfolding maximum
recalculated-priority t [] s = ground arith
recalculated-priority t (d ∷ ds) s =
    ap (max t.original_priority) (sym (maximum-front (λ (x : Donation). x.priority) d ds s))

pub recalculated-status : (t : Thread) (ds : List Donation) → (recalculated t ds).status ≡ t.status
recalculated-status t [] = refl
recalculated-status t (d ∷ ds) = refl

at_thread : (k : Kernel) (t : ℕ) (x : Thread) → (set_thread k t x).threads t ≡ x
at_thread k t x = rw (==_refl t) refl

-- Those of the donations that are not for the lock, each as often as before, the highest first.
pub record Retained (l : ℕ) (before after : List Donation) : Type 0 where
  pub kept : (f : Donation → Bool) → amount f after ≡ amount (λ d. f d && not (d.lock == l)) before
  pub highest_first : Sorted donation_order after

other_donations-amount :
    (l : ℕ) (f : Donation → Bool) (ds : List Donation)
    → amount f (other_donations l ds) ≡ amount (λ d. f d && not (d.lock == l)) ds
unfolding other_donations amount
other_donations-amount l f [] = refl
other_donations-amount l f (d ∷ ds) = ground (arith, other_donations-amount l f ds)

recalculated-donations : (t : Thread) (ds : List Donation) → (recalculated t ds).donations ≡ ds
recalculated-donations t [] = refl
recalculated-donations t (d ∷ ds) = refl

-- The current thread with its new list of donations and its new priority.
record Recalculated (l : ℕ) (k : Kernel) (w : ℕ → Option ℕ) (k' : Kernel) : Type 0 where
  kernel : IsKernel k' w
  current : k'.current ≡ k.current
  intr_context : k'.intr_context ≡ k.intr_context
  holders : k'.holders ≡ k.holders
  value : (k'.semas l).value ≡ (k.semas l).value
  apart : Apart l k k'
  priority :
      priority_of k' k.current
      ≡ max
          (k.threads k.current).original_priority
          (maximum (for_others l) (k.threads k.current).donations)
  donations : Retained l (k.threads k.current).donations (k'.threads k.current).donations

recalc-Recalculated :
    (l : ℕ) (k : Kernel) (w : ℕ → Option ℕ)
    → IsKernel k w
    → Returns (Recalculated l k w) (remove_donation_for_lock l k >>= recalc_priority)
unfolding remove_donation_for_lock recalc_priority
recalc-Recalculated l k w v =
    rw
      (
        thread_current_lem k (current_running k w v),
        thread_current_lem k1 (current_running k1 w v1),
      )
      (record {
        kernel =
            set_thread-IsKernel k1 w k.current t2
              (recalculated-status (k1.threads k.current) sorted) v1;
        current = refl;
        intr_context = refl;
        holders = refl;
        value = refl;
        apart = record { value = λ s ne. refl; holder = λ s ne. refl; context = refl };
        priority =
            ap (λ (x : Thread). x.priority) (at_thread k1 k.current t2)
            ∙ recalculated-priority (k1.threads k.current) sorted
                (stable_sort-Sorted (λ (d : Donation). d.priority) (k1.threads k.current).donations)
            ∙ ap (max (k1.threads k.current).original_priority) (
                maximum-stable_sort (λ (d : Donation). d.priority) (k1.threads k.current).donations)
            ∙ ap (λ (x : Thread). max x.original_priority (highest_donation x.donations))
                (at_thread k k.current t1)
            ∙ ap (max (k.threads k.current).original_priority)
                (other_donations-maximum l (k.threads k.current).donations);
        donations = subst (Retained l (k.threads k.current).donations) (sym listed) retained;
      })
  where
    t1 : Thread
    t1 = record (k.threads k.current) {
      donations = other_donations l (k.threads k.current).donations;
    }

    k1 : Kernel
    k1 = set_thread k k.current t1

    v1 : IsKernel k1 w
    v1 = set_thread-IsKernel k w k.current t1 refl v

    sorted : List Donation
    sorted = stable_sort donation_order (k1.threads k.current).donations

    t2 : Thread
    t2 = recalculated (k1.threads k.current) sorted

    listed : ((set_thread k1 k.current t2).threads k.current).donations ≡ sorted
    listed =
        ap (λ (x : Thread). x.donations) (at_thread k1 k.current t2)
        ∙ recalculated-donations (k1.threads k.current) sorted

    retained : Retained l (k.threads k.current).donations sorted
    retained = record {
      kept = λ f.
          amount-stable_sort donation_order f (k1.threads k.current).donations
          ∙ ap (λ (x : Thread). amount f x.donations) (at_thread k k.current t1)
          ∙ other_donations-amount l f (k.threads k.current).donations;
      highest_first =
          stable_sort-Sorted (λ (d : Donation). d.priority) (k1.threads k.current).donations;
    }

-- Nobody holds the lock, who held it has the donations for other locks left and its own priority or
-- the highest of these, and no ready thread has a higher priority than the one that runs.
pub record Released (l : ℕ) (k : Kernel) (k' : Kernel) : Type 0 where
  pub kernel : (w : ℕ → Option ℕ) × IsKernel k' w
  pub holder : k'.holders l ≡ none
  pub lock : IsLock l k'
  pub priority :
      priority_of k' k.current
      ≡ max
          (k.threads k.current).original_priority
          (maximum (for_others l) (k.threads k.current).donations)
  pub donations : Retained l (k.threads k.current).donations (k'.threads k.current).donations
  pub highest : Highest k'
  pub apart : Apart l k k'

-- After `sema_up`, whether the caller still runs or not.
Upped-Released :
    (l : ℕ) (k k2 k3 : Kernel) (w : ℕ → Option ℕ)
    → IsLock l k
    → is_some (k.holders l) ≡ true
    → Recalculated l k w k2
    → Upped l (set_holder k2 l none) w k3
    → Released l k k3
unfolding IsLock
Upped-Released l k k2 k3 w lock held r u = record {
  kernel = Upped-IsKernel l (set_holder k2 l none) w k3 u;
  holder = free;
  lock =
      ap (λ o. (k3.semas l).value + once (is_some o)) free
      ∙ omega (arith, lock, ap once held, r.value, u.value);
  priority = u.priority k.current ∙ r.priority;
  donations =
      subst (Retained l (k.threads k.current).donations) (sym (u.donations k.current)) r.donations;
  highest = u.highest;
  apart =
      Apart-trans l k k2 k3 r.apart
        (Apart-trans l k2 (set_holder k2 l none) k3 (set_holder-Apart l k2 none) u.apart);
}
  where
    free : k3.holders l ≡ none
    free = ap (λ (m : ℕ → Option ℕ). m l) u.holders ∙ holder_set k2 l none

Settled-Released :
    (l : ℕ) (k k3 k4 : Kernel) (w : ℕ → Option ℕ)
    → Released l k k3
    → Settled k3 w k4
    → Released l k k4
unfolding IsLock
Settled-Released l k k3 k4 w r z = record {
  kernel = (w, z.kernel);
  holder = ap (λ (m : ℕ → Option ℕ). m l) z.kept.holders ∙ r.holder;
  lock = rw (z.kept.semas, z.kept.holders) r.lock;
  priority = z.kept.priority k.current ∙ r.priority;
  donations =
      subst (Retained l (k.threads k.current).donations) (sym (z.kept.donations k.current))
        r.donations;
  highest = z.highest;
  apart = Apart-trans l k k3 k4 r.apart (Kept-Apart l k3 k4 z.kept);
}

-- Outside interrupts, for a lock of which the semaphore has the value 1 exactly if it has no holder, a
-- call of `lock_release` by the holder that is not interrupted frees the lock. It takes the donations
-- for the lock away and keeps all others, the highest first, and sets the priority of the caller
-- anew: its own or the highest that is still donated, if that is higher. No ready thread has a higher
-- priority than the one that runs afterwards.
pub lock_release-Released :
    (l : ℕ) (k : Kernel) (w : ℕ → Option ℕ)
    → IsKernel k w
    → IsLock l k
    → k.intr_context ≡ false
    → is_thread k.current (k.holders l) ≡ true
    → Returns (Released l k) (lock_release l k)
unfolding lock_release lock_held_by_current_thread
lock_release-Released l k w v lock out held = subst (Returns (Released l k)) (sym eq) (
    Returns-bind (Recalculated l k w) (Released l k)
      (remove_donation_for_lock l k >>= recalc_priority) raise (recalc-Recalculated l k w v)
      λ k2 r.
        Returns-bind (Upped l (set_holder k2 l none) w) (Released l k)
          (sema_up l (set_holder k2 l none)) again
          (sema_up-Upped (set_holder k2 l none) w l (set_holder-IsKernel k2 w l none r.kernel)
            (r.intr_context ∙ out))
          λ k3 u. last k2 k3 r u (k3.current == k.current))
  where
    again : Kernel → Outcome Kernel
    again k3 = if k3.current == k.current then compare_cur_next_priority k3 else ok k3

    raise : Kernel → Outcome Kernel
    raise k2 = sema_up l (set_holder k2 l none) >>= again

    rest : Outcome Kernel
    rest = remove_donation_for_lock l k >>= λ k1. recalc_priority k1 >>= raise

    some_holder : (o : Option ℕ) → is_thread k.current o ≡ true → is_some o ≡ true
    some_holder none h = h
    some_holder (some x) h = refl

    eq : lock_release l k ≡ (remove_donation_for_lock l k >>= recalc_priority >>= raise)
    eq =
        ap (λ m. m >>= (λ cur. ok (is_thread cur (k.holders l))) >>= λ b. assert b >> rest)
          (thread_current_lem k (current_running k w v))
        ∙ ap (λ b. assert b >> rest) held
        ∙ sym (bind_assoc (remove_donation_for_lock l k) recalc_priority raise)

    last :
        (k2 k3 : Kernel)
        → Recalculated l k w k2
        → Upped l (set_holder k2 l none) w k3
        → (b : Bool) → Returns (Released l k) (if b then compare_cur_next_priority k3 else ok k3)
    last k2 k3 r u false = Upped-Released l k k2 k3 w lock (some_holder (k.holders l) held) r u
    last k2 k3 r u true =
        let (w3, v3) = Upped-IsKernel l (set_holder k2 l none) w k3 u in
        Returns-mono (Settled k3 w3) (Released l k) (compare_cur_next_priority k3)
          (compare_cur_next_priority-Settled k3 w3 v3 (u.intr_context ∙ r.intr_context ∙ out))
          λ k4 z.
            Settled-Released l k k3 k4 w3
              (Upped-Released l k k2 k3 w lock (some_holder (k.holders l) held) r u) z
