-- ===== src/Threads/Steps/Runs.antt =====
-- Each step of a run keeps the kernel sound, and so does the run.
use pintos_filesys.Base.{
  ℕ, ◌≡◌, ◌≢◌, refl, arith, ap, sym, ◌∙◌, Bool, true, false, Option, none, some, [], once, ok,
  ℕ_discrete, subst, if◌then◌else◌,
}
use mathlib.Core.Bool.{false≢true}
use pintos_filesys.Threads.{
  thread_dying, Semaphore, Kernel, set_status, thread_block, thread_yield, thread_set_priority,
  thread_exit, compare_cur_next_priority,
}
use pintos_filesys.Threads.Synch.{
  set_holder, sema_down, sema_up, remove_donation_for_lock, recalc_priority, lock_taken,
}
use pintos_filesys.Threads.Shape.{is_some, IsKernel}
use pintos_filesys.Threads.Apart.{Apart, set_holder-Apart}
use pintos_filesys.Threads.Scheduling.{thread_block-IsKernel}
use pintos_filesys.Threads.Yielding.{thread_yield-IsKernel}
use pintos_filesys.Threads.Highest.{compare_cur_next_priority-Settled}
use pintos_filesys.Threads.Waiting.{waits, Downed, Taken, Asleep, sema_down-Downed}
use pintos_filesys.Threads.Waking.{Upped, Upped-IsKernel, sema_up-Upped}
use pintos_filesys.Threads.Acquire.{set_holder-IsKernel, holder_set, unheld}
use pintos_filesys.Threads.Steps.{
  Position, outside, taken, holding, freed, is_inside, is_holding, holder_at, Machine, with_kernel,
  moved, Step, yields, blocks, exits, sets, settles, wakes, downs, ups, pends, donates, sleeps,
  takes, tries, holds, holds_tried, drops, recalcs, frees, leaves, Run, done, step, LockSound,
  Sound,
}
use pintos_filesys.Threads.Steps.Calls.{
  IsKernel-Waits, thread_exit-IsKernel, prioritised, thread_set_priority-Settled,
}
use pintos_filesys.Threads.Steps.Locks.{
  LockSound-same, LockSound-moved, LockSound-owner, LockSound-exclusive, position_away,
  free_OnlyOne, inside_OnlyOne,
}
use pintos_filesys.Threads.Steps.Moves.{
  returned, Calm, Kept-Calm, set_thread-Calm, donate_round-Calm, remove_donation_for_lock-Calm,
  recalc_priority-Calm, sema_try_down-sema_down, thread_unblock-Calm, Held, lock_taken-Held,
}

module _ (locks : ℕ → Bool) (m : Machine) (v : Sound locks m) where
  abbrev k0 : Kernel
  k0 = m.kernel

  Calm-Sound : {w' : ℕ → Option ℕ} (k : Kernel) → Calm k0 w' k → Sound locks (with_kernel m k)
  Calm-Sound {w'} k c = record {
    waits_on = w';
    kernel = c.kernel;
    context = c.context ∙ v.context;
    lock = λ l h.
        LockSound-same l m (with_kernel m k) (c.value l) (ap (λ (f : ℕ → Option ℕ). f l) c.holders)
          (λ t. refl) (v.lock l h);
  }

  -- A semaphore that is no lock's.
  plain-Sound :
      (s : ℕ) (w' : ℕ → Option ℕ) (k : Kernel)
      → locks s ≡ false
      → IsKernel k w'
      → Apart s k0 k
      → Sound locks (with_kernel m k)
  plain-Sound s w' k no_lock kernel apart = record {
    waits_on = w';
    kernel = kernel;
    context = apart.context ∙ v.context;
    lock = λ l h.
        let other : l ≢ s = λ e. false≢true (sym no_lock ∙ ap locks (sym e) ∙ h) in
        LockSound-same l m (with_kernel m k) (apart.value l other) (apart.holder l other)
          (λ t. refl) (v.lock l h);
  }

  -- A step of the current thread in its use of a lock, or in waiting for it.
  moved-Sound :
      (l : ℕ) (w' : ℕ → Option ℕ) (k : Kernel) (p : Position)
      → IsKernel k w'
      → Apart l k0 k
      → LockSound l (moved m k k0.current l p)
      → Sound locks (moved m k k0.current l p)
  moved-Sound l w' k p kernel apart own = record {
    waits_on = w';
    kernel = kernel;
    context = apart.context ∙ v.context;
    lock = λ x h. elim (ℕ_discrete x l) [
      | yes same ↦ subst (λ y. LockSound y (moved m k k0.current l p)) (sym same) own
      | no other ↦
          LockSound-same x m (moved m k k0.current l p) (apart.value x other) (apart.holder x other)
            (position_away m k k0.current l x p other) (v.lock x h)
    ];
  }

  Downed-Sound :
      (s : ℕ) (got : Bool) (k : Kernel)
      → locks s ≡ false
      → Downed s k0 v.waits_on (got, k)
      → Sound locks (with_kernel m k)
  Downed-Sound s true k no_lock d = plain-Sound s v.waits_on k no_lock d.kernel d.apart
  Downed-Sound s false k no_lock d =
      plain-Sound s (waits v.waits_on k0.current (some s)) k no_lock d.kernel d.apart

  down :
      (s : ℕ) (got : Bool) (k : Kernel)
      → k0.current ≢ k0.idle_thread
      → sema_down s k0 ≡ ok (got, k)
      → Downed s k0 v.waits_on (got, k)
  down s got k other e =
      returned (Downed s k0 v.waits_on) (sema_down s k0) (got, k)
        (sema_down-Downed k0 v.waits_on s v.kernel v.context other) e

  -- A thread that has come through `sema_down` found nobody inside.
  Taken-Sound :
      (l : ℕ) (k : Kernel)
      → locks l ≡ true
      → Taken l k0 v.waits_on k
      → Sound locks (moved m k k0.current l taken)
  Taken-Sound l k is_lock d =
      let s = v.lock l is_lock in
      let nobody : s.owner ≡ none = unheld s.owner (omega (arith, s.value, d.value)) in
      moved-Sound l v.waits_on k taken d.kernel d.apart (
        LockSound-moved m k k0.current l taken (free_OnlyOne m k0.current l s nobody)
          (omega (arith, s.value, d.value, ap (λ o. once (is_some o)) nobody))
          (ap (λ (f : ℕ → Option ℕ). f l) d.holders
            ∙ s.holder
            ∙ ap (λ o. holder_at o (λ t. m.position t l)) nobody))

  Asleep-Sound : (l : ℕ) (k : Kernel) → Asleep l k0 v.waits_on k → Sound locks (with_kernel m k)
  Asleep-Sound l k d = Calm-Sound k (record {
    kernel = d.kernel;
    value = λ x. elim (ℕ_discrete x l) [
      | yes same ↦ rw same (d.still ∙ sym d.value)
      | no other ↦ d.apart.value x other
    ];
    holders = d.holders;
    context = d.apart.context;
  })

  -- The caller goes on inside the lock, which changes the holder alone.
  inside-Sound :
      (l : ℕ) (k : Kernel) (p : Position)
      → locks l ≡ true
      → is_inside (m.position k0.current l) ≡ true
      → is_inside p ≡ true
      → IsKernel k v.waits_on
      → Apart l k0 k
      → (k.semas l).value ≡ (k0.semas l).value
      → k.holders l ≡ (if is_holding p then some k0.current else none)
      → Sound locks (moved m k k0.current l p)
  inside-Sound l k p is_lock before after kernel apart value holder =
      let s = v.lock l is_lock in
      let own : s.owner ≡ some k0.current = LockSound-owner m k0.current l s before in
      moved-Sound l v.waits_on k p kernel apart (
        LockSound-moved m k k0.current l p (inside_OnlyOne m k0.current l s before)
          (omega (arith, s.value, value, ap once after, ap (λ o. once (is_some o)) own)) holder)

  Held-Sound :
      (l : ℕ) (k : Kernel)
      → locks l ≡ true
      → m.position k0.current l ≡ taken
      → Held l k0 v.waits_on (true, k)
      → Sound locks (moved m k k0.current l holding)
  Held-Sound l k is_lock at h =
      inside-Sound l k holding is_lock (ap is_inside at) refl h.kernel
        (record {
          value = λ x ne. ap (λ (f : ℕ → Semaphore). (f x).value) h.semas;
          holder = λ x ne.
              ap (λ (f : ℕ → Option ℕ). f x) h.holders
              ∙ (set_holder-Apart l k0 (some k0.current)).holder x ne;
          context = h.context;
        })
        (ap (λ (f : ℕ → Semaphore). (f l).value) h.semas)
        (ap (λ (f : ℕ → Option ℕ). f l) h.holders ∙ holder_set k0 l (some k0.current))

  set_holder-Sound :
      (l : ℕ) (p : Position)
      → locks l ≡ true
      → is_inside (m.position k0.current l) ≡ true
      → is_inside p ≡ true
      → Sound locks (
          moved m (set_holder k0 l (if is_holding p then some k0.current else none)) k0.current l p)
  set_holder-Sound l p is_lock before after =
      let o : Option ℕ = if is_holding p then some k0.current else none in
      inside-Sound l (set_holder k0 l o) p is_lock before after
        (set_holder-IsKernel k0 v.waits_on l o v.kernel) (set_holder-Apart l k0 o) refl
        (holder_set k0 l o)

  -- The caller leaves the lock, and the value is 1 again.
  Upped-Sound :
      (l : ℕ) (k : Kernel)
      → locks l ≡ true
      → m.position k0.current l ≡ freed
      → Upped l k0 v.waits_on k
      → Sound locks (moved m k k0.current l outside)
  Upped-Sound l k is_lock at u =
      let s = v.lock l is_lock in
      let inside : is_inside (m.position k0.current l) ≡ true = ap is_inside at in
      let own : s.owner ≡ some k0.current = LockSound-owner m k0.current l s inside in
      let (w', kernel) = Upped-IsKernel l k0 v.waits_on k u in
      moved-Sound l w' k outside kernel u.apart (
        LockSound-moved m k k0.current l outside (inside_OnlyOne m k0.current l s inside)
          (omega (arith, s.value, u.value, ap (λ o. once (is_some o)) own))
          (ap (λ (f : ℕ → Option ℕ). f l) u.holders
            ∙ s.holder
            ∙ ap (λ o. holder_at o (λ t. m.position t l)) own
            ∙ ap (λ q. if is_holding q then some k0.current else none) at))

  -- Each step keeps the kernel sound.
  Step-Sound : (m' : Machine) → Step locks m m' → Sound locks m'
  unfolding prioritised
  Step-Sound _ (yields k e) =
      let (kernel, kept) =
        returned _ (thread_yield k0) k (thread_yield-IsKernel k0 v.waits_on v.kernel v.context) e in
      Calm-Sound k (Kept-Calm k0 v.waits_on k kernel kept)
  Step-Sound _ (blocks k e) =
      let (kernel, kept) =
        returned _ (thread_block k0) k
          (thread_block-IsKernel k0 v.waits_on (IsKernel-Waits k0 v.waits_on v.kernel) v.context)
          e in
      Calm-Sound k (Kept-Calm k0 v.waits_on k kernel kept)
  Step-Sound _ (exits k other e) =
      let (kernel, kept) =
        returned _ (thread_exit k0) k (thread_exit-IsKernel k0 v.waits_on v.kernel v.context) e in
      let c =
        Kept-Calm (set_status (record k0 { destruction_req = [] }) k0.current thread_dying)
          v.waits_on k kernel kept in
      Calm-Sound k
        (record { kernel = kernel; value = c.value; holders = c.holders; context = c.context })
  Step-Sound _ (sets p k e) =
      let z =
        returned _ (thread_set_priority p k0) k
          (thread_set_priority-Settled p k0 v.waits_on v.kernel v.context) e in
      let c = Kept-Calm (prioritised p k0) v.waits_on k z.kernel z.kept in
      Calm-Sound k
        (record { kernel = z.kernel; value = c.value; holders = c.holders; context = c.context })
  Step-Sound _ (settles k e) =
      let z =
        returned _ (compare_cur_next_priority k0) k
          (compare_cur_next_priority-Settled k0 v.waits_on v.kernel v.context) e in
      Calm-Sound k (Kept-Calm k0 v.waits_on k z.kernel z.kept)
  Step-Sound _ (wakes t k busy unwaited e) =
      Calm-Sound k (thread_unblock-Calm k0 k v.waits_on t v.kernel busy unwaited e)
  Step-Sound _ (downs s got k no_lock other e) = Downed-Sound s got k no_lock (down s got k other e)
  Step-Sound _ (ups s k no_lock e) =
      let u = returned _ (sema_up s k0) k (sema_up-Upped k0 v.waits_on s v.kernel v.context) e in
      let (w', kernel) = Upped-IsKernel s k0 v.waits_on k u in
      plain-Sound s w' k no_lock kernel u.apart
  Step-Sound _ (pends l) = Calm-Sound _ (
      set_thread-Calm k0 v.waits_on k0.current
        (record (k0.threads k0.current) { pending_lock = some l }) refl v.kernel)
  Step-Sound _ (donates l k e) =
      Calm-Sound k
        (returned (Calm k0 v.waits_on) _ k (donate_round-Calm k0 v.waits_on l v.kernel) e)
  Step-Sound _ (sleeps l k is_lock other e) = Asleep-Sound l k (down l false k other e)
  Step-Sound _ (takes l k is_lock other e) = Taken-Sound l k is_lock (down l true k other e)
  Step-Sound _ (tries l k is_lock other e) =
      Taken-Sound l k is_lock (down l true k other (sema_try_down-sema_down k0 k l v.context e))
  Step-Sound _ (holds l k is_lock at e) = Held-Sound l k is_lock at (
      returned (Held l k0 v.waits_on) (lock_taken l k0) (true, k)
        (lock_taken-Held k0 v.waits_on l v.kernel) e)
  Step-Sound _ (holds_tried l is_lock at) =
      set_holder-Sound l holding is_lock (ap is_inside at) refl
  Step-Sound _ (drops l k e) = Calm-Sound k (
      returned (Calm k0 v.waits_on) (remove_donation_for_lock l k0) k
        (remove_donation_for_lock-Calm k0 v.waits_on l v.kernel) e)
  Step-Sound _ (recalcs k e) = Calm-Sound k (
      returned (Calm k0 v.waits_on) (recalc_priority k0) k
        (recalc_priority-Calm k0 v.waits_on v.kernel) e)
  Step-Sound _ (frees l is_lock at) = set_holder-Sound l freed is_lock (ap is_inside at) refl
  Step-Sound _ (leaves l k is_lock at e) = Upped-Sound l k is_lock at (
      returned (Upped l k0 v.waits_on) (sema_up l k0) k
        (sema_up-Upped k0 v.waits_on l v.kernel v.context) e)

pub Run-Sound :
    (locks : ℕ → Bool) (m m' : Machine) → Sound locks m → Run locks m m' → Sound locks m'
Run-Sound locks m _ v done = v
Run-Sound locks m _ v (step m' m'' run last) =
    Step-Sound locks m' (Run-Sound locks m m' v run) m'' last

-- In every run from a sound state, with other threads between any two steps of one, two threads that
-- are inside the same lock at the same time, each behind its `sema_down` and not yet behind its
-- `sema_up`, are the same thread.
pub Run-exclusive :
    (locks : ℕ → Bool) (m m' : Machine) (l t u : ℕ)
    → Sound locks m
    → Run locks m m'
    → locks l ≡ true
    → is_inside (m'.position t l) ≡ true
    → is_inside (m'.position u l) ≡ true
    → t ≡ u
Run-exclusive locks m m' l t u v run is_lock in_t in_u =
    LockSound-exclusive m' t u l ((Run-Sound locks m m' v run).lock l is_lock) in_t in_u
