-- ===== src/Threads/Waking.antt =====
-- threads/synch.c: what `sema_up` does to the threads that wait.
use pintos_filesys.Base.{
  ℕ, ◌+◌, ◌<◌, ◌≡◌, ◌≢◌, ◌⊎◌, refl, arith, ap, sym, ◌∙◌, Bool, true, false, not, ◌&&◌, Option, none,
  some, List, [], ◌∷◌, if◌then◌else◌, ◌==◌, count, once, Bool-cases, inl, inr, ◌>>=◌, subst,
  Returns, Returns-bind, Returns-mono, stable_sort, Sorted, maximum, count-stable_sort,
  stable_sort-Sorted, maximum-front, maximum-stable_sort, wrap32, ℕ_discrete, eq→==, ne→not_==,
  ==_refl,
}
use mathlib.Core.Bool.{false≢true}
use pintos_filesys.Threads.{
  Status, is_ready, is_blocked, Semaphore, Kernel, status_of, priority_of, compare_priority,
  compare_cur_next_priority,
}
use pintos_filesys.Threads.Synch.{set_sema, wake_first, wake, sema_up}
use pintos_filesys.Threads.Shape.{is_on, is_some, IsKernel, Kept}
use pintos_filesys.Threads.Apart.{Apart, Apart-trans, Kept-Apart, set_sema-Apart}
use pintos_filesys.Threads.Scheduling.{not_both}
use pintos_filesys.Threads.Queueing.{Loose, Unblocked, thread_unblock-Unblocked}
use pintos_filesys.Threads.Highest.{Highest, Settled, compare_cur_next_priority-Settled}
use pintos_filesys.Threads.Waiting.{waits, set_value-IsKernel, set_sema-value, set_sema-waiters}

-- A thread that waited, of the highest priority of those that waited, is ready or runs.
pub record Woken (s : ℕ) (k : Kernel) (w : ℕ → Option ℕ) (k' : Kernel) : Type 0 where
  pub thread : ℕ
  pub waited : 0 < count thread (k.semas s).waiters
  pub first : priority_of k thread ≡ maximum (priority_of k) (k.semas s).waiters
  pub now : (thread ≡ k'.current) ⊎ (0 < count thread k'.ready_list)
  pub kernel : IsKernel k' (waits w thread none)

-- Nobody waited.
pub record Unneeded (s : ℕ) (k : Kernel) (w : ℕ → Option ℕ) (k' : Kernel) : Type 0 where
  pub none_waited : (t : ℕ) → count t (k.semas s).waiters ≡ 0
  pub kernel : IsKernel k' w

-- The value is one more, one thread of those that waited goes on, and no ready thread has a higher
-- priority than the one that runs.
pub record Upped (s : ℕ) (k : Kernel) (w : ℕ → Option ℕ) (k' : Kernel) : Type 0 where
  pub value : (k'.semas s).value ≡ wrap32 ((k.semas s).value + 1)
  pub highest : Highest k'
  pub outcome : Woken s k w k' ⊎ Unneeded s k w k'
  pub holders : k'.holders ≡ k.holders
  pub intr_context : k'.intr_context ≡ k.intr_context
  pub priority : (t : ℕ) → priority_of k' t ≡ priority_of k t
  pub donations : (t : ℕ) → (k'.threads t).donations ≡ (k.threads t).donations
  pub apart : Apart s k k'

pub not_ready : (st : Status) → is_blocked st ≡ true → is_ready st ≡ false
not_ready st b = elim (Bool-cases (is_ready st)) [ inl r ↦ absurd (not_both st b r) | inr n ↦ n ]

module _ (k : Kernel) (w : ℕ → Option ℕ) (s t : ℕ) (ts : List ℕ) (v : IsKernel k w)
    (e : stable_sort (compare_priority k) (k.semas s).waiters ≡ t ∷ ts) where
  abbrev popped : Semaphore
  popped = record (k.semas s) { waiters = ts }

  counted : (a : ℕ) → count a (t ∷ ts) ≡ once (is_on s (w a))
  counted a =
      ap (count a) (sym e)
      ∙ count-stable_sort (compare_priority k) a (k.semas s).waiters
      ∙ v.queued.waiting s a

  on_s : is_on s (w t) ≡ true
  unfolding count
  on_s = ground (arith, counted t)

  on_some : (o : Option ℕ) → is_on s o ≡ true → is_some o ≡ true
  on_some none h = h
  on_some (some a) h = refl

  on_other : (s' : ℕ) (o : Option ℕ) → is_on s o ≡ true → s' ≢ s → is_on s' o ≡ false
  on_other s' none h ne = refl
  on_other s' (some a) h ne = ground (arith, h, ne)

  asleep : is_blocked (status_of k t) ≡ true
  asleep = v.queued.asleep t (on_some (w t) on_s)

  waits_blocked :
      (b : Bool) (a : ℕ)
      → is_some (if b then none else w a) ≡ true
      → is_blocked (status_of k a) ≡ true
  waits_blocked true a h = absurd (false≢true h)
  waits_blocked false a h = v.queued.asleep a h

  waits_off : (b : Bool) (a : ℕ) → is_some (w a) ≡ false → is_some (if b then none else w a) ≡ false
  waits_off true a h = refl
  waits_off false a h = h

  -- The list of the semaphore has lost the thread, and no other list had it.
  popped_pick :
      (s' a : ℕ)
      → count a (if s' == s then ts else (k.semas s').waiters) ≡ once (is_on s' (waits w t none a))
  unfolding waits count
  popped_pick s' a = elim (ℕ_discrete a t) [
    | yes same ↦ rw (eq→== a t same) (elim (ℕ_discrete s' s) [
      | yes here ↦
          rw (eq→== s' s here) (ground (arith, counted t, ap once on_s, ap (λ b. count b ts) same))
      | no there ↦ rw (ne→not_== s' s there) (
          v.queued.waiting s' a
          ∙ ap (λ b. once (is_on s' (w b))) same
          ∙ ap once (on_other s' (w t) on_s there))
    ])
    | no other ↦ rw (ne→not_== a t other) (elim (ℕ_discrete s' s) [
      | yes here ↦
          rw (eq→== s' s here)
            (ground (arith, counted a, other, ap (λ b. once (is_on b (w a))) here))
      | no there ↦ rw (ne→not_== s' s there) (v.queued.waiting s' a)
    ])
  ]

  popped-Loose : Loose (set_sema k s popped) (waits w t none) t
  unfolding waits count
  popped-Loose = record {
    out =
        v.queued.ready t
        ∙ ap (λ b. once (b && not (t == k.idle_thread))) (not_ready (status_of k t) asleep);
    ready = λ a ne. v.queued.ready a;
    waiting = λ s' a. ap (count a) (set_sema-waiters k s s' popped) ∙ popped_pick s' a;
    asleep = λ a h. waits_blocked (a == t) a h;
    idle = waits_off (k.idle_thread == t) k.idle_thread v.queued.idle;
    awake = rw (==_refl t) refl;
    not_idle = λ eq.
        false≢true (sym v.queued.idle ∙ ap (λ a. is_some (w a)) (sym eq) ∙ on_some (w t) on_s);
  }

  unblocked : Returns (Unblocked t (set_sema k s popped) (waits w t none)) (wake_first (t ∷ ts) s k)
  unfolding wake_first
  unblocked =
      thread_unblock-Unblocked (set_sema k s popped) (waits w t none) t popped-Loose asleep v.one

  waited_first :
      (0 < count t (k.semas s).waiters)
      × (priority_of k t ≡ maximum (priority_of k) (k.semas s).waiters)
  unfolding count
  waited_first = (
    omega (arith, ap once on_s, v.queued.waiting s t),
    sym (
        sym (maximum-stable_sort (priority_of k) (k.semas s).waiters)
        ∙ ap (maximum (priority_of k)) e
        ∙ maximum-front (priority_of k) t ts (
            subst (Sorted (compare_priority k)) e
              (stable_sort-Sorted (priority_of k) (k.semas s).waiters))),
  )

abbrev incremented : ℕ → Kernel → Kernel
incremented s k = set_sema k s (record (k.semas s) { value = wrap32 ((k.semas s).value + 1) })

incremented-value :
    (k k' : Kernel) (s : ℕ)
    → Kept (incremented s k) k'
    → (k'.semas s).value ≡ wrap32 ((k.semas s).value + 1)
incremented-value k k' s kept =
    ap (λ (m : ℕ → Semaphore). (m s).value) kept.semas
    ∙ set_sema-value k s (record (k.semas s) { value = wrap32 ((k.semas s).value + 1) })

incremented-Apart : (s : ℕ) (k k' : Kernel) → Kept (incremented s k) k' → Apart s k k'
incremented-Apart s k k' kept =
    Apart-trans s k (incremented s k) k'
      (set_sema-Apart s k (record (k.semas s) { value = wrap32 ((k.semas s).value + 1) }))
      (Kept-Apart s (incremented s k) k' kept)

-- Outside interrupts `sema_up` adds one to the value, lets one of the waiting threads go on if there
-- is one, of the highest priority among them, and leaves a thread running that no ready one has a
-- higher priority than. The kernel stays well-formed.
pub sema_up-Upped :
    (k : Kernel) (w : ℕ → Option ℕ) (s : ℕ)
    → IsKernel k w
    → k.intr_context ≡ false
    → Returns (Upped s k w) (sema_up s k)
unfolding sema_up wake count wake_first compare_cur_next_priority
sema_up-Upped k w s v out = go (stable_sort (compare_priority k) (k.semas s).waiters) refl
  where
    go :
        (l : List ℕ)
        → stable_sort (compare_priority k) (k.semas s).waiters ≡ l
        → Returns
            (Upped s k w)
            (wake_first l s k >>= λ k1. compare_cur_next_priority (incremented s k1))
    go [] e =
        Returns-mono (Settled (incremented s k) w) (Upped s k w) _
          (compare_cur_next_priority-Settled (incremented s k) w
            (set_value-IsKernel k w s (wrap32 ((k.semas s).value + 1)) v) out)
          λ k' z. record {
            value = incremented-value k k' s z.kept;
            highest = z.highest;
            outcome = inr (record {
              none_waited = λ t.
                  sym (count-stable_sort (compare_priority k) t (k.semas s).waiters)
                  ∙ ap (count t) e;
              kernel = z.kernel;
            });
            holders = z.kept.holders;
            intr_context = z.kept.intr_context;
            priority = z.kept.priority;
            donations = z.kept.donations;
            apart = incremented-Apart s k k' z.kept;
          }
    go (t ∷ ts) e =
        Returns-bind (Unblocked t (set_sema k s (popped k w s t ts v e)) (waits w t none))
          (Upped s k w) (wake_first (t ∷ ts) s k)
          (λ k1. compare_cur_next_priority (incremented s k1)) (unblocked k w s t ts v e)
          λ k1 u.
            Returns-mono (Settled (incremented s k1) (waits w t none)) (Upped s k w) _
              (compare_cur_next_priority-Settled (incremented s k1) (waits w t none)
                (set_value-IsKernel k1 (waits w t none) s (wrap32 ((k1.semas s).value + 1))
                  u.kernel)
                (u.kept.intr_context ∙ out))
              λ k' z. record {
                value =
                    incremented-value k1 k' s z.kept
                    ∙ ap (λ (m : ℕ → Semaphore). wrap32 ((m s).value + 1)) u.kept.semas
                    ∙ ap (λ n. wrap32 (n + 1)) (set_sema-value k s (popped k w s t ts v e));
                highest = z.highest;
                outcome = inl (record {
                  thread = t;
                  waited = (waited_first k w s t ts v e).0;
                  first = (waited_first k w s t ts v e).1;
                  now = z.stays t u.listed;
                  kernel = z.kernel;
                });
                holders = z.kept.holders ∙ u.kept.holders;
                intr_context = z.kept.intr_context ∙ u.kept.intr_context;
                priority = λ a. z.kept.priority a ∙ u.kept.priority a;
                donations = λ a. z.kept.donations a ∙ u.kept.donations a;
                apart =
                    Apart-trans s k k1 k'
                      (Apart-trans s k (set_sema k s (popped k w s t ts v e)) k1
                        (set_sema-Apart s k (popped k w s t ts v e))
                        (Kept-Apart s (set_sema k s (popped k w s t ts v e)) k1 u.kept))
                      (incremented-Apart s k1 k' z.kept);
              }

-- Some threads wait after it.
pub Upped-IsKernel :
    (s : ℕ) (k : Kernel) (w : ℕ → Option ℕ) (k' : Kernel)
    → Upped s k w k'
    → (v : ℕ → Option ℕ) × IsKernel k' v
Upped-IsKernel s k w k' u = elim u.outcome [
  | inl a ↦ (waits w a.thread none, a.kernel)
  | inr b ↦ (w, b.kernel)
]
