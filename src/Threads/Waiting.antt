-- ===== src/Threads/Waiting.antt =====
-- threads/synch.c: what `sema_down` does to the caller and to the threads that wait.
use pintos_filesys.Base.{
  ℕ, zero, suc, ◌+◌, ◌≡◌, ◌≢◌, refl, arith, ap, sym, ◌∙◌, Bool, true, false, not, Option, none,
  some, List, if◌then◌else◌, ◌==◌, count, once, assert, ◌>>◌, ◌>>=◌, subst, Returns, Returns-bind,
  Outcome, ok, insert_sorted, count-insert_sorted, ℕ_discrete, eq→==, ne→not_==, ==_refl,
}
use mathlib.Core.Bool.{false≢true}
use pintos_filesys.Threads.{Semaphore, Kernel, priority_of, thread_block, compare_priority}
use pintos_filesys.Threads.Synch.{set_sema, wait_on, down_round, sema_down}
use pintos_filesys.Threads.Shape.{is_on, is_some, IsKernel}
use pintos_filesys.Threads.Apart.{Apart, Apart-trans, Kept-Apart, set_sema-Apart}
use pintos_filesys.Threads.Scheduling.{
  Waits, thread_block-IsKernel, current_running, thread_current_lem,
}
use pintos_filesys.Threads.Queueing.{current_awake}

-- What the threads wait on, but for one of them.
unfoldable pub waits : (ℕ → Option ℕ) → ℕ → Option ℕ → ℕ → Option ℕ
waits w t o a = if a == t then o else w a

-- The caller has the semaphore.
pub record Taken (s : ℕ) (k : Kernel) (w : ℕ → Option ℕ) (k' : Kernel) : Type 0 where
  pub kernel : IsKernel k' w
  pub value : (k.semas s).value ≡ suc (k'.semas s).value
  pub current : k'.current ≡ k.current
  pub holders : k'.holders ≡ k.holders
  pub apart : Apart s k k'

-- The caller waits for the semaphore, and another thread runs.
pub record Asleep (s : ℕ) (k : Kernel) (w : ℕ → Option ℕ) (k' : Kernel) : Type 0 where
  pub kernel : IsKernel k' (waits w k.current (some s))
  pub value : (k.semas s).value ≡ 0
  pub still : (k'.semas s).value ≡ 0
  pub holders : k'.holders ≡ k.holders
  pub priority : (t : ℕ) → priority_of k' t ≡ priority_of k t
  pub apart : Apart s k k'

abbrev pub Downed : ℕ → Kernel → (ℕ → Option ℕ) → Bool × Kernel → Type 0
Downed s k w (true, k') = Taken s k w k'
Downed s k w (false, k') = Asleep s k w k'

waiting_pick :
    (s s' cur t : ℕ) (w : ℕ → Option ℕ) (xs ys : List ℕ)
    → is_some (w cur) ≡ false
    → count t xs ≡ once (is_on s (w t)) + (if cur == t then 1 else 0)
    → count t ys ≡ once (is_on s' (w t))
    → count t (if s' == s then xs else ys) ≡ once (is_on s' (waits w cur (some s) t))
unfolding waits
waiting_pick s s' cur t w xs ys free hx hy = elim (ℕ_discrete t cur) [
  | yes same ↦
      let free' : is_some (w t) ≡ false = ap (λ a. is_some (w a)) same ∙ free in
      rw (eq→== t cur same) (elim (ℕ_discrete s' s) [
        | yes here ↦ rw (eq→== s' s here) (
            omega
              (arith, hx, once_off s (w t) free', once_true (cur == t) (eq→== cur t (sym same))))
        | no there ↦ rw (ne→not_== s' s there) (omega (arith, hy, once_off s' (w t) free'))
      ])
  | no other ↦ rw (ne→not_== t cur other) (elim (ℕ_discrete s' s) [
    | yes here ↦ rw (eq→== s' s here) (
        omega (
          arith,
          hx,
          ap (λ a. once (is_on a (w t))) here,
          once_false (cur == t) (ne→not_== cur t λ e. other (sym e)),
        ))
    | no there ↦ rw (ne→not_== s' s there) hy
  ])
]
  where
    once_off : (a : ℕ) (o : Option ℕ) → is_some o ≡ false → once (is_on a o) ≡ 0
    once_off a none h = refl
    once_off a (some x) h = absurd (false≢true (sym h))

    once_true : (b : Bool) → b ≡ true → once b ≡ 1
    once_true b h = ap once h

    once_false : (b : Bool) → b ≡ false → once b ≡ 0
    once_false b h = ap once h

pub set_sema-waiters :
    (k : Kernel) (s s' : ℕ) (x : Semaphore)
    → ((set_sema k s x).semas s').waiters ≡ (if s' == s then x.waiters else (k.semas s').waiters)
set_sema-waiters k s s' x = go (s' == s)
  where
    go :
        (b : Bool)
        → (if b then x else k.semas s').waiters ≡ (if b then x.waiters else (k.semas s').waiters)
    go true = refl
    go false = refl

-- The state in which `thread_block` is called.
wait_on-Waits :
    (k : Kernel) (w : ℕ → Option ℕ) (s : ℕ)
    → IsKernel k w
    → k.current ≢ k.idle_thread
    → Waits
        (set_sema k s (record (k.semas s) {
          waiters = insert_sorted (compare_priority k) k.current (k.semas s).waiters;
        }))
        (waits w k.current (some s))
unfolding waits count
wait_on-Waits k w s v other = record {
  ready = v.queued.ready;
  waiting = λ s' t.
      ap (count t) (set_sema-waiters k s s' x)
      ∙ waiting_pick s s' k.current t w x.waiters (k.semas s').waiters (current_awake k w v)
          (count-insert_sorted (compare_priority k) k.current t (k.semas s).waiters
            ∙ ap (λ n. n + (if k.current == t then 1 else 0)) (v.queued.waiting s t))
          (v.queued.waiting s' t);
  asleep = λ t ne h.
      v.queued.asleep t
        (subst (λ b. is_some (if b then some s else w t) ≡ true) (ne→not_== t k.current ne) h);
  idle = rw (ne→not_== k.idle_thread k.current λ e. other (sym e)) v.queued.idle;
  one = v.one;
}
  where
    x : Semaphore
    x = record (k.semas s) {
      waiters = insert_sorted (compare_priority k) k.current (k.semas s).waiters;
    }

pub set_value-IsKernel :
    (k : Kernel) (w : ℕ → Option ℕ) (s n : ℕ)
    → IsKernel k w
    → IsKernel (set_sema k s (record (k.semas s) { value = n })) w
set_value-IsKernel k w s n v = record {
  queued = record {
    ready = v.queued.ready;
    waiting = λ s' t.
        ap (count t) (set_sema-waiters k s s' (record (k.semas s) { value = n }) ∙ same s')
        ∙ v.queued.waiting s' t;
    asleep = v.queued.asleep;
    idle = v.queued.idle;
  };
  one = v.one;
}
  where
    same :
        (s' : ℕ)
        → (if s' == s then (k.semas s).waiters else (k.semas s').waiters) ≡ (k.semas s').waiters
    same s' = elim (ℕ_discrete s' s) [
      | yes here ↦ rw (eq→== s' s here) (ap (λ a. (k.semas a).waiters) (sym here))
      | no there ↦ rw (ne→not_== s' s there) refl
    ]

pub set_sema-value :
    (k : Kernel) (s : ℕ) (x : Semaphore) → ((set_sema k s x).semas s).value ≡ x.value
set_sema-value k s x = rw (==_refl s) refl

-- `sema_down` takes one from the value if it is positive, and otherwise the caller waits and another
-- thread runs. The kernel stays well-formed.
pub sema_down-Downed :
    (k : Kernel) (w : ℕ → Option ℕ) (s : ℕ)
    → IsKernel k w
    → k.intr_context ≡ false
    → k.current ≢ k.idle_thread
    → Returns (Downed s k w) (sema_down s k)
unfolding sema_down down_round wait_on
sema_down-Downed k w s v out other =
    subst (Returns (Downed s k w))
      (sym (ap (λ b. assert (not b) >> down_round (k.semas s).value s k) out))
      (go (k.semas s).value refl)
  where
    longer : ℕ → Semaphore
    longer cur = record (k.semas s) {
      waiters = insert_sorted (compare_priority k) cur (k.semas s).waiters;
    }

    queued : ℕ → Kernel
    queued cur = set_sema k s (longer cur)

    block : ℕ → Outcome Kernel
    block cur = thread_block (queued cur)

    go : (n : ℕ) → (k.semas s).value ≡ n → Returns (Downed s k w) (down_round n s k)
    go zero e =
        subst (λ m. Returns (Downed s k w) (m >>= block >>= λ k'. ok (false, k')))
          (sym (thread_current_lem k (current_running k w v)))
          (Returns-bind _ (Downed s k w) (block k.current) (λ k'. ok (false, k'))
            (thread_block-IsKernel _ (waits w k.current (some s)) (wait_on-Waits k w s v other) out)
            λ k' (v', kept). record {
              kernel = v';
              value = e;
              still =
                  ap (λ (m : ℕ → Semaphore). (m s).value) kept.semas
                  ∙ set_sema-value k s (longer k.current)
                  ∙ e;
              holders = kept.holders;
              priority = kept.priority;
              apart =
                  Apart-trans s k (queued k.current) k' (set_sema-Apart s k (longer k.current))
                    (Kept-Apart s (queued k.current) k' kept);
            })
    go (suc n) e = record {
      kernel = set_value-IsKernel k w s n v;
      value = e ∙ ap suc (sym (set_sema-value k s (record (k.semas s) { value = n })));
      current = refl;
      holders = refl;
      apart = set_sema-Apart s k (record (k.semas s) { value = n });
    }
