-- ===== src/Threads/Queueing.antt =====
-- threads/thread.c: the operations that put a thread into the ready list.
use pintos_filesys.Base.{
  ℕ, ◌<◌, ◌≡◌, refl, arith, ap, sym, ◌∙◌, Bool, true, false, not, ◌&&◌, Option, List, ◌∷◌,
  if◌then◌else◌, ◌==◌, count, once, Bool-cases, inl, inr, ℕ_discrete, assert, ◌>>◌, subst, Returns,
  ok, count-insert_sorted, ne→not_==, ==_refl, ◌≢◌,
}
use mathlib.Core.Bool.{false≢true}
use pintos_filesys.Threads.{
  Status, thread_running, thread_ready, thread_blocked, thread_dying, is_running, is_ready,
  is_blocked, Kernel, status_of, set_status, thread_unblock, enqueue, compare_priority,
}
use pintos_filesys.Threads.Shape.{
  is_on, is_some, Queued, IsKernel, Kept, set_status-status, set_status-priority,
  set_status-donations,
}
use pintos_filesys.Threads.Scheduling.{current_running, status_cases}

-- What holds of a kernel with the lists right but for one thread that is in none.
pub record Loose (k : Kernel) (w : ℕ → Option ℕ) (t : ℕ) : Type 0 where
  pub out : count t k.ready_list ≡ 0
  pub ready :
      (x : ℕ)
      → x ≢ t
      → count x k.ready_list ≡ once (is_ready (status_of k x) && not (x == k.idle_thread))
  pub waiting : (s x : ℕ) → count x (k.semas s).waiters ≡ once (is_on s (w x))
  pub asleep : (x : ℕ) → is_some (w x) ≡ true → is_blocked (status_of k x) ≡ true
  pub idle : is_some (w k.idle_thread) ≡ false
  pub awake : is_some (w t) ≡ false
  pub not_idle : t ≢ k.idle_thread

enqueued-Kept : (k : Kernel) (t : ℕ) → Kept k (set_status (enqueue t k) t thread_ready)
enqueued-Kept k t = record {
  priority = λ x. set_status-priority (enqueue t k) t x thread_ready;
  donations = λ x. set_status-donations (enqueue t k) t x thread_ready;
  semas = refl;
  holders = refl;
  idle_thread = refl;
  intr_context = refl;
}

-- The thread becomes ready and goes into the ready list.
pub enqueued-Queued :
    (k : Kernel) (w : ℕ → Option ℕ) (t : ℕ)
    → Loose k w t
    → Queued (set_status (enqueue t k) t thread_ready) w
unfolding count
enqueued-Queued k w t v = record {
  ready = λ x. rw (set_status-status (enqueue t k) t x thread_ready) (
      count-insert_sorted (compare_priority k) t x k.ready_list ∙ elim (ℕ_discrete x t) [
        | yes same ↦
            rw (same, ==_refl t, ne→not_== t k.idle_thread v.not_idle)
              (omega (arith, v.out, ap (λ a. count a k.ready_list) same))
        | no other ↦ rw (ne→not_== x t other) (ground (arith, other, v.ready x other))
      ]);
  waiting = v.waiting;
  asleep = λ x h. rw (set_status-status (enqueue t k) t x thread_ready) (elim (ℕ_discrete x t) [
    | yes same ↦ absurd (false≢true (sym v.awake ∙ ap (λ a. is_some (w a)) (sym same) ∙ h))
    | no other ↦ rw (ne→not_== x t other) (v.asleep x h)
  ]);
  idle = v.idle;
}

unblocked_pick :
    (s : Status) (b c : Bool)
    → is_running s ≡ c
    → (b ≡ true → c ≡ false)
    → is_running (if b then thread_ready else s) ≡ c
unblocked_pick s true c h n = sym (n refl)
unblocked_pick s false c h n = h

not_running : (s : Status) → is_blocked s ≡ true → is_running s ≡ false
not_running thread_running b = absurd (false≢true b)
not_running thread_ready b = refl
not_running thread_blocked b = refl
not_running thread_dying b = refl

-- A blocked thread becomes ready and the current one runs on.
pub record Unblocked (t : ℕ) (k : Kernel) (w : ℕ → Option ℕ) (k' : Kernel) : Type 0 where
  pub kernel : IsKernel k' w
  pub kept : Kept k k'
  pub current : k'.current ≡ k.current
  pub now : status_of k' t ≡ thread_ready
  pub listed : 0 < count t k'.ready_list

pub thread_unblock-Unblocked :
    (k : Kernel) (w : ℕ → Option ℕ) (t : ℕ)
    → Loose k w t
    → is_blocked (status_of k t) ≡ true
    → ((x : ℕ) → is_running (status_of k x) ≡ (x == k.current))
    → Returns (Unblocked t k w) (thread_unblock t k)
unfolding thread_unblock count
thread_unblock-Unblocked k w t v sleeps one =
    subst (Returns (Unblocked t k w))
      (sym (ap (λ b. assert b >> ok (set_status (enqueue t k) t thread_ready)) sleeps))
      (record {
        kernel = record {
          queued = enqueued-Queued k w t v;
          one = λ x. rw (set_status-status (enqueue t k) t x thread_ready) (
              unblocked_pick (status_of k x) (x == t) (x == k.current) (one x)
                λ e. rw (equal x e) (sym (one t) ∙ not_running (status_of k t) sleeps));
        };
        kept = enqueued-Kept k t;
        current = refl;
        now = rw (set_status-status (enqueue t k) t t thread_ready, ==_refl t) refl;
        listed =
            omega (arith, count-insert_sorted (compare_priority k) t t k.ready_list, front k t);
      })
  where
    front : (k : Kernel) (t : ℕ) → 0 < count t (t ∷ k.ready_list)
    front k t = ground arith

    equal : (x : ℕ) → (x == t) ≡ true → x ≡ t
    equal x e = ground (arith, e)

-- The running thread waits for nothing.
pub current_awake : (k : Kernel) (w : ℕ → Option ℕ) → IsKernel k w → is_some (w k.current) ≡ false
current_awake k w v = elim (Bool-cases (is_some (w k.current))) [
  | inl on ↦ absurd (
      false≢true (
        sym (not_running (status_of k k.current) (v.queued.asleep k.current on))
        ∙ current_running k w v))
  | inr off ↦ off
]

-- The current thread is in no list.
pub current-Loose :
    (k : Kernel) (w : ℕ → Option ℕ) → IsKernel k w → k.current ≢ k.idle_thread → Loose k w k.current
current-Loose k w v other = record {
  out =
      v.queued.ready k.current
      ∙ rw (status_cases (status_of k k.current) (current_running k w v)) refl;
  ready = λ x ne. v.queued.ready x;
  waiting = v.queued.waiting;
  asleep = v.queued.asleep;
  idle = v.queued.idle;
  awake = current_awake k w v;
  not_idle = other;
}

pub Queued-reqs :
    (k : Kernel) (w : ℕ → Option ℕ) (reqs : List ℕ)
    → Queued k w
    → Queued (record k { destruction_req = reqs }) w
Queued-reqs k w reqs v = record {
  ready = v.ready;
  waiting = v.waiting;
  asleep = v.asleep;
  idle = v.idle;
}
