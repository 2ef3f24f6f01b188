-- ===== src/Threads/Donations.antt =====
-- threads/synch.c: the donations that `lock_acquire` makes along the chain of locks.
use pintos_filesys.Base.{
  ℕ, zero, suc, ◌≤◌, ◌≡◌, refl, arith, ap, sym, ◌∙◌, Bool, true, false, Option, none, some, count,
  Returns, Returns-mono, Outcome, ok, stable_sort, count-stable_sort, ℕ_discrete, dec_lt, lt→ltb,
  le→not_ltb, eq→==, ne→not_==, ==_refl,
}
use pintos_filesys.Threads.{
  is_running, Thread, Donation, Semaphore, Kernel, status_of, priority_of, set_thread,
  thread_get_priority, compare_priority,
}
use pintos_filesys.Threads.Synch.{create_donation, donated, sort_waiters, donate_round, donate_loop}
use pintos_filesys.Threads.Scheduling.{thread_current_lem}
use pintos_filesys.Threads.Waiting.{set_sema-waiters}

-- What donations keep: all but the priorities, which only rise, the lists of donations, and the order
-- of the waiters.
pub record Donated (k k' : Kernel) : Type 0 where
  pub current : k'.current ≡ k.current
  pub ready_list : k'.ready_list ≡ k.ready_list
  pub idle_thread : k'.idle_thread ≡ k.idle_thread
  pub intr_context : k'.intr_context ≡ k.intr_context
  pub holders : k'.holders ≡ k.holders
  pub all_list : k'.all_list ≡ k.all_list
  pub destruction_req : k'.destruction_req ≡ k.destruction_req
  pub initial_thread : k'.initial_thread ≡ k.initial_thread
  pub thread_ticks : k'.thread_ticks ≡ k.thread_ticks
  pub next_tid : k'.next_tid ≡ k.next_tid
  pub yield_on_return : k'.yield_on_return ≡ k.yield_on_return
  pub conds : k'.conds ≡ k.conds
  pub status : (t : ℕ) → status_of k' t ≡ status_of k t
  pub original : (t : ℕ) → (k'.threads t).original_priority ≡ (k.threads t).original_priority
  pub tid : (t : ℕ) → (k'.threads t).tid ≡ (k.threads t).tid
  pub children : (t : ℕ) → (k'.threads t).children_list ≡ (k.threads t).children_list
  pub pending : (t : ℕ) → (k'.threads t).pending_lock ≡ (k.threads t).pending_lock
  pub value : (s : ℕ) → (k'.semas s).value ≡ (k.semas s).value
  pub waiters : (s t : ℕ) → count t (k'.semas s).waiters ≡ count t (k.semas s).waiters
  pub raised : (t : ℕ) → priority_of k t ≤ priority_of k' t

Donated-refl : (k : Kernel) → Donated k k
Donated-refl k = record {
  current = refl;
  ready_list = refl;
  idle_thread = refl;
  intr_context = refl;
  holders = refl;
  all_list = refl;
  destruction_req = refl;
  initial_thread = refl;
  thread_ticks = refl;
  next_tid = refl;
  yield_on_return = refl;
  conds = refl;
  status = λ t. refl;
  original = λ t. refl;
  tid = λ t. refl;
  children = λ t. refl;
  pending = λ t. refl;
  value = λ s. refl;
  waiters = λ s t. refl;
  raised = λ t. omega arith;
}

Donated-trans : (k l m : Kernel) → Donated k l → Donated l m → Donated k m
Donated-trans k l m a b = record {
  current = b.current ∙ a.current;
  ready_list = b.ready_list ∙ a.ready_list;
  idle_thread = b.idle_thread ∙ a.idle_thread;
  intr_context = b.intr_context ∙ a.intr_context;
  holders = b.holders ∙ a.holders;
  all_list = b.all_list ∙ a.all_list;
  destruction_req = b.destruction_req ∙ a.destruction_req;
  initial_thread = b.initial_thread ∙ a.initial_thread;
  thread_ticks = b.thread_ticks ∙ a.thread_ticks;
  next_tid = b.next_tid ∙ a.next_tid;
  yield_on_return = b.yield_on_return ∙ a.yield_on_return;
  conds = b.conds ∙ a.conds;
  status = λ t. b.status t ∙ a.status t;
  original = λ t. b.original t ∙ a.original t;
  tid = λ t. b.tid t ∙ a.tid t;
  children = λ t. b.children t ∙ a.children t;
  pending = λ t. b.pending t ∙ a.pending t;
  value = λ s. b.value s ∙ a.value s;
  waiters = λ s t. b.waiters s t ∙ a.waiters s t;
  raised = λ t. omega (arith, a.raised t, b.raised t);
}

-- A field of a thread that the change of thread `h` keeps.
pub kept_field :
    {A : Type 0} (k : Kernel) (h : ℕ) (x : Thread) (f : Thread → A)
    → f x ≡ f (k.threads h)
    → (t : ℕ) → f ((set_thread k h x).threads t) ≡ f (k.threads t)
kept_field k h x f same t = elim (ℕ_discrete t h) [
  | yes here ↦ rw (eq→== t h here) (same ∙ ap (λ a. f (k.threads a)) (sym here))
  | no there ↦ rw (ne→not_== t h there) refl
]

set_thread-Donated :
    (k : Kernel) (h : ℕ) (d : Donation) → Donated k (set_thread k h (donated d (k.threads h)))
set_thread-Donated k h d = record {
  current = refl;
  ready_list = refl;
  idle_thread = refl;
  intr_context = refl;
  holders = refl;
  all_list = refl;
  destruction_req = refl;
  initial_thread = refl;
  thread_ticks = refl;
  next_tid = refl;
  yield_on_return = refl;
  conds = refl;
  status = kept_field k h (donated d (k.threads h)) (λ x. x.status) refl;
  original = kept_field k h (donated d (k.threads h)) (λ x. x.original_priority) refl;
  tid = kept_field k h (donated d (k.threads h)) (λ x. x.tid) refl;
  children = kept_field k h (donated d (k.threads h)) (λ x. x.children_list) refl;
  pending = kept_field k h (donated d (k.threads h)) (λ x. x.pending_lock) refl;
  value = λ s. refl;
  waiters = λ s t. refl;
  raised = λ t. elim (ℕ_discrete t h) [
    | yes here ↦ rw (priority_of, eq→== t h here) (ground (arith, ap (priority_of k) here))
    | no there ↦ rw (priority_of, ne→not_== t h there) (omega arith)
  ];
}

sort_waiters-Donated : (o : Option ℕ) (k : Kernel) → Donated k (sort_waiters o k)
sort_waiters-Donated none k = Donated-refl k
sort_waiters-Donated (some l) k = record {
  current = refl;
  ready_list = refl;
  idle_thread = refl;
  intr_context = refl;
  holders = refl;
  all_list = refl;
  destruction_req = refl;
  initial_thread = refl;
  thread_ticks = refl;
  next_tid = refl;
  yield_on_return = refl;
  conds = refl;
  status = λ t. refl;
  original = λ t. refl;
  tid = λ t. refl;
  children = λ t. refl;
  pending = λ t. refl;
  value = λ s. elim (ℕ_discrete s l) [
    | yes here ↦ rw (eq→== s l here) (ap (λ a. (k.semas a).value) (sym here))
    | no there ↦ rw (ne→not_== s l there) refl
  ];
  waiters = λ s t. ap (count t) (set_sema-waiters k l s sorted) ∙ elim (ℕ_discrete s l) [
    | yes here ↦ rw (eq→== s l here) (
        count-stable_sort (compare_priority k) t (k.semas l).waiters
        ∙ ap (λ a. count t (k.semas a).waiters) (sym here))
    | no there ↦ rw (ne→not_== s l there) refl
  ];
  raised = λ t. omega arith;
}
  where
    sorted : Semaphore
    sorted = record (k.semas l) { waiters = stable_sort (compare_priority k) (k.semas l).waiters }

-- Whether the chain ends behind a lock with the given holder.
unfoldable pub holder_ends : (holder : Option ℕ) (rest : Option ℕ → Bool) → Kernel → Bool
holder_ends none rest k = true
holder_ends (some h) rest k = rest (k.threads h).pending_lock

-- Whether the chain of locks ends, at a lock that nobody holds or a holder that waits for none, after
-- at most `n` locks.
unfoldable pub chain_ends : (n : ℕ) → Option ℕ → Kernel → Bool
chain_ends n none k = true
chain_ends zero (some l) k = false
chain_ends (suc n) (some l) k = holder_ends (k.holders l) (λ o. chain_ends n o k) k

-- The holder of a lock has at least the priority.
abbrev pub Outranks : Option ℕ → (p : ℕ) → Kernel → Type 0
Outranks none p k = Unit
Outranks (some h) p k = p ≤ priority_of k h

-- What the loop does for the lock.
LoopDone : Option ℕ → ℕ → Kernel → Kernel → Type 0
LoopDone none p k k' = Donated k k'
LoopDone (some l) p k k' = Donated k k' × Outranks (k.holders l) p k'

LoopDone-Donated : (o : Option ℕ) (p : ℕ) (k k' : Kernel) → LoopDone o p k k' → Donated k k'
unfolding LoopDone
LoopDone-Donated none p k k' d = d
LoopDone-Donated (some l) p k k' d = d.0

holder_ends-Donated :
    (hd : Option ℕ) (f g : Option ℕ → Bool) (k k' : Kernel)
    → Donated k k'
    → ((o : Option ℕ) → f o ≡ g o)
    → holder_ends hd f k' ≡ holder_ends hd g k
unfolding holder_ends
holder_ends-Donated none f g k k' d same = refl
holder_ends-Donated (some h) f g k k' d same = ap f (d.pending h) ∙ same (k.threads h).pending_lock

chain_ends-Donated :
    (n : ℕ) (o : Option ℕ) (k k' : Kernel) → Donated k k' → chain_ends n o k' ≡ chain_ends n o k
unfolding chain_ends
chain_ends-Donated n none k k' d = refl
chain_ends-Donated zero (some l) k k' d = refl
chain_ends-Donated (suc n) (some l) k k' d =
    ap (λ (m : ℕ → Option ℕ). holder_ends (m l) (λ o. chain_ends n o k') k') d.holders
    ∙ holder_ends-Donated (k.holders l) (λ o. chain_ends n o k') (λ o. chain_ends n o k) k k' d
        λ o. chain_ends-Donated n o k k' d

module _ (cur l : ℕ) (k : Kernel) (at : cur ≡ k.current)
    (run : is_running (status_of k k.current) ≡ true) where
  gift : Donation
  gift = record { priority = priority_of k k.current; donor = cur; lock = l }

  given : ℕ → Kernel
  given h = set_thread k h (donated gift (k.threads h))

  after : ℕ → Kernel
  after h = sort_waiters ((given h).threads h).pending_lock (given h)

  after-Donated : (h : ℕ) → Donated k (after h)
  unfolding after given
  after-Donated h =
      Donated-trans k (given h) (after h) (set_thread-Donated k h gift)
        (sort_waiters-Donated ((given h).threads h).pending_lock (given h))

  given-priority : (h : ℕ) → priority_of k k.current ≤ priority_of (given h) h
  unfolding given gift
  given-priority h = rw (priority_of, ==_refl h) (ground arith)

  after-priority : (h : ℕ) → priority_of k cur ≤ priority_of (after h) h
  unfolding after
  after-priority h = omega (
    arith,
    given-priority h,
    ap (priority_of k) at,
    (sort_waiters-Donated ((given h).threads h).pending_lock (given h)).raised h,
  )

  round-done :
      (hd : Option ℕ) (rest : Option ℕ → Kernel → Outcome Kernel)
      → ((h : ℕ)
          → hd ≡ some h
          → Returns (Donated (after h)) (rest ((given h).threads h).pending_lock (after h)))
      → Returns
          (λ k'. Donated k k' × Outranks hd (priority_of k cur) k')
          (donate_round hd rest true cur l k)
  unfolding donate_round create_donation thread_get_priority after given gift
  round-done none rest e = (Donated-refl k, tt)
  round-done (some h) rest e =
      rw (thread_current_lem k run) (elim (dec_lt (priority_of k k.current) (priority_of k h)) [
        | yes lt ↦
            rw (lt→ltb (priority_of k k.current) (priority_of k h) lt)
              (Donated-refl k, omega (arith, lt, ap (priority_of k) at))
        | no ge ↦ rw (le→not_ltb (priority_of k k.current) (priority_of k h) (omega arith)) (
            Returns-mono (Donated (after h))
              (λ k'. Donated k k' × (priority_of k cur ≤ priority_of k' h)) _ (e h refl)
              λ k' d. (
                Donated-trans k (after h) k' (after-Donated h) d,
                omega (arith, after-priority h, d.raised h),
              ))
      ])

donate_loop-LoopDone :
    (n cur : ℕ) (o : Option ℕ) (k : Kernel)
    → cur ≡ k.current
    → is_running (status_of k k.current) ≡ true
    → chain_ends n o k ≡ true
    → Returns (LoopDone o (priority_of k cur) k) (donate_loop n true cur o k)
unfolding donate_loop chain_ends LoopDone holder_ends given
donate_loop-LoopDone n cur none k at run ends = Donated-refl k
donate_loop-LoopDone zero cur (some l) k at run ends = absurd (ground (arith, ends))
donate_loop-LoopDone (suc n) cur (some l) k at run ends =
    round-done cur l k at run (k.holders l) (donate_loop n true cur) λ h e.
      let k2 = after cur l k at run h in
      let d = after-Donated cur l k at run h in
      let o = ((given cur l k at run h).threads h).pending_lock in
      Returns-mono (LoopDone o (priority_of k2 cur) k2) (Donated k2) (donate_loop n true cur o k2)
        (donate_loop-LoopDone n cur o k2 (at ∙ sym d.current)
          (ap is_running (ap (status_of k2) d.current ∙ d.status k.current) ∙ run)
          (chain_ends-Donated n o k k2 d
            ∙ ap (λ x. chain_ends n x k) ((set_thread-Donated k h (gift cur l k at run)).pending h)
            ∙ ap (λ hd. holder_ends hd (λ x. chain_ends n x k) k) (sym e)
            ∙ ends))
        λ k' r. LoopDone-Donated o (priority_of k2 cur) k2 k' r

-- On a chain of locks that ends, with memory, the loop of `lock_acquire` ends when it is not
-- interrupted. It raises priorities only, the holder's at least to that of the current thread, and
-- keeps all else of the kernel but the order of the waiters and the lists of donations.
pub donate_loop-Outranks :
    (n l : ℕ) (k : Kernel)
    → is_running (status_of k k.current) ≡ true
    → chain_ends n (some l) k ≡ true
    → Returns
        (λ k'. Donated k k' × Outranks (k.holders l) (priority_of k k.current) k')
        (donate_loop n true k.current (some l) k)
unfolding LoopDone
donate_loop-Outranks n l k run ends = donate_loop-LoopDone n k.current (some l) k refl run ends

-- A round of the loop, at any lock.
pub donate_round-Donated :
    (k : Kernel) (l : ℕ)
    → is_running (status_of k k.current) ≡ true
    → Returns (Donated k) (donate_round (k.holders l) (λ next k1. ok k1) true k.current l k)
donate_round-Donated k l run =
    Returns-mono (λ k'. Donated k k' × Outranks (k.holders l) (priority_of k k.current) k')
      (Donated k) _
      (round-done k.current l k refl run (k.holders l) (λ next k1. ok k1)
        λ h e. Donated-refl (after k.current l k refl run h))
      λ k' r. r.0
