-- ===== src/Threads/Shape.antt =====
-- Well-formed states of the scheduler.
use pintos_filesys.Base.{
  ℕ, ◌≡◌, refl, arith, ap, ◌∙◌, Bool, true, false, not, ◌&&◌, Option, none, some, List,
  if◌then◌else◌, ◌==◌, count, once, ℕ_discrete, sym, eq→==, ne→not_==,
}
use pintos_filesys.Threads.{
  Status, thread_running, is_running, is_ready, is_blocked, Kernel, status_of, priority_of,
  switch_to, reap, set_status,
}

-- Whether a thread that waits on `o` waits on `s`.
abbrev pub is_on : ℕ → Option ℕ → Bool
is_on s none = false
is_on s (some x) = s == x

abbrev pub is_some : Option ℕ → Bool
is_some none = false
is_some (some x) = true

-- The ready list has exactly the ready threads, the idle thread aside, and the list of a semaphore's
-- waiters the threads that `w` says wait on it, each once. A thread that waits is blocked.
pub record Queued (k : Kernel) (w : ℕ → Option ℕ) : Type 0 where
  pub ready :
      (t : ℕ) → count t k.ready_list ≡ once (is_ready (status_of k t) && not (t == k.idle_thread))
  pub waiting : (s t : ℕ) → count t (k.semas s).waiters ≡ once (is_on s (w t))
  pub asleep : (t : ℕ) → is_some (w t) ≡ true → is_blocked (status_of k t) ≡ true
  pub idle : is_some (w k.idle_thread) ≡ false

-- The lists are right, and exactly the current thread is running.
pub record IsKernel (k : Kernel) (w : ℕ → Option ℕ) : Type 0 where
  pub queued : Queued k w
  pub one : (t : ℕ) → is_running (status_of k t) ≡ (t == k.current)

-- The lists are right, and no thread is running.
pub record Stopped (k : Kernel) (w : ℕ → Option ℕ) : Type 0 where
  pub queued : Queued k w
  pub all : (t : ℕ) → is_running (status_of k t) ≡ false

-- What scheduling keeps.
pub record Kept (k k' : Kernel) : Type 0 where
  pub priority : (t : ℕ) → priority_of k' t ≡ priority_of k t
  pub donations : (t : ℕ) → (k'.threads t).donations ≡ (k.threads t).donations
  pub semas : k'.semas ≡ k.semas
  pub holders : k'.holders ≡ k.holders
  pub idle_thread : k'.idle_thread ≡ k.idle_thread
  pub intr_context : k'.intr_context ≡ k.intr_context

pub Kept-refl : (k : Kernel) → Kept k k
Kept-refl k = record {
  priority = λ t. refl;
  donations = λ t. refl;
  semas = refl;
  holders = refl;
  idle_thread = refl;
  intr_context = refl;
}

pub Kept-trans : (k l m : Kernel) → Kept k l → Kept l m → Kept k m
Kept-trans k l m a b = record {
  priority = λ t. b.priority t ∙ a.priority t;
  donations = λ t. b.donations t ∙ a.donations t;
  semas = b.semas ∙ a.semas;
  holders = b.holders ∙ a.holders;
  idle_thread = b.idle_thread ∙ a.idle_thread;
  intr_context = b.intr_context ∙ a.intr_context;
}

-- What `switch_to` does.
pub record Switched (next : ℕ) (k k' : Kernel) : Type 0 where
  pub current : k'.current ≡ next
  pub status : (t : ℕ) → status_of k' t ≡ (if t == next then thread_running else status_of k t)
  pub ready_list : k'.ready_list ≡ k.ready_list
  pub kept : Kept k k'

-- A new status changes that and nothing else.
pub set_status-priority :
    (k : Kernel) (a t : ℕ) (s : Status) → priority_of (set_status k a s) t ≡ priority_of k t
set_status-priority k a t s = elim (ℕ_discrete t a) [
  | yes same ↦ ground (arith, same, ap (priority_of k) same)
  | no other ↦ ground (arith, other)
]

pub set_status-donations :
    (k : Kernel) (a t : ℕ) (s : Status)
    → ((set_status k a s).threads t).donations ≡ (k.threads t).donations
set_status-donations k a t s = elim (ℕ_discrete t a) [
  | yes same ↦ rw (eq→== t a same) (ap (λ b. (k.threads b).donations) (sym same))
  | no other ↦ rw (ne→not_== t a other) refl
]

pub set_status-status :
    (k : Kernel) (a t : ℕ) (s : Status)
    → status_of (set_status k a s) t ≡ (if t == a then s else status_of k t)
set_status-status k a t s = go (t == a)
  where
    go :
        (b : Bool)
        → (if b then record (k.threads a) { status = s } else k.threads t).status
          ≡ (if b then s else status_of k t)
    go true = refl
    go false = refl

pub set_status-Kept : (k : Kernel) (a : ℕ) (s : Status) → Kept k (set_status k a s)
set_status-Kept k a s = record {
  priority = λ t. set_status-priority k a t s;
  donations = λ t. set_status-donations k a t s;
  semas = refl;
  holders = refl;
  idle_thread = refl;
  intr_context = refl;
}

-- Nothing that is kept depends on the time, the requests and the current thread.
Kept-switch :
    (k l : Kernel) (next : ℕ) (reqs : List ℕ)
    → Kept k l
    → Kept k (record l { current = next; thread_ticks = 0; destruction_req = reqs })
Kept-switch k l next reqs a = record {
  priority = a.priority;
  donations = a.donations;
  semas = a.semas;
  holders = a.holders;
  idle_thread = a.idle_thread;
  intr_context = a.intr_context;
}

pub switch_to-Switched : (next : ℕ) (k : Kernel) → Switched next k (switch_to next k)
unfolding switch_to reap
switch_to-Switched next k = pick (k.current == next) _ _ (λ e. ground (arith, e))
  where
    k1 : Kernel
    k1 = record (set_status k next thread_running) { thread_ticks = 0 }

    pick :
        (same dead : Bool) (reqs : List ℕ)
        → (same ≡ true → k.current ≡ next)
        → Switched next k (
            if same
            then k1
            else record (if dead then record k1 { destruction_req = reqs } else k1) {
              current = next;
            })
    pick true dead reqs e = record {
      current = e refl;
      status = λ t. set_status-status k next t thread_running;
      ready_list = refl;
      kept =
          Kept-switch k (set_status k next thread_running) k.current (k.destruction_req)
            (set_status-Kept k next thread_running);
    }
    pick false true reqs e = record {
      current = refl;
      status = λ t. set_status-status k next t thread_running;
      ready_list = refl;
      kept =
          Kept-switch k (set_status k next thread_running) next (reqs)
            (set_status-Kept k next thread_running);
    }
    pick false false reqs e = record {
      current = refl;
      status = λ t. set_status-status k next t thread_running;
      ready_list = refl;
      kept =
          Kept-switch k (set_status k next thread_running) next (k.destruction_req)
            (set_status-Kept k next thread_running);
    }
