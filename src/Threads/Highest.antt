-- ===== src/Threads/Highest.antt =====
-- threads/thread.c, `compare_cur_next_priority`: after it no ready thread has a higher priority than
-- the one that runs.
use pintos_filesys.Base.{
  ℕ, ◌≤◌, ◌<◌, ◌≡◌, ◌≢◌, ◌⊎◌, refl, arith, ap, sym, ◌∙◌, Bool, true, false, not, Option, List, [],
  ◌∷◌, if◌then◌else◌, ◌==◌, ltb, count, inl, inr, assert, ◌>>◌, ◌>>=◌, subst, Returns, Returns-mono,
  Outcome, ok, insert_sorted, stable_sort, Sorted, count-insert_sorted, count-stable_sort,
  stable_sort-Sorted, maximum-front, count-maximum, dec_lt, lt→ltb, le→not_ltb, ℕ_discrete,
}
use pintos_filesys.Threads.{
  is_running, Kernel, status_of, priority_of, switch_to, schedule, next_thread_to_run, thread_yield,
  compare_priority, compare_front, compare_cur_next_priority,
}
use pintos_filesys.Threads.Shape.{
  IsKernel, Kept, Kept-refl, Kept-trans, Switched, switch_to-Switched,
}
use pintos_filesys.Threads.Scheduling.{current_running, thread_current_lem}
use pintos_filesys.Threads.Yielding.{
  yielded, yielded-Stopped, thread_yield-schedule, thread_yield-IsKernel,
}

-- No ready thread has a higher priority than the current one.
pub Highest : Kernel → Type 0
Highest k = (t : ℕ) → 0 < count t k.ready_list → priority_of k t ≤ priority_of k k.current

-- A well-formed kernel with the same priorities, semaphores and holders, and the current thread one
-- of the highest priority.
pub record Settled (k : Kernel) (w : ℕ → Option ℕ) (k' : Kernel) : Type 0 where
  pub kernel : IsKernel k' w
  pub kept : Kept k k'
  pub highest : Highest k'
  pub stays : (t : ℕ) → 0 < count t k.ready_list → (t ≡ k'.current) ⊎ (0 < count t k'.ready_list)

schedule-front :
    (k : Kernel) (t : ℕ) (ts : List ℕ)
    → k.ready_list ≡ t ∷ ts
    → is_running (status_of k k.current) ≡ false
    → schedule k ≡ ok (switch_to t (record k { ready_list = ts }))
unfolding schedule next_thread_to_run
schedule-front k t ts e stop =
    ap (λ l. schedule (record k { ready_list = l })) e
    ∙ ap (λ b. assert (not b) >> ok (switch_to t (record k { ready_list = ts }))) stop

resorted-IsKernel :
    (k : Kernel) (w : ℕ → Option ℕ) (l : List ℕ)
    → IsKernel k w
    → ((t : ℕ) → count t l ≡ count t k.ready_list)
    → IsKernel (record k { ready_list = l }) w
resorted-IsKernel k w l v same = record {
  queued = record {
    ready = λ t. same t ∙ v.queued.ready t;
    waiting = v.queued.waiting;
    asleep = v.queued.asleep;
    idle = v.queued.idle;
  };
  one = v.one;
}

resorted-Kept : (k : Kernel) (l : List ℕ) → Kept k (record k { ready_list = l })
resorted-Kept k l = record {
  priority = λ t. refl;
  donations = λ t. refl;
  semas = refl;
  holders = refl;
  idle_thread = refl;
  intr_context = refl;
}

-- What is left of the ready list when the front has been taken.
record Behind (k : Kernel) (front : ℕ) (r : List ℕ) (idle : Bool) : Type 0 where
  rest : List ℕ
  list : (yielded idle k).ready_list ≡ front ∷ rest
  from : (x : ℕ) → count x rest ≤ count x (k.current ∷ r)
  keeps : (x : ℕ) → count x r ≤ count x rest

yielded-Behind :
    (idle : Bool) (k : Kernel) (front : ℕ) (r : List ℕ)
    → k.ready_list ≡ front ∷ r
    → priority_of k k.current < priority_of k front
    → Behind k front r idle
unfolding count
yielded-Behind true k front r e lt = record {
  rest = r;
  list = e;
  from = λ x. omega arith;
  keeps = λ x. omega arith;
}
yielded-Behind false k front r e lt = record {
  rest = insert_sorted (compare_priority k) k.current r;
  list =
      ap (insert_sorted (compare_priority k) k.current) e
      ∙ ap
          (λ b.
            if b
            then k.current ∷ front ∷ r
            else front ∷ insert_sorted (compare_priority k) k.current r)
          (le→not_ltb (priority_of k front) (priority_of k k.current) (omega arith));
  from = λ x. omega (arith, count-insert_sorted (compare_priority k) k.current x r);
  keeps = λ x. omega (arith, count-insert_sorted (compare_priority k) k.current x r);
}

module _ (k : Kernel) (w : ℕ → Option ℕ) (v : IsKernel k w) (out : k.intr_context ≡ false)
    (front : ℕ) (r : List ℕ) (e : k.ready_list ≡ front ∷ r)
    (s : Sorted (compare_priority k) (front ∷ r)) where
  below_front : (t : ℕ) → 0 < count t (front ∷ r) → priority_of k t ≤ priority_of k front
  below_front t h = omega (
    arith,
    count-maximum (priority_of k) t (front ∷ r) h,
    maximum-front (priority_of k) front r s,
  )

  -- The caller and the other ready threads.
  below_rest :
      priority_of k k.current < priority_of k front
      → (t : ℕ) → 0 < count t (k.current ∷ r)
      → priority_of k t ≤ priority_of k front
  unfolding count
  below_rest lt t h = elim (ℕ_discrete t k.current) [
    | yes same ↦ omega (arith, lt, ap (priority_of k) same)
    | no other ↦ below_front t (ground (arith, h, other))
  ]

  behind : (t : ℕ) → 0 < count t k.ready_list → t ≢ front → 0 < count t r
  unfolding count
  behind t h other = ground (arith, h, ap (count t) e, other)

  yield-Settled :
      priority_of k k.current < priority_of k front → Returns (Settled k w) (thread_yield k)
  unfolding Highest
  yield-Settled lt = subst (Returns (Settled k w)) (sym eq) (record {
    kernel = both.0;
    kept = both.1;
    highest = λ t h. omega (
      arith,
      both.1.priority t,
      both.1.priority K.current,
      ap (priority_of k) z.current,
      below_rest lt t (omega (arith, h, ap (count t) z.ready_list, b.from t)),
    );
    stays = λ t h. elim (ℕ_discrete t front) [
      | yes same ↦ inl (same ∙ sym z.current)
      | no other ↦ inr (omega (arith, behind t h other, ap (count t) z.ready_list, b.keeps t))
    ];
  })
    where
      Y : Kernel
      Y = yielded (k.current == k.idle_thread) k

      b : Behind k front r (k.current == k.idle_thread)
      b = yielded-Behind (k.current == k.idle_thread) k front r e lt

      K : Kernel
      K = switch_to front (record Y { ready_list = b.rest })

      z : Switched front (record Y { ready_list = b.rest }) K
      z = switch_to-Switched front (record Y { ready_list = b.rest })

      eq : thread_yield k ≡ ok K
      eq =
          thread_yield-schedule k out (current_running k w v)
          ∙ schedule-front Y front b.rest b.list
              ((yielded-Stopped (k.current == k.idle_thread) k w v refl).all Y.current)

      both : IsKernel K w × Kept k K
      both = subst (Returns (λ k'. IsKernel k' w × Kept k k')) eq (thread_yield-IsKernel k w v out)

  compare_front-Settled : Returns (Settled k w) (compare_front front k)
  unfolding compare_front Highest
  compare_front-Settled =
      subst (Returns (Settled k w))
        (sym (ap (λ m. m >>= go) (thread_current_lem k (current_running k w v))))
        (elim (dec_lt (priority_of k k.current) (priority_of k front)) [
          | yes lt ↦ rw (lt→ltb (priority_of k k.current) (priority_of k front) lt) (
              subst
                (λ (c : Bool).
                  Returns (Settled k w)
                    (if c then ok (record k { yield_on_return = true }) else thread_yield k))
                (sym out) (yield-Settled lt))
          | no ge ↦
              rw (le→not_ltb (priority_of k k.current) (priority_of k front) (omega arith))
                (record {
                  kernel = v;
                  kept = Kept-refl k;
                  highest = λ t h. omega (arith, below_front t (omega (arith, h, ap (count t) e)));
                  stays = λ t h. inr h;
                })
        ])
    where
      go : ℕ → Outcome Kernel
      go cur =
          if ltb (priority_of k cur) (priority_of k front)
          then (if k.intr_context then ok (record k { yield_on_return = true }) else thread_yield k)
          else ok k

-- Outside interrupts `compare_cur_next_priority` keeps the kernel well-formed and leaves a thread
-- running that no ready thread has a higher priority than.
pub compare_cur_next_priority-Settled :
    (k : Kernel) (w : ℕ → Option ℕ)
    → IsKernel k w
    → k.intr_context ≡ false
    → Returns (Settled k w) (compare_cur_next_priority k)
unfolding compare_cur_next_priority Highest count
compare_cur_next_priority-Settled k w v out =
    go (stable_sort (compare_priority k) k.ready_list) refl
  where
    same :
        (l : List ℕ)
        → stable_sort (compare_priority k) k.ready_list ≡ l
        → (t : ℕ) → count t l ≡ count t k.ready_list
    same l e t = ap (count t) (sym e) ∙ count-stable_sort (compare_priority k) t k.ready_list

    go :
        (l : List ℕ)
        → stable_sort (compare_priority k) k.ready_list ≡ l
        → Returns (Settled k w) (compare_cur_next_priority k)
    go [] e =
        rw (compare_cur_next_priority, e)
          (record {
            kernel = v;
            kept = Kept-refl k;
            highest = λ t h. absurd (omega (arith, h, same [] e t));
            stays = λ t h. inr h;
          })
    go (f ∷ r) e =
        rw (compare_cur_next_priority, e)
          (Returns-mono (Settled (record k { ready_list = f ∷ r }) w) (Settled k w) _
            (compare_front-Settled (record k { ready_list = f ∷ r }) w
              (resorted-IsKernel k w (f ∷ r) v (same (f ∷ r) e)) out f r refl
              (subst (Sorted (compare_priority k)) e
                (stable_sort-Sorted (priority_of k) k.ready_list)))
            λ k' z. record {
              kernel = z.kernel;
              kept =
                  Kept-trans k (record k { ready_list = f ∷ r }) k' (resorted-Kept k (f ∷ r))
                    z.kept;
              highest = z.highest;
              stays = λ t h. z.stays t (omega (arith, same (f ∷ r) e t, h));
            })
