-- ===== src/LinkedList/Sort.antt =====
-- lib/kernel/list.c, `list_sort` with its helpers, and `list_unique`.
use pintos_filesys.Base.{
  ℕ, zero, suc, ◌+◌, Bool, true, false, not, ◌&&◌, ◌||◌, Option, none, some, Outcome, ok, hang,
  ◌>>=◌, ◌>>◌, assert, ltb, ◌==◌, if◌then◌else◌,
}
use pintos_filesys.LinkedList.{
  Memory, Headers, list_begin, list_next, list_end, list_prev, list_splice, list_push_back,
  list_remove, list_empty,
}

module _ (less : ℕ → ℕ → Bool) where
  sorted_loop : (fuel a b : ℕ) → Memory → Outcome Bool
  sorted_loop zero a b m = hang
  sorted_loop (suc k) a b m = do
    next ← list_next m a
    let rest = sorted_loop k next b m
    if next == b
        then ok true
        else do before ← list_prev m next; if less next before then ok false else rest

  unfoldable pub is_sorted : (fuel a b : ℕ) → Memory → Outcome Bool
  unfolding sorted_loop
  is_sorted fuel a b m = if a == b then ok true else sorted_loop fuel a b m

  run_loop : (fuel a b : ℕ) → Memory → Outcome ℕ
  run_loop zero a b m = hang
  run_loop (suc k) a b m = do
    next ← list_next m a
    let rest = run_loop k next b m
    if next == b
        then ok next
        else do before ← list_prev m next; if less next before then ok next else rest

  unfoldable pub find_end_of_run : (fuel a b : ℕ) → Memory → Outcome ℕ
  unfolding run_loop
  find_end_of_run fuel a b m = do
    assert (not (a == 0))
    assert (not (b == 0))
    assert (not (a == b))
    run_loop fuel a b m

  merge_loop : (fuel a0 a1b0 b1 : ℕ) → Memory → Outcome Memory
  merge_loop zero a0 a1b0 b1 m = hang
  merge_loop (suc k) a0 a1b0 b1 m =
      if a0 == a1b0 || a1b0 == b1
      then ok m
      else if less a1b0 a0
      then (do
        next ← list_next m a1b0
        back ← list_prev m next
        m' ← list_splice a0 back next m
        merge_loop k a0 next b1 m')
      else (do next ← list_next m a0; merge_loop k next a1b0 b1 m)

  unfoldable pub inplace_merge : (fuel a0 a1b0 b1 : ℕ) → Memory → Outcome Memory
  unfolding merge_loop
  inplace_merge fuel a0 a1b0 b1 m = do
    assert (not (a0 == 0))
    assert (not (a1b0 == 0))
    assert (not (b1 == 0))
    first ← is_sorted fuel a0 a1b0 m
    assert first
    second ← is_sorted fuel a1b0 b1 m
    assert second
    merge_loop fuel a0 a1b0 b1 m

  -- One pass over the list: the number of runs that it leaves, and the memory.
  pass_loop : (rounds fuel : ℕ) → Headers → (a0 output_run_cnt : ℕ) → Memory → Outcome (ℕ × Memory)
  pass_loop zero fuel l a0 output_run_cnt m = hang
  pass_loop (suc k) fuel l a0 output_run_cnt m =
      if a0 == list_end l then ok (output_run_cnt, m) else do
        a1b0 ← find_end_of_run fuel a0 (list_end l) m
        if a1b0 == list_end l then ok (output_run_cnt + 1, m) else do
          b1 ← find_end_of_run fuel a1b0 (list_end l) m
          m' ← inplace_merge fuel a0 a1b0 b1 m
          pass_loop k fuel l b1 (output_run_cnt + 1) m'

  sort_loop : (passes fuel : ℕ) → Headers → Memory → Outcome Memory
  unfolding pass_loop
  sort_loop zero fuel l m = hang
  sort_loop (suc k) fuel l m = do
    (output_run_cnt, m') ← pass_loop fuel fuel l (list_begin l m) 0 m
    let again = sort_loop k fuel l m'
    if ltb 1 output_run_cnt then again else ok m'

  unfoldable pub list_sort : (fuel : ℕ) → Headers → Memory → Outcome Memory
  unfolding sort_loop
  list_sort fuel l m = do
    m' ← sort_loop fuel fuel l m
    sorted ← is_sorted fuel (list_begin l m') (list_end l) m'
    assert sorted
    ok m'

  -- A duplicate moves to the end of the other list, when there is one.
  move_duplicate : Option Headers → ℕ → Memory → Outcome Memory
  move_duplicate none elem m = ok m
  move_duplicate (some duplicates) elem m = list_push_back duplicates elem m

  unique_loop : (fuel : ℕ) → Headers → Option Headers → (elem : ℕ) → Memory → Outcome Memory
  unfolding move_duplicate
  unique_loop zero l duplicates elem m = hang
  unique_loop (suc k) l duplicates elem m = do
    next ← list_next m elem
    if next == list_end l
        then ok m
        else if not (less elem next) && not (less next elem)
        then (do
          (after, removed) ← list_remove next m
          m' ← move_duplicate duplicates next removed
          unique_loop k l duplicates elem m')
        else unique_loop k l duplicates next m

  unfoldable pub list_unique : (fuel : ℕ) → Headers → Option Headers → Memory → Outcome Memory
  unfolding unique_loop
  list_unique fuel l duplicates m =
      if list_empty l m then ok m else unique_loop fuel l duplicates (list_begin l m) m
