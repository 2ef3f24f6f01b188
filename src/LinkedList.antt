-- ===== src/LinkedList.antt =====
-- lib/kernel/list.c: doubly linked lists with two header elements. Elements are addresses, 0 is the
-- null pointer, and the memory of all elements is a function. `less` has its auxiliary data already.
-- A loop runs on the `fuel` of its caller.
pub mod Shape
pub mod Insert
pub mod Remove
pub mod Traverse
pub mod Dropping
pub mod Sort
mod Examples
use pintos_filesys.Base.{
  ℕ, zero, suc, ◌+◌, Bool, true, false, not, ◌&&◌, ◌||◌, Option, none, some, Outcome, ok, hang,
  ◌>>=◌, ◌>>◌, assert, ltb, ◌==◌, if◌then◌else◌,
}

-- `struct list_elem`.
pub record Elem : Type 0 where
  pub prev : ℕ
  pub next : ℕ

abbrev pub Memory : Type 0
Memory = ℕ → Elem

-- The addresses of a list's two headers.
pub record Headers : Type 0 where
  pub head : ℕ
  pub tail : ℕ

abbrev pub set_prev : Memory → ℕ → ℕ → Memory
set_prev m e v a = if a == e then record (m a) { prev = v } else m a

abbrev pub set_next : Memory → ℕ → ℕ → Memory
set_next m e v a = if a == e then record (m a) { next = v } else m a

abbrev pub is_head : Memory → ℕ → Bool
is_head m elem = not (elem == 0) && (m elem).prev == 0 && not ((m elem).next == 0)

abbrev pub is_interior : Memory → ℕ → Bool
is_interior m elem = not (elem == 0) && not ((m elem).prev == 0) && not ((m elem).next == 0)

abbrev pub is_tail : Memory → ℕ → Bool
is_tail m elem = not (elem == 0) && not ((m elem).prev == 0) && (m elem).next == 0

unfoldable pub list_init : Headers → Memory → Memory
list_init l m =
    set_next (set_prev (set_next (set_prev m l.head 0) l.head l.tail) l.tail l.head) l.tail 0

abbrev pub list_begin : Headers → Memory → ℕ
list_begin l m = (m l.head).next

unfoldable pub list_next : Memory → ℕ → Outcome ℕ
list_next m elem = assert (is_head m elem || is_interior m elem) >> ok (m elem).next

abbrev pub list_end : Headers → ℕ
list_end l = l.tail

abbrev pub list_rbegin : Headers → Memory → ℕ
list_rbegin l m = (m l.tail).prev

unfoldable pub list_prev : Memory → ℕ → Outcome ℕ
list_prev m elem = assert (is_interior m elem || is_tail m elem) >> ok (m elem).prev

abbrev pub list_rend : Headers → ℕ
list_rend l = l.head

abbrev pub list_head : Headers → ℕ
list_head l = l.head

abbrev pub list_tail : Headers → ℕ
list_tail l = l.tail

-- The four assignments of `list_insert`.
abbrev pub inserted : Memory → (before elem : ℕ) → Memory
inserted m before elem =
    let m1 = set_prev m elem (m before).prev in
    let m2 = set_next m1 elem before in
    let m3 = set_next m2 (m2 before).prev elem in set_prev m3 before elem

unfoldable pub list_insert : (before elem : ℕ) → Memory → Outcome Memory
list_insert before elem m = do
  assert (is_interior m before || is_tail m before)
  assert (not (elem == 0))
  ok (inserted m before elem)

-- The six assignments of `list_splice`.
abbrev pub spliced : Memory → (before first last : ℕ) → Memory
spliced m before first last =
    let m1 = set_next m (m first).prev (m last).next in
    let m2 = set_prev m1 (m1 last).next (m1 first).prev in
    let m3 = set_prev m2 first (m2 before).prev in
    let m4 = set_next m3 last before in
    let m5 = set_next m4 (m4 before).prev first in set_prev m5 before last

unfoldable pub list_splice : (before first last : ℕ) → Memory → Outcome Memory
list_splice before first last m = do
  assert (is_interior m before || is_tail m before)
  if first == last then ok m else do
    back ← list_prev m last
    assert (is_interior m first)
    assert (is_interior m back)
    ok (spliced m before first back)

unfoldable pub list_push_front : Headers → ℕ → Memory → Outcome Memory
list_push_front l elem m = list_insert (list_begin l m) elem m

unfoldable pub list_push_back : Headers → ℕ → Memory → Outcome Memory
list_push_back l elem m = list_insert (list_end l) elem m

-- The two assignments of `list_remove`.
abbrev pub unlinked : Memory → ℕ → Memory
unlinked m elem =
    let m1 = set_next m (m elem).prev (m elem).next in set_prev m1 (m1 elem).next (m1 elem).prev

-- The element that followed, and the memory.
unfoldable pub list_remove : ℕ → Memory → Outcome (ℕ × Memory)
list_remove elem m = do
  assert (is_interior m elem)
  ok ((unlinked m elem elem).next, unlinked m elem)

abbrev pub list_empty : Headers → Memory → Bool
list_empty l m = list_begin l m == list_end l

unfoldable pub list_front : Headers → Memory → Outcome ℕ
list_front l m = assert (not (list_empty l m)) >> ok (m l.head).next

unfoldable pub list_back : Headers → Memory → Outcome ℕ
list_back l m = assert (not (list_empty l m)) >> ok (m l.tail).prev

unfoldable pub list_pop_front : Headers → Memory → Outcome (ℕ × Memory)
list_pop_front l m = do front ← list_front l m; (next, m') ← list_remove front m; ok (front, m')

unfoldable pub list_pop_back : Headers → Memory → Outcome (ℕ × Memory)
list_pop_back l m = do back ← list_back l m; (next, m') ← list_remove back m; ok (back, m')

size_loop : (fuel : ℕ) → Headers → (e cnt : ℕ) → Memory → Outcome ℕ
size_loop zero l e cnt m = hang
size_loop (suc k) l e cnt m =
    if e == list_end l then ok cnt else do next ← list_next m e; size_loop k l next (cnt + 1) m

unfoldable pub list_size : (fuel : ℕ) → Headers → Memory → Outcome ℕ
unfolding size_loop
list_size fuel l m = size_loop fuel l (list_begin l m) 0 m

-- `swap (&e->prev, &e->next)`.
abbrev pub turned : Memory → ℕ → Memory
turned m e a = if a == e then record { prev = (m a).next; next = (m a).prev } else m a

reverse_loop : (fuel : ℕ) → Headers → (e : ℕ) → Memory → Outcome Memory
reverse_loop zero l e m = hang
reverse_loop (suc k) l e m =
    if e == list_end l then ok m else reverse_loop k l (turned m e e).prev (turned m e)

-- The swaps of the headers' links, and of the links to the headers.
abbrev pub ends_swapped : Headers → Memory → Memory
ends_swapped l m =
    let m1 = set_prev (set_next m l.head (m l.tail).prev) l.tail (m l.head).next in
    let first = (m1 l.head).next in
    let last = (m1 l.tail).prev in set_next (set_prev m1 first (m1 last).next) last (m1 first).prev

unfoldable pub list_reverse : (fuel : ℕ) → Headers → Memory → Outcome Memory
unfolding reverse_loop
list_reverse fuel l m =
    if list_empty l m
    then ok m
    else do turned_all ← reverse_loop fuel l (list_begin l m) m; ok (ends_swapped l turned_all)

module _ (less : ℕ → ℕ → Bool) where
  insert_position : (fuel : ℕ) → Headers → (elem e : ℕ) → Memory → Outcome ℕ
  insert_position zero l elem e m = hang
  insert_position (suc k) l elem e m =
      if e == list_end l || less elem e
      then ok e
      else do next ← list_next m e; insert_position k l elem next m

  unfoldable pub list_insert_ordered : (fuel : ℕ) → Headers → (elem : ℕ) → Memory → Outcome Memory
  unfolding insert_position
  list_insert_ordered fuel l elem m = do
    assert (not (elem == 0))
    e ← insert_position fuel l elem (list_begin l m) m
    list_insert e elem m

  max_loop : (fuel : ℕ) → Headers → (max e : ℕ) → Memory → Outcome ℕ
  max_loop zero l max e m = hang
  max_loop (suc k) l max e m =
      if e == list_end l
      then ok max
      else do next ← list_next m e; max_loop k l (if less max e then e else max) next m

  unfoldable pub list_max : (fuel : ℕ) → Headers → Memory → Outcome ℕ
  unfolding max_loop
  list_max fuel l m =
      let max = list_begin l m in
      if max == list_end l then ok max else do e ← list_next m max; max_loop fuel l max e m

  min_loop : (fuel : ℕ) → Headers → (min e : ℕ) → Memory → Outcome ℕ
  min_loop zero l min e m = hang
  min_loop (suc k) l min e m =
      if e == list_end l
      then ok min
      else do next ← list_next m e; min_loop k l (if less e min then e else min) next m

  unfoldable pub list_min : (fuel : ℕ) → Headers → Memory → Outcome ℕ
  unfolding min_loop
  list_min fuel l m =
      let min = list_begin l m in
      if min == list_end l then ok min else do e ← list_next m min; min_loop fuel l min e m
