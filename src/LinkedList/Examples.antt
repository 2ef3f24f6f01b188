-- ===== src/LinkedList/Examples.antt =====
-- lib/kernel/list.c on a concrete list.
use pintos_filesys.Base.{
  insert_sorted, Sorted, ℕ, List, ◌>>=◌, ◌≡◌, refl, arith, [], ◌∷◌, ok, Returns, ◌==◌,
  if◌then◌else◌, ltb,
}
use pintos_filesys.LinkedList.{
  list_begin, list_next, list_prev, list_splice, list_reverse, Memory, Headers, list_remove,
  list_insert_ordered,
}
use pintos_filesys.LinkedList.Sort.{is_sorted, find_end_of_run, inplace_merge, list_sort}
use pintos_filesys.LinkedList.Shape.{IsList}
use pintos_filesys.LinkedList.Insert.{IsFresh}
use pintos_filesys.LinkedList.Remove.{list_remove-IsList}
use pintos_filesys.LinkedList.Traverse.{list_insert_ordered-Sorted}

-- The headers are at 1 and 2, the elements 10 and 20 between them.
abbrev headers : Headers
headers = record { head = 1; tail = 2 }

abbrev memory : Memory
memory a =
    if a == 1
    then record { prev = 0; next = 10 }
    else if a == 10
    then record { prev = 1; next = 20 }
    else if a == 20
    then record { prev = 10; next = 2 }
    else record { prev = if a == 2 then 20 else 0; next = 0 }

abbrev first_two : Memory → List ℕ
first_two m = list_begin headers m ∷ (m (list_begin headers m)).next ∷ []

memory-IsList : IsList memory headers (10 ∷ 20 ∷ [])
memory-IsList = record {
  front = refl;
  back = refl;
  links = (refl, refl, (refl, refl, (refl, refl)));
  distinct = (
    λ e. absurd (omega arith),
    refl,
    (
      λ e. absurd (omega arith),
      refl,
      (λ e. absurd (omega arith), refl, (λ e. absurd (omega arith), refl, tt)),
    ),
  );
}

fresh : IsFresh headers (10 ∷ 20 ∷ []) 15
fresh = record {
  not_null = λ e. absurd (omega arith);
  not_head = λ e. absurd (omega arith);
  not_tail = λ e. absurd (omega arith);
  not_in = refl;
}

list_remove-IsList_example :
    Returns (λ (next, m'). (next ≡ 20) × IsList m' headers (20 ∷ [])) (list_remove 10 memory)
list_remove-IsList_example = list_remove-IsList memory headers [] (20 ∷ []) 10 memory-IsList

list_insert_ordered-Sorted_example :
    Returns
      (λ m'.
        IsList m' headers (insert_sorted ltb 15 (10 ∷ 20 ∷ []))
        × Sorted ltb (insert_sorted ltb 15 (10 ∷ 20 ∷ [])))
      (list_insert_ordered ltb 3 headers 15 memory)
list_insert_ordered-Sorted_example =
    list_insert_ordered-Sorted ltb memory headers 15 3 (10 ∷ 20 ∷ []) memory-IsList fresh
      (omega arith) (λ a b h. ground arith) (refl, tt)

-- Sorting by `>` turns the two elements around.
sort_two :
    (list_sort (λ a b. ltb b a) 5 headers memory >>= λ m. ok (first_two m)) ≡ ok (20 ∷ 10 ∷ [])
unfolding list_sort is_sorted find_end_of_run inplace_merge list_next list_prev list_splice
sort_two = refl

reverse_two : (list_reverse 5 headers memory >>= λ m. ok (first_two m)) ≡ ok (20 ∷ 10 ∷ [])
unfolding list_reverse
reverse_two = refl
