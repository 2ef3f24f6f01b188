-- ===== src/HashTable/Examples.antt =====
-- lib/kernel/hash.c on concrete tables: the elements 1, 2 and 3 with their addresses as keys.
use pintos_filesys.Base.{
  ℕ, ◌<◌, ◌≡◌, refl, arith, true, false, Outcome, ok, ◌>>=◌, Returns, Option, some, ltb, length,
}
use pintos_filesys.HashTable.{
  Hash, hash_init, hash_clear, hash_insert, hash_find, hash_delete, rehash, elements,
  new_bucket_cnt, bit_and, find_bucket, power_loop, turn_off_least_1bit, is_power_of_2, find_elem,
  insert_elem, remove_elem, push_at, unlink_all, empty_buckets,
}
use pintos_filesys.HashTable.Words.{IsBucketCount, new_bucket_cnt-IsBucketCount}
use pintos_filesys.HashTable.Shape.{IsTable, Respects}
use pintos_filesys.HashTable.Rehash.{rehash-hash_find}
use pintos_filesys.HashTable.Elements.{insert_elem-IsTable, with_elem}
use pintos_filesys.HashTable.Operations.{
  Result, Insertable, inserted, deleted, hash_insert-Result, hash_delete-Result, hash_init-IsTable,
}
use pintos_filesys.HashTable.Traverse.{visit_loop, hash_first}
use pintos_filesys.HashTable.Traverse.Order.{visit_loop-elements}

empty : Hash
empty = (hash_init true (λ x. x) ltb).1

empty-IsTable : IsTable empty (λ x. false)
unfolding empty
empty-IsTable = hash_init-IsTable (λ x. x) ltb

empty-Respects : Respects empty
unfolding empty hash_init hash_clear
empty-Respects = record {
  reflexive = λ x. ground arith;
  transitive = λ x y z e f. ground (arith, e, f);
  same_hash = λ x y e. ground (arith, e);
}

one : Hash
unfolding empty
one = insert_elem (find_bucket empty 3) 3 empty

one-IsTable : IsTable one (with_elem (λ x. false) 3)
unfolding one empty hash_init hash_clear
one-IsTable =
    insert_elem-IsTable empty (λ x. false) 3 empty-IsTable refl (λ x h. absurd (ground (arith, h)))
      (omega arith)

one-Respects : Respects one
unfolding one empty hash_init hash_clear insert_elem
one-Respects = record {
  reflexive = λ x. ground arith;
  transitive = λ x y z e f. ground (arith, e, f);
  same_hash = λ x y e. ground (arith, e);
}

two-Insertable : Insertable one (with_elem (λ x. false) 3) 2
unfolding with_elem one empty hash_init hash_clear insert_elem
two-Insertable = record {
  table = one-IsTable;
  respects = one-Respects;
  outside = refl;
  room = omega arith;
}

new_bucket_cnt-IsBucketCount_example : Returns (IsBucketCount 13) (new_bucket_cnt 13)
new_bucket_cnt-IsBucketCount_example = new_bucket_cnt-IsBucketCount 13 (omega arith)

rehash-hash_find_example :
    Returns (λ k. (e : ℕ) → hash_find k e ≡ hash_find one e) (rehash true one)
rehash-hash_find_example =
    rehash-hash_find true one (with_elem (λ x. false) 3) one-IsTable one-Respects

hash_insert-Result_example :
    Returns
      (Result one (with_elem (λ x. false) 3) 2 (inserted (with_elem (λ x. false) 3) 2))
      (hash_insert true 2 one)
hash_insert-Result_example = hash_insert-Result true one (with_elem (λ x. false) 3) 2 two-Insertable

hash_delete-Result_example :
    Returns
      (Result one (with_elem (λ x. false) 3) 3 (deleted (with_elem (λ x. false) 3)))
      (hash_delete false 3 one)
hash_delete-Result_example =
    hash_delete-Result false one (with_elem (λ x. false) 3) 3 one-IsTable one-Respects

one-few : length (elements one.buckets) < 2
unfolding one empty hash_init hash_clear insert_elem find_bucket elements push_at bit_and
    empty_buckets
one-few = omega arith

visit_loop-elements_example : visit_loop 2 (hash_first one) ≡ ok (elements one.buckets)
visit_loop-elements_example =
    visit_loop-elements one (with_elem (λ x. false) 3) one-IsTable 2 one-few

-- 13 elements are enough for 4 buckets, 16 for 8.
bucket_counts : (new_bucket_cnt 13 ≡ ok 4) × (new_bucket_cnt 16 ≡ ok 8) × (new_bucket_cnt 0 ≡ ok 4)
unfolding new_bucket_cnt power_loop is_power_of_2 turn_off_least_1bit bit_and
bucket_counts = (refl, refl, refl)

three_out : Option ℕ × Hash → Outcome (Option ℕ × ℕ)
three_out (old, h) = hash_delete true 3 h >>= λ (found, h'). ok (found, h'.elem_cnt)

delete_three : (hash_insert true 3 empty >>= three_out) ≡ ok (some 3, 0)
unfolding three_out hash_insert hash_delete rehash find_bucket insert_elem remove_elem unlink_all
    empty hash_init hash_clear empty_buckets find_elem push_at bit_and new_bucket_cnt power_loop
    is_power_of_2 turn_off_least_1bit
delete_three = refl
