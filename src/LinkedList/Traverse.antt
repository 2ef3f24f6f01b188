-- ===== src/LinkedList/Traverse.antt =====
-- lib/kernel/list.c, the loops from the front to the end: `list_size` and `list_insert_ordered`.
use pintos_filesys.Base.{
  insert_sorted, Sorted, insert_sorted-Sorted, ℕ, zero, suc, ◌+◌, ◌<◌, ◌≡◌, refl, arith, ap, ◌∙◌,
  sym, Bool, true, false, ◌||◌, ok, Returns, Returns-bind, Returns-mono, List, [], ◌∷◌, ◌++◌, ◌==◌,
  ne→not_==, ==_refl, length, subst, Bool-cases, inl, inr,
}
use mathlib.Core.List.{append_assoc}
use pintos_filesys.LinkedList.{
  Memory, Headers, is_head, is_interior, list_next, size_loop, list_size, insert_position,
  list_insert_ordered,
}
use pintos_filesys.LinkedList.Shape.{
  IsList, first_of, Links-first, Links-next, interior-ok, Distinct-tail,
}
use pintos_filesys.LinkedList.Insert.{IsFresh, list_insert-IsList}

module _ (m : Memory) (l : Headers) where
  pub next-ok :
      (xs ys : List ℕ) (y : ℕ) → IsList m l (xs ++ y ∷ ys) → list_next m y ≡ ok (first_of ys l.tail)
  unfolding list_next
  next-ok xs ys y v =
      let inner = interior-ok m l xs y ys v in
      let passes : (is_head m y || is_interior m y) ≡ true = ground (arith, inner) in
      rw (passes, Links-next m l.head y xs ys l.tail v.links)

  pub not_end : (xs ys : List ℕ) (y : ℕ) → IsList m l (xs ++ y ∷ ys) → (y == l.tail) ≡ false
  not_end xs ys y v = Distinct-tail l.tail y xs ys v.distinct.2.1

  pub move :
      (xs ys : List ℕ) (y : ℕ) → IsList m l (xs ++ y ∷ ys) → IsList m l ((xs ++ y ∷ []) ++ ys)
  move xs ys y v = subst (IsList m l) (sym (append_assoc xs (y ∷ []) ys)) v

  size_loop-length :
      (k cnt : ℕ) (xs ys : List ℕ)
      → IsList m l (xs ++ ys)
      → length ys < k
      → size_loop k l (first_of ys l.tail) cnt m ≡ ok (cnt + length ys)
  unfolding size_loop
  size_loop-length zero cnt xs ys v fuel = elim fuel [ ]
  size_loop-length (suc k) cnt xs [] v fuel = rw (==_refl l.tail) (ap ok (omega arith))
  size_loop-length (suc k) cnt xs (y ∷ ys) v fuel =
      rw (not_end xs ys y v, next-ok xs ys y v)
        (size_loop-length k (cnt + 1) (xs ++ y ∷ []) ys (move xs ys y v) (omega arith)
          ∙ ap ok (omega arith))

  -- `list_size` counts the elements; it needs no more rounds than one for each and one more.
  pub list_size-length :
      (fuel : ℕ) (xs : List ℕ)
      → IsList m l xs
      → length xs < fuel
      → list_size fuel l m ≡ ok (length xs)
  unfolding list_size
  list_size-length fuel xs v enough =
      rw (Links-first m l.head xs l.tail v.links)
        (size_loop-length fuel 0 [] xs v enough ∙ ap ok (omega arith))

module _ (less : ℕ → ℕ → Bool) where
  -- The elements with one more, before the first that it is less than.
  -- A place between the elements, at which inserting gives `insert_sorted`.
  record Place (l : Headers) (e : ℕ) (ys : List ℕ) (at : ℕ) : Type 0 where
    before : List ℕ
    behind : List ℕ
    whole : ys ≡ before ++ behind
    here : at ≡ first_of behind l.tail
    sorted : insert_sorted less e ys ≡ before ++ e ∷ behind

  module _ (m : Memory) (l : Headers) (e : ℕ) where
    insert_position-Place :
        (k : ℕ) (xs ys : List ℕ)
        → IsList m l (xs ++ ys)
        → length ys < k
        → Returns (Place l e ys) (insert_position less k l e (first_of ys l.tail) m)
    unfolding insert_position
    insert_position-Place zero xs ys v fuel = elim fuel [ ]
    insert_position-Place (suc k) xs [] v fuel =
        rw (==_refl l.tail)
          (record { before = []; behind = []; whole = refl; here = refl; sorted = refl })
    insert_position-Place (suc k) xs (y ∷ ys) v fuel = elim (Bool-cases (less e y)) [
      | inl lt ↦
          rw (not_end m l xs ys y v, lt)
            (record { before = []; behind = y ∷ ys; whole = refl; here = refl; sorted = rw lt })
      | inr ge ↦
          rw (not_end m l xs ys y v, ge, next-ok m l xs ys y v)
            (Returns-mono (Place l e ys) (Place l e (y ∷ ys)) _
              (insert_position-Place k (xs ++ y ∷ []) ys (move m l xs ys y v) (omega arith))
              λ at p. record {
                before = y ∷ p.before;
                behind = p.behind;
                whole = ap (λ zs. y ∷ zs) p.whole;
                here = p.here;
                sorted = rw ge (ap (λ zs. y ∷ zs) p.sorted);
              })
    ]

    -- `list_insert_ordered` of an element that is not in the list returns, and the list then holds
    -- the elements with it, before the first that it is less than; when the elements were sorted by
    -- an asymmetric `less` they are sorted afterwards. One round for each element and one more is
    -- enough.
    pub list_insert_ordered-Sorted :
        (fuel : ℕ) (xs : List ℕ)
        → IsList m l xs
        → IsFresh l xs e
        → length xs < fuel
        → ((a b : ℕ) → less a b ≡ true → less b a ≡ false)
        → Sorted less xs
        → Returns
            (λ m'. IsList m' l (insert_sorted less e xs) × Sorted less (insert_sorted less e xs))
            (list_insert_ordered less fuel l e m)
    unfolding list_insert_ordered
    list_insert_ordered-Sorted fuel xs v f enough asym s =
        rw (ne→not_== e 0 f.not_null, Links-first m l.head xs l.tail v.links)
          (Returns-bind (Place l e xs) Inside (insert_position less fuel l e (first_of xs l.tail) m)
            _ (insert_position-Place fuel [] xs v enough)
            λ at p. rw p.here (
              Returns-mono (λ m'. IsList m' l (p.before ++ e ∷ p.behind)) Inside _
                (list_insert-IsList m l p.before p.behind e (subst (IsList m l) p.whole v)
                  (subst (λ zs. IsFresh l zs e) p.whole f))
                λ m' w.
                  (subst (IsList m' l) (sym p.sorted) w, insert_sorted-Sorted less asym e xs s)))
      where
        Inside : Memory → Type 0
        Inside m' = IsList m' l (insert_sorted less e xs) × Sorted less (insert_sorted less e xs)
