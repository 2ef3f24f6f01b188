-- ===== src/LinkedList/Dropping.antt =====
-- lib/kernel/list.c under the loop of `remove_donation_for_lock` of threads/synch.c, which removes
-- elements and goes on from them with `list_next`. The comment on `list_remove` warns of such a loop.
use pintos_filesys.Base.{
  ℕ, zero, suc, ◌<◌, ◌≡◌, arith, Bool, true, false, Outcome, ok, hang, ◌>>=◌, Returns, Returns-bind,
  Returns-mono, List, [], ◌∷◌, ◌++◌, ◌==◌, ==_refl, length, subst, Bool-cases, inl, inr,
  if◌then◌else◌,
}
use mathlib.Core.List.{append_assoc}
use pintos_filesys.LinkedList.{Memory, Headers, list_next, list_begin, list_end, list_remove}
use pintos_filesys.LinkedList.Shape.{IsList, first_of, Links-first}
use pintos_filesys.LinkedList.Remove.{list_remove-next}
use pintos_filesys.LinkedList.Traverse.{next-ok, not_end, move}

-- `gone` tells whether the element is to be removed.
unfoldable pub drop_one : (gone : Bool) → ℕ → Memory → Outcome Memory
drop_one true e m = list_remove e m >>= λ (next, m'). ok m'
drop_one false e m = ok m

unfoldable pub drop_loop :
    (gone : ℕ → Bool) (fuel : ℕ) → Headers → (e : ℕ) → Memory → Outcome Memory
drop_loop gone zero l e m = hang
drop_loop gone (suc k) l e m =
    if e == list_end l
    then ok m
    else do m' ← drop_one (gone e) e m; next ← list_next m' e; drop_loop gone k l next m'

-- The elements that are not to be removed.
pub rest_of : (gone : ℕ → Bool) → List ℕ → List ℕ
rest_of gone [] = []
rest_of gone (y ∷ ys) = let rest = rest_of gone ys in if gone y then rest else y ∷ rest

drop_loop-from :
    (gone : ℕ → Bool) (m : Memory) (l : Headers) (k : ℕ) (xs ys : List ℕ)
    → IsList m l (xs ++ ys)
    → length ys < k
    → Returns
        (λ m'. IsList m' l (xs ++ rest_of gone ys))
        (drop_loop gone k l (first_of ys l.tail) m)
unfolding drop_loop drop_one rest_of
drop_loop-from gone m l zero xs ys v fuel = elim fuel [ ]
drop_loop-from gone m l (suc k) xs [] v fuel = rw (==_refl l.tail) v
drop_loop-from gone m l (suc k) xs (y ∷ ys) v fuel = elim (Bool-cases (gone y)) [
  | inl hit ↦
      rw (not_end m l xs ys y v, hit)
        (Returns-bind (Ready ys y) (λ m'. IsList m' l (xs ++ rest_of gone ys))
          (list_remove y m >>= λ (next, m'). ok m') _
          (Returns-bind (λ (next, m'). Ready ys y m') (Ready ys y) (list_remove y m) _
            (list_remove-next m l xs ys y v) λ (next, m') r. r)
          λ m' (e, w). rw e (drop_loop-from gone m' l k xs ys w (omega arith)))
  | inr miss ↦
      rw (not_end m l xs ys y v, miss, next-ok m l xs ys y v)
        (Returns-mono (λ m'. IsList m' l ((xs ++ y ∷ []) ++ rest_of gone ys)) _ _
          (drop_loop-from gone m l k (xs ++ y ∷ []) ys (move m l xs ys y v) (omega arith))
          λ m' w. subst (IsList m' l) (append_assoc xs (y ∷ []) (rest_of gone ys)) w)
]
  where
    Ready : List ℕ → ℕ → Memory → Type 0
    Ready ys y m' = (list_next m' y ≡ ok (first_of ys l.tail)) × IsList m' l (xs ++ ys)

-- Over a list, with a round for each element and one more, the loop ends, and the list then holds
-- exactly the elements that were not to be removed, in order.
pub drop_loop-IsList :
    (gone : ℕ → Bool) (m : Memory) (l : Headers) (xs : List ℕ)
    → IsList m l xs
    → Returns
        (λ m'. IsList m' l (rest_of gone xs))
        (drop_loop gone (suc (length xs)) l (list_begin l m) m)
drop_loop-IsList gone m l xs v =
    rw (Links-first m l.head xs l.tail v.links)
      (drop_loop-from gone m l (suc (length xs)) [] xs v (omega arith))
