-- ===== src/Threads/Steps/Locks.antt =====
-- threads/synch.c: the locks through the steps of the threads that use them.
use pintos_filesys.Base.{
  ℕ, ◌+◌, ◌≡◌, ◌≢◌, refl, arith, ap, sym, ◌∙◌, Bool, true, false, ◌&&◌, Option, none, some, once,
  if◌then◌else◌, ◌==◌, ==_refl, ne→not_==, ℕ_discrete, ==_iff,
}
use mathlib.Core.Bool.{false≢true}
use pintos_filesys.Threads.{Kernel}
use pintos_filesys.Threads.Synch.{is_thread}
use pintos_filesys.Threads.Shape.{is_some}
use pintos_filesys.Threads.Steps.{
  Position, outside, taken, holding, freed, is_inside, is_holding, Machine, moved, holder_at,
  LockSound,
}

holder_at-same :
    (o : Option ℕ) (p q : ℕ → Position) → ((t : ℕ) → q t ≡ p t) → holder_at o p ≡ holder_at o q
holder_at-same none p q e = refl
holder_at-same (some t) p q e = ap (λ x. if is_holding x then some t else none) (sym (e t))

-- Neither the lock nor where the threads are in it has changed.
pub LockSound-same :
    (l : ℕ) (m m' : Machine)
    → (m'.kernel.semas l).value ≡ (m.kernel.semas l).value
    → m'.kernel.holders l ≡ m.kernel.holders l
    → ((t : ℕ) → m'.position t l ≡ m.position t l)
    → LockSound l m
    → LockSound l m'
LockSound-same l m m' value holder same s = record {
  owner = s.owner;
  value = omega (arith, value, s.value);
  alone = λ t. ap is_inside (same t) ∙ s.alone t;
  holder =
      holder ∙ s.holder ∙ holder_at-same s.owner (λ t. m.position t l) (λ t. m'.position t l) same;
}

pub position_away :
    (m : Machine) (k : Kernel) (t l x : ℕ) (p : Position)
    → x ≢ l
    → (a : ℕ) → (moved m k t l p).position a x ≡ m.position a x
position_away m k t l x p ne a = rw (ne→not_== x l ne) (pick (a == t))
  where
    pick : (b : Bool) → (if b && false then p else m.position a x) ≡ m.position a x
    pick true = refl
    pick false = refl

position_at :
    (m : Machine) (k : Kernel) (t l : ℕ) (p : Position) → (moved m k t l p).position t l ≡ p
position_at m k t l p = rw (==_refl t, ==_refl l) refl

position_other :
    (m : Machine) (k : Kernel) (t l a : ℕ) (p : Position)
    → a ≢ t
    → (moved m k t l p).position a l ≡ m.position a l
position_other m k t l a p ne = rw (ne→not_== a t ne) refl

owner_of : Position → ℕ → Option ℕ
owner_of p t = if is_inside p then some t else none

-- No thread but `t` is inside the lock.
abbrev pub OnlyOne : Machine → (t l : ℕ) → Type 0
OnlyOne m t l = (a : ℕ) → a ≢ t → is_inside (m.position a l) ≡ false

-- A thread goes on in its use of a lock.
pub LockSound-moved :
    (m : Machine) (k : Kernel) (t l : ℕ) (p : Position)
    → OnlyOne m t l
    → (k.semas l).value + once (is_inside p) ≡ 1
    → k.holders l ≡ (if is_holding p then some t else none)
    → LockSound l (moved m k t l p)
unfolding owner_of
LockSound-moved m k t l p only value holder = record {
  owner = owner_of p t;
  value = ap (λ b. (k.semas l).value + once b) (owned p) ∙ value;
  alone = λ a. elim (ℕ_discrete a t) [
    | yes same ↦
        ap (λ b. is_inside ((moved m k t l p).position b l)) same
        ∙ ap is_inside (position_at m k t l p)
        ∙ sym (owner_is p)
        ∙ ap (λ b. is_thread b (owner_of p t)) (sym same)
    | no other ↦
        ap is_inside (position_other m k t l a p other) ∙ only a other ∙ sym (owner_not p a other)
  ];
  holder = holder ∙ held p (λ a. (moved m k t l p).position a l) (position_at m k t l p);
}
  where
    owned : (p : Position) → is_some (owner_of p t) ≡ is_inside p
    owned outside = refl
    owned taken = refl
    owned holding = refl
    owned freed = refl

    owner_is : (p : Position) → is_thread t (owner_of p t) ≡ is_inside p
    owner_is outside = refl
    owner_is taken = ==_refl t
    owner_is holding = ==_refl t
    owner_is freed = ==_refl t

    owner_not : (p : Position) (a : ℕ) → a ≢ t → is_thread a (owner_of p t) ≡ false
    owner_not outside a ne = refl
    owner_not taken a ne = ne→not_== a t ne
    owner_not holding a ne = ne→not_== a t ne
    owner_not freed a ne = ne→not_== a t ne

    held :
        (p : Position) (f : ℕ → Position)
        → f t ≡ p
        → (if is_holding p then some t else none) ≡ holder_at (owner_of p t) f
    held outside f e = refl
    held taken f e = ap (λ x. if is_holding x then some t else none) (sym e)
    held holding f e = ap (λ x. if is_holding x then some t else none) (sym e)
    held freed f e = ap (λ x. if is_holding x then some t else none) (sym e)

-- Which threads are inside.
pub free_OnlyOne : (m : Machine) (t l : ℕ) (s : LockSound l m) → s.owner ≡ none → OnlyOne m t l
free_OnlyOne m t l s e a ne = s.alone a ∙ ap (is_thread a) e

owner_inside : (t : ℕ) (o : Option ℕ) → is_thread t o ≡ true → o ≡ some t
owner_inside t none h = absurd (false≢true h)
owner_inside t (some a) h = ap some (sym ((==_iff t a).0 h))

pub LockSound-owner :
    (m : Machine) (t l : ℕ) (s : LockSound l m)
    → is_inside (m.position t l) ≡ true
    → s.owner ≡ some t
LockSound-owner m t l s h = owner_inside t s.owner (sym (s.alone t) ∙ h)

pub inside_OnlyOne :
    (m : Machine) (t l : ℕ) → LockSound l m → is_inside (m.position t l) ≡ true → OnlyOne m t l
inside_OnlyOne m t l s h a ne =
    s.alone a ∙ ap (is_thread a) (LockSound-owner m t l s h) ∙ ne→not_== a t ne

-- Two threads inside the same lock are the same thread.
pub LockSound-exclusive :
    (m : Machine) (t u l : ℕ)
    → LockSound l m
    → is_inside (m.position t l) ≡ true
    → is_inside (m.position u l) ≡ true
    → t ≡ u
LockSound-exclusive m t u l s h h' =
    (==_iff t u).0 (sym (ap (is_thread t) (LockSound-owner m u l s h')) ∙ sym (s.alone t) ∙ h)
