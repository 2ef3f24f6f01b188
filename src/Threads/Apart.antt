-- ===== src/Threads/Apart.antt =====
-- threads/synch.c: an operation on one semaphore or lock leaves all others.
use pintos_filesys.Base.{ℕ, ◌≡◌, ◌≢◌, refl, ap, ◌∙◌, Option, ne→not_==}
use pintos_filesys.Threads.{Kernel, Semaphore}
use pintos_filesys.Threads.Synch.{set_sema, set_holder}
use pintos_filesys.Threads.Shape.{Kept}

-- The values of the other semaphores, and the holders of the other locks, are kept.
pub record Apart (s : ℕ) (k k' : Kernel) : Type 0 where
  pub value : (l : ℕ) → l ≢ s → (k'.semas l).value ≡ (k.semas l).value
  pub holder : (l : ℕ) → l ≢ s → k'.holders l ≡ k.holders l
  pub context : k'.intr_context ≡ k.intr_context

pub Apart-trans : (s : ℕ) (k l m : Kernel) → Apart s k l → Apart s l m → Apart s k m
Apart-trans s k l m a b = record {
  value = λ x ne. b.value x ne ∙ a.value x ne;
  holder = λ x ne. b.holder x ne ∙ a.holder x ne;
  context = b.context ∙ a.context;
}

pub Kept-Apart : (s : ℕ) (k k' : Kernel) → Kept k k' → Apart s k k'
Kept-Apart s k k' a = record {
  value = λ x ne. ap (λ (m : ℕ → Semaphore). (m x).value) a.semas;
  holder = λ x ne. ap (λ (m : ℕ → Option ℕ). m x) a.holders;
  context = a.intr_context;
}

pub set_sema-Apart : (s : ℕ) (k : Kernel) (x : Semaphore) → Apart s k (set_sema k s x)
set_sema-Apart s k x = record {
  value = λ l ne. rw (ne→not_== l s ne) refl;
  holder = λ l ne. refl;
  context = refl;
}

pub set_holder-Apart : (l : ℕ) (k : Kernel) (o : Option ℕ) → Apart l k (set_holder k l o)
set_holder-Apart l k o = record {
  value = λ x ne. refl;
  holder = λ x ne. rw (ne→not_== x l ne) refl;
  context = refl;
}
