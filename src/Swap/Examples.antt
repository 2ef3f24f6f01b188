-- ===== src/Swap/Examples.antt =====
-- vm/anon.c on a swap disk with two slots.
use pintos_filesys.Base.{
  ℕ, ◌+◌, ◌<◌, ◌≡◌, refl, arith, true, none, some, ok, panic, ◌>>=◌, Returns, ltb,
}
use pintos_filesys.Disk.{zeros}
use pintos_filesys.Bitmap.Bits.{bit}
use pintos_filesys.Swap.{Vm, anon_swap_in, anon_swap_out}
use pintos_filesys.Swap.Slots.{IsSwap, HasSlot, SwappedOut}
use pintos_filesys.Swap.Moves.{
  Reloaded, anon_swap_out-SwappedOut, anon_swap_in-anon_swap_out, anon_swap_out-panic,
}

-- Pages in the frames of their number, with the first slots taken.
abbrev vm_with : ℕ → Vm
vm_with taken = record {
  swap_disk = record { capacity = 20; sectors = λ s. zeros };
  swap_table = record { bit_cnt = 2; bits = λ i j. ltb j taken };
  pages = λ p. record { frame = some p; swap_idx = none };
  frames = λ f. record { kva = λ o. o + f; ref_cnt = 1; page = some f };
}

vm_with-IsSwap : (taken : ℕ) → IsSwap (vm_with taken)
vm_with-IsSwap taken = record {
  size = omega arith;
  fits = omega arith;
  small = omega arith;
  within = λ p idx e. absurd (cc);
  taken = λ p idx e. absurd (cc);
  apart = λ p q idx e e'. absurd (cc);
}

one_free : HasSlot (vm_with 1)
one_free = (1, omega arith, refl)

anon_swap_out-SwappedOut_example :
    Returns (SwappedOut (vm_with 1) 3 3) (anon_swap_out (some 3) (vm_with 1))
anon_swap_out-SwappedOut_example =
    anon_swap_out-SwappedOut (vm_with 1) 3 3 (vm_with-IsSwap 1) one_free refl

anon_swap_in-anon_swap_out_example :
    Returns
      (Reloaded (vm_with 1) 3 3 5)
      (do (done, v1) ← anon_swap_out (some 3) (vm_with 1); (again, v2) ← anon_swap_in 3 5 v1; ok v2)
anon_swap_in-anon_swap_out_example =
    anon_swap_in-anon_swap_out (vm_with 1) 3 3 5 (vm_with-IsSwap 1) one_free refl

all_taken : (j : ℕ) → j < 2 → bit (vm_with 2).swap_table j ≡ true
all_taken j lt = ground arith

anon_swap_out-panic_example : anon_swap_out (some 3) (vm_with 2) ≡ panic
anon_swap_out-panic_example = anon_swap_out-panic (vm_with 2) 3 (omega arith) all_taken
