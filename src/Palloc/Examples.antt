-- ===== src/Palloc/Examples.antt =====
-- threads/palloc.c on two small pools.
use pintos_filesys.Base.{◌≡◌, refl, arith, true, false, panic, ◌>>=◌, Returns, ltb}
use pintos_filesys.Palloc.{Flags, Memory, palloc_get_multiple, palloc_free_multiple}
use pintos_filesys.Palloc.Pools.{IsMemory}
use pintos_filesys.Palloc.Pages.{Got, palloc_get_multiple-Got}
use pintos_filesys.Palloc.Freeing.{palloc_free_multiple-panic}
use pintos_filesys.Palloc.Cycles.{
  SameUse, Apart, palloc_free_multiple-get, palloc_get_multiple-Apart,
}

-- The first two pages of each pool are in use.
abbrev two_pools : Memory
two_pools = record {
  kernel_pool = record { used_map = record { bit_cnt = 6; bits = λ i j. ltb j 2 }; base = 65536 };
  user_pool = record { used_map = record { bit_cnt = 4; bits = λ i j. ltb j 2 }; base = 131072 };
  bytes = λ a. 7;
}

abbrev user_zeros : Flags
user_zeros = record { pal_assert = false; pal_zero = true; pal_user = true }

abbrev kernel_pages : Flags
kernel_pages = record { pal_assert = false; pal_zero = false; pal_user = false }

two_pools-IsMemory : IsMemory two_pools
two_pools-IsMemory = record {
  pools = elim [
    | true ↦ record {
      size = omega arith;
      aligned = refl;
      positive = omega arith;
      below = omega arith;
    }
    | false ↦ record {
      size = omega arith;
      aligned = refl;
      positive = omega arith;
      below = omega arith;
    }
  ];
  apart = omega arith;
}

palloc_get_multiple-Apart_example :
    Returns
      (λ r1. Returns (λ r2. Apart 3 2 r1.0 r2.0) (palloc_get_multiple user_zeros 2 r1.1))
      (palloc_get_multiple kernel_pages 3 two_pools)
palloc_get_multiple-Apart_example =
    palloc_get_multiple-Apart kernel_pages user_zeros 3 2 two_pools two_pools-IsMemory (omega arith)
      (omega arith) refl refl

palloc_get_multiple-Got_example :
    Returns (Got true true 2 two_pools) (palloc_get_multiple user_zeros 2 two_pools)
palloc_get_multiple-Got_example =
    palloc_get_multiple-Got user_zeros 2 two_pools two_pools-IsMemory refl

palloc_free_multiple-get_example :
    Returns
      (SameUse two_pools)
      (do (pages, m') ← palloc_get_multiple user_zeros 2 two_pools; palloc_free_multiple pages 2 m')
palloc_free_multiple-get_example =
    palloc_free_multiple-get user_zeros 2 two_pools two_pools-IsMemory (omega arith) refl

-- The second of the two pages is free.
palloc_free_multiple-panic_example : palloc_free_multiple 135168 2 two_pools ≡ panic
palloc_free_multiple-panic_example =
    palloc_free_multiple-panic true 1 2 two_pools
      (record { memory = two_pools-IsMemory; some_page = omega arith; within = omega arith }) 2
      (omega arith) (omega arith) refl
