-- ===== src/Klib/Stdlib/Tests.antt =====
-- Runs of rand, atoi and malloc, and their theorems at such inputs.
use openperf_abstract_machin.Prelude.{
  ℕ, zero, suc, ◌+◌, ◌-◌, ◌^◌, ◌<◌, ◌≤◌, ◌≡◌, refl, ◌⊎◌, Memory, [], ◌∷◌, load_list, arith,
}
use openperf_abstract_machin.Klib.Stdlib.{
  rand, read, overflow, atoi, HeapState, allocated, panicked, malloc, roundup,
}
use openperf_abstract_machin.Klib.Stdlib.Random.{rand_lem}
use openperf_abstract_machin.Klib.Stdlib.Decimal.{atoi_lem}
use openperf_abstract_machin.Klib.Stdlib.Heap.{
  Fresh, now, malloc_lem, malloc-disjoint, malloc-backwards,
}
use openperf_abstract_machin.Klib.Sample.{blank}

-- "  42"
abbrev number : Memory
number = load_list 16 (32 ∷ 32 ∷ 52 ∷ 50 ∷ []) blank

-- "2147483647", the largest `int`
abbrev largest : Memory
largest = load_list 16 (50 ∷ 49 ∷ 52 ∷ 55 ∷ 52 ∷ 56 ∷ 51 ∷ 54 ∷ 52 ∷ 55 ∷ []) blank

atoi_run : atoi 9 16 number ≡ read 42
unfolding atoi
atoi_run = refl

-- The sum before the subtraction of '0' overflows, although the number fits.
atoi-largest : atoi 20 16 largest ≡ overflow
unfolding atoi
atoi-largest = refl

two_spaces : (j : ℕ) → j < 2 → number (16 + j) ≡ 32
two_spaces zero h = refl
two_spaces (suc zero) h = refl
two_spaces (suc (suc j)) h = absurd (omega arith)

atoi_lem_run : atoi 9 16 number ≡ read 42
atoi_lem_run =
    atoi_lem 9 16 2 18 (52 ∷ 50 ∷ []) number (omega arith) two_spaces (omega arith) (omega arith)
      (omega arith) refl (omega arith) (omega arith)

rand_lem_run :
    ((rand 1).0 < 32768) × ((rand 1).1 < 2 ^ 32) × ((rand 1).1 ≡ (rand 2).1 → ◌≡◌ {A = ℕ} 1 2)
rand_lem_run = rand_lem 1 2 (omega arith) (omega arith)

abbrev heap : HeapState
heap = record { alloc_ptr = 0x1008; start = 0x1000; limit = 0x2000 }

abbrev heap_used : HeapState
heap_used = record { alloc_ptr = 0x1010; start = 0x1000; limit = 0x2000 }

malloc_run : malloc heap 5 ≡ allocated 0x1008 heap_used
unfolding malloc roundup
malloc_run = refl

malloc_full : malloc heap 0xff8 ≡ panicked (record heap { alloc_ptr = 0x2000 })
unfolding malloc roundup
malloc_full = refl

malloc_again : malloc heap_used 4 ≡ allocated 0x1010 (record heap { alloc_ptr = 0x1014 })
unfolding malloc roundup
malloc_again = refl

malloc_lem_run :
    ((h : HeapState) × (malloc heap 5 ≡ allocated 0x1008 h) × Fresh heap 5 0x1008 h)
    ⊎ ((h : HeapState) × (malloc heap 5 ≡ panicked h) × (0x2000 ≤ 0x1008 + 5 + 3))
malloc_lem_run = malloc_lem heap 5 (omega arith) (omega arith)

malloc-disjoint_example : (0x1008 + 5 ≤ 0x1010) × (0x1010 + 4 < 0x2000)
malloc-disjoint_example =
    malloc-disjoint {h = heap} 5 4 (omega arith) (omega arith) malloc_run now (omega arith)
      malloc_again

-- A second request of 2 ^ 32 - 8 bytes would hand the first area out again.
malloc-backwards_run :
    malloc heap (2 ^ 32 - 8) ≡ allocated 0x1008 (record heap { alloc_ptr = 0x1000 })
malloc-backwards_run =
    malloc-backwards heap 8 (omega arith) (omega arith) (omega arith) (omega arith)
