-- ===== src/Klib/Mem/Tests.antt =====
-- Runs of memset, memcpy, memmove and memcmp, and their theorems at such inputs.
use openperf_abstract_machin.Prelude.{ℕ, ◌+◌, ◌<◌, ◌≡◌, ◌≢◌, refl, ◌⊎◌, inl, inr, [], ◌∷◌, arith}
use openperf_abstract_machin.Prelude.Int.{pos, sub_ℕ}
use openperf_abstract_machin.Klib.Mem.{memset, memcpy, memmove, memcmp}
use openperf_abstract_machin.Klib.Mem.Set.{memset_lem}
use openperf_abstract_machin.Klib.Mem.Copy.{moved, memcpy-moved, memcpy-overlap}
use openperf_abstract_machin.Klib.Mem.Move.{memmove-moved, memmove-ahead_wrong}
use openperf_abstract_machin.Klib.Mem.Compare.{SameBytes, memcmp_lem}
use openperf_abstract_machin.Klib.Sample.{mem, bytes}

-- The second copy of memmove takes the wrong side as its source: 2 to 8 should stand at 64.
memmove_ahead_run : bytes (memmove 64 65 7 mem) 64 9 ≡ 1 ∷ 2 ∷ 3 ∷ 4 ∷ 5 ∷ 6 ∷ 7 ∷ 7 ∷ 0 ∷ []
unfolding memmove memcpy
memmove_ahead_run = refl

memmove_behind_run : bytes (memmove 66 64 4 mem) 64 8 ≡ 1 ∷ 2 ∷ 1 ∷ 2 ∷ 3 ∷ 4 ∷ 7 ∷ 8 ∷ []
unfolding memmove memcpy
memmove_behind_run = refl

memset_lem_run : memset 64 0x1ff 3 mem 65 ≡ 255
memset_lem_run = memset_lem 64 0x1ff 3 mem 65

memcpy-moved_run : memcpy 16 64 4 mem 18 ≡ moved 16 64 4 mem 18
memcpy-moved_run = memcpy-moved 16 64 4 mem 18 (omega arith) (omega arith) (inl (omega arith))

memcpy-overlap_run : memcpy 65 64 4 mem ≡ mem
memcpy-overlap_run =
    memcpy-overlap 65 64 4 mem (omega arith) (omega arith) (omega arith) (omega arith)

memmove-moved_example : memmove 66 64 4 mem 69 ≡ moved 66 64 4 mem 69
memmove-moved_example =
    memmove-moved 66 64 4 mem 69 (omega arith) (omega arith) (omega arith) (omega arith)
      (inr (inr (omega arith, omega arith)))

memmove-ahead_wrong_example :
    (memmove 64 65 7 mem 70 ≡ 7) × (memmove 64 65 7 mem 71 ≡ memcpy 64 65 6 mem 70)
memmove-ahead_wrong_example =
    memmove-ahead_wrong 64 65 7 mem 0 (omega arith) (omega arith) (omega arith) (omega arith)

memcmp_lem_run :
    (SameBytes 16 32 3 mem × (memcmp 16 32 3 mem ≡ pos 0))
    ⊎ ((j : ℕ) × (j < 3)
        × SameBytes 16 32 j mem
        × (mem (16 + j) ≢ mem (32 + j))
        × (memcmp 16 32 3 mem ≡ sub_ℕ (mem (16 + j)) (mem (32 + j))))
memcmp_lem_run = memcmp_lem 16 32 3 mem
