-- ===== src/Klib/Str/Tests.antt =====
-- Runs of the string functions, and their theorems at such inputs.
use openperf_abstract_machin.Prelude.{ℕ, ◌≡◌, refl, ◌↔◌, inl, inr, some, Memory, arith}
use openperf_abstract_machin.Prelude.Int.{pos, negsuc}
use openperf_abstract_machin.Klib.Mem.Copy.{moved}
use openperf_abstract_machin.Klib.Mem.Compare.{SameBytes}
use openperf_abstract_machin.Klib.Str.{strlen, strcpy, strcat, strncpy, stpncpy, strcmp}
use openperf_abstract_machin.Klib.Str.Length.{strlen_lem}
use openperf_abstract_machin.Klib.Str.Copy.{strcpy-moved, strlen-strcat}
use openperf_abstract_machin.Klib.Str.Pad.{padded, strncpy-padded, stpncpy-moved}
use openperf_abstract_machin.Klib.Str.Order.{strcmp_zero_iff}
use openperf_abstract_machin.Klib.Sample.{mem, ab-IsString, abc-IsString}

strcmp_run : strcmp 16 32 mem ≡ negsuc 98
unfolding strcmp
strcmp_run = refl

strlen_lem_run : strlen 10 32 mem ≡ some 3
strlen_lem_run = strlen_lem 10 32 3 mem (omega arith) abc-IsString (omega arith)

strcpy-moved_run : strcpy 10 64 32 mem ≡ some (64, moved 64 32 4 mem)
strcpy-moved_run = strcpy-moved 10 64 32 3 mem abc-IsString (inr (omega arith)) (omega arith)

strlen-strcat_run :
    (m' : Memory) × (strcat 10 16 32 mem ≡ some (16, m')) × (strlen 10 16 m' ≡ some 5)
strlen-strcat_run =
    strlen-strcat 10 16 32 2 3 mem (omega arith) ab-IsString abc-IsString (inl (omega arith))
      (omega arith)

strncpy-padded_run : strncpy 64 32 5 mem ≡ (64, padded 64 32 3 5 mem)
strncpy-padded_run = strncpy-padded 64 32 3 5 mem abc-IsString (inr (omega arith))

stpncpy-moved_run : stpncpy 64 32 2 mem ≡ (66, moved 64 32 2 mem)
stpncpy-moved_run = stpncpy-moved 64 32 3 2 mem abc-IsString (inr (omega arith))

strcmp_zero_iff_example : (strcmp 16 32 mem ≡ pos 0) ↔ ((◌≡◌ {A = ℕ} 2 3) × SameBytes 16 32 2 mem)
strcmp_zero_iff_example =
    strcmp_zero_iff 16 32 2 3 mem ab-IsString abc-IsString (omega arith) (omega arith)
