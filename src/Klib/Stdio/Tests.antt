-- ===== src/Klib/Stdio/Tests.antt =====
-- Runs of the printing functions, and their theorems at such inputs.
use openperf_abstract_machin.Prelude.{
  ℕ, zero, suc, ◌+◌, ◌<◌, ◌≤◌, ◌≡◌, ◌≢◌, refl, Option, ◌⊎◌, inl, none, some, Memory, write, List,
  [], ◌∷◌, load_list, arith,
}
use openperf_abstract_machin.Prelude.Int.{pos}
use openperf_abstract_machin.Klib.Stdlib.{read, atoi}
use openperf_abstract_machin.Klib.Stdio.{
  Printer, printed, directive, emit, collect, copy_text, vsnprintf_loop, int2str, vsnprintf,
  snprintf, printf,
}
use openperf_abstract_machin.Klib.Stdio.Bounds.{vsnprintf_bounds}
use openperf_abstract_machin.Klib.Stdio.Total.{
  IsFormat, vsnprintf_total, vsnprintf_loop-percent_end,
}
use openperf_abstract_machin.Klib.Stdio.RoundTrip.{atoi-int2str}
use openperf_abstract_machin.Klib.Sample.{blank, bytes, mem, ab-IsString}

-- "%d %s%%" at 256, "ok" at 300, "5%" with a NUL and then "!" at 320.
abbrev texts : Memory
texts =
    load_list 256 (37 ∷ 100 ∷ 32 ∷ 37 ∷ 115 ∷ 37 ∷ 37 ∷ [])
      (load_list 300 (111 ∷ 107 ∷ []) (load_list 320 (53 ∷ 37 ∷ 0 ∷ 33 ∷ []) blank))

-- "-17 ok%"
printf_run :
    printf 400 20 64 256 (0xffff_ffef ∷ 300 ∷ []) texts
    ≡ some (7, 45 ∷ 49 ∷ 55 ∷ 32 ∷ 111 ∷ 107 ∷ 37 ∷ [])
unfolding printf directive int2str emit collect copy_text
printf_run = refl

-- A '%' at the end of the format takes the NUL for its directive, and what follows is printed too.
printf_last_percent : printf 400 20 64 320 [] texts ≡ some (2, 53 ∷ 33 ∷ [])
unfolding printf directive int2str emit collect copy_text
printf_last_percent = refl

missing_argument : printf 400 20 64 256 (17 ∷ []) texts ≡ none
unfolding printf directive int2str emit collect copy_text
missing_argument = refl

abbrev three_bytes : Option (ℕ × Memory) → List ℕ
three_bytes none = []
three_bytes (some (n, m)) = bytes m 64 3

-- With a size of 0 the bound wraps to 2 ^ 32 - 1 characters, and the text is written all the same.
snprintf_zero_size : three_bytes (snprintf 400 20 64 0 300 [] texts) ≡ 111 ∷ 107 ∷ 0 ∷ []
unfolding snprintf
snprintf_zero_size = refl

abbrev ab_copied : Memory
ab_copied = write (write (write mem 64 97) 65 98) 66 0

vsnprintf_ab : vsnprintf 400 20 64 8 16 [] mem ≡ some (2, ab_copied)
unfolding vsnprintf
vsnprintf_ab = refl

ab_no_percent : (j : ℕ) → j + 1 ≡ 2 → mem (16 + j) ≢ b'%'
ab_no_percent zero e = omega arith
ab_no_percent (suc zero) e = omega arith
ab_no_percent (suc (suc j)) e = absurd (omega arith)

ab-IsFormat : IsFormat mem 16 2
ab-IsFormat = record { text = ab-IsString; no_last = ab_no_percent }

vsnprintf_bounds_example :
    (2 < 8) × (ab_copied (64 + 2) ≡ 0) × ((a : ℕ) → (a < 64) ⊎ (64 + 8 ≤ a) → ab_copied a ≡ mem a)
vsnprintf_bounds_example =
    vsnprintf_bounds 400 20 64 8 16 [] mem (omega arith) (omega arith) vsnprintf_ab

-- The format "5%" at its '%'.
abbrev at_percent : Printer
at_percent = record { fmt = 321; args = []; out = 65; count = 1; mem = texts }

vsnprintf_loop-percent_end_run :
    vsnprintf_loop 400 5 63 at_percent ≡ vsnprintf_loop 400 4 63 (printed at_percent [] (0, texts))
vsnprintf_loop-percent_end_run =
    vsnprintf_loop-percent_end 400 4 63 at_percent (omega arith) refl refl

vsnprintf_total_example : (r : ℕ × Memory) × (vsnprintf 400 20 64 8 16 (0 ∷ 0 ∷ []) mem ≡ some r)
vsnprintf_total_example =
    vsnprintf_total 400 20 64 8 16 2 (0 ∷ 0 ∷ []) mem (omega arith) (omega arith) ab-IsFormat
      (inl (omega arith)) (omega arith) (omega arith)

atoi-int2str_example : atoi 9 64 (int2str 400 64 (pos 42) 5 blank).1 ≡ read 42
unfolding int2str collect emit
atoi-int2str_example =
    atoi-int2str 400 9 64 42 4 blank (omega arith) (omega arith) (omega arith) (omega arith) refl
      (omega arith)
