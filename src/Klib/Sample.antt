-- ===== src/Klib/Sample.antt =====
-- A small memory with two strings, on which the tests of klib run.
use openperf_abstract_machin.Prelude.{
  ℕ, zero, suc, ◌+◌, ◌<◌, ◌≢◌, refl, List, [], ◌∷◌, Memory, IsString, load_list, arith,
}

abbrev pub blank : Memory
blank a = 0

-- "ab" at 16, "abc" at 32, and the bytes 1 to 8 at 64.
abbrev pub mem : Memory
mem =
    load_list 16 (97 ∷ 98 ∷ [])
      (load_list 32 (97 ∷ 98 ∷ 99 ∷ []) (load_list 64 (1 ∷ 2 ∷ 3 ∷ 4 ∷ 5 ∷ 6 ∷ 7 ∷ 8 ∷ []) blank))

abbrev pub bytes : Memory → ℕ → ℕ → List ℕ
bytes m a zero = []
bytes m a (suc n) = m a ∷ bytes m (a + 1) n

ab_body : (j : ℕ) → j < 2 → mem (16 + j) ≢ 0
ab_body zero h = omega arith
ab_body (suc zero) h = omega arith
ab_body (suc (suc j)) h = absurd (omega arith)

pub ab-IsString : IsString mem 16 2
ab-IsString = record { body = ab_body; ends = refl }

abc_body : (j : ℕ) → j < 3 → mem (32 + j) ≢ 0
abc_body zero h = omega arith
abc_body (suc zero) h = omega arith
abc_body (suc (suc zero)) h = omega arith
abc_body (suc (suc (suc j))) h = absurd (omega arith)

pub abc-IsString : IsString mem 32 3
abc-IsString = record { body = abc_body; ends = refl }
