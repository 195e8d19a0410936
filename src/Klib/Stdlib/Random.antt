-- ===== src/Klib/Stdlib/Random.antt =====
-- The generator behind rand and srand of klib/src/stdlib.c.
use openperf_abstract_machin.Prelude.{ℕ, ◌+◌, ◌-◌, ◌*◌, ◌%◌, ◌^◌, ◌<◌, ◌≡◌, sym, ap, ◌∙◌, arith}
use openperf_abstract_machin.Klib.Stdlib.{rand}

-- The state before a call of rand: 4005161829 is the inverse of the multiplier modulo 2 ^ 32.
abbrev previous : ℕ → ℕ
previous s = (s + 2 ^ 32 - 12345) * 4005161829 % 2 ^ 32

previous-rand : (s : ℕ) → s < 2 ^ 32 → previous (rand s).1 ≡ s
unfolding rand
previous-rand s h = omega arith

-- rand returns a number below 32768, leaves a 32-bit state, and two 32-bit states that lead to the
-- same state are the same.
pub rand_lem :
    (s t : ℕ)
    → s < 2 ^ 32
    → t < 2 ^ 32
    → ((rand s).0 < 32768) × ((rand s).1 < 2 ^ 32) × ((rand s).1 ≡ (rand t).1 → s ≡ t)
unfolding rand
rand_lem s t hs ht =
    (omega arith, omega arith, λ e. sym (previous-rand s hs) ∙ ap previous e ∙ previous-rand t ht)
