-- ===== src/Klib/Stdlib/Decimal.antt =====
-- What atoi and abs of klib/src/stdlib.c return.
use openperf_abstract_machin.Prelude.{
  ℕ, zero, suc, ◌+◌, ◌-◌, ◌*◌, ◌≤◌, ◌<◌, ◌≡◌, ◌≢◌, false, List, [], ◌∷◌, Memory, length, eq_true,
  eq_false, arith,
}
use openperf_abstract_machin.Klib.Stdlib.{int_max, is_digit, read, atoi_digits, atoi}

-- The memory holds the bytes of the list from `s` on.
abbrev pub Holds : Memory → ℕ → List ℕ → Type 0
Holds m s [] = Unit {0}
Holds m s (c ∷ cs) = (m s ≡ c) × Holds m (s + 1) cs

abbrev pub AllDigits : List ℕ → Type 0
AllDigits [] = Unit {0}
AllDigits (c ∷ cs) = (b'0' ≤ c) × (c ≤ b'9') × AllDigits cs

-- The number that the digits spell behind `x`.
abbrev pub value : ℕ → List ℕ → ℕ
value x [] = x
value x (c ∷ cs) = value (x * 10 + (c - b'0')) cs

le-value : (x : ℕ) (cs : List ℕ) → x ≤ value x cs
le-value x [] = omega arith
le-value x (c ∷ cs) = omega (arith, le-value (x * 10 + (c - b'0')) cs)

atoi_digits_lem :
    (fuel s x : ℕ) (cs : List ℕ) (m : Memory)
    → Holds m s cs
    → AllDigits cs
    → is_digit (m (s + length cs)) ≡ false
    → value x cs + b'0' ≤ int_max
    → length cs < fuel
    → atoi_digits fuel s x m ≡ read (value x cs)
unfolding atoi_digits
atoi_digits_lem zero s x cs m holds ds stop fits h = absurd (omega arith)
atoi_digits_lem (suc fuel) s x [] m holds ds stop fits h = ground arith
atoi_digits_lem (suc fuel) s x (c ∷ cs) m (e, holds) (lo, hi, ds) stop fits h =
    let ih = atoi_digits_lem fuel (s + 1) (x * 10 + (c - b'0')) cs m holds ds in
    ground (arith, le-value (x * 10 + (c - b'0')) cs, ih)

-- With enough fuel atoi skips the spaces from `s` up to `t` and reads the digits from `t` on: it
-- returns the number that they spell, if that is at least 48 below the limit of `int`. With no
-- digit at `t` that is 0.
pub atoi_lem :
    (fuel s k t : ℕ) (cs : List ℕ) (m : Memory)
    → s + k ≡ t
    → ((j : ℕ) → j < k → m (s + j) ≡ b' ')
    → m t ≢ b' '
    → Holds m t cs
    → AllDigits cs
    → is_digit (m (t + length cs)) ≡ false
    → value 0 cs + b'0' ≤ int_max
    → k + length cs < fuel
    → atoi fuel s m ≡ read (value 0 cs)
unfolding atoi
atoi_lem zero s k t cs m e spaces no_space holds ds stop fits h = absurd (omega arith)
atoi_lem (suc fuel) s zero t cs m e spaces no_space holds ds stop fits h =
    let s≡t : s ≡ t = omega arith in
    rw (s≡t, eq_false no_space)
      (atoi_digits_lem (suc fuel) t 0 cs m holds ds stop fits (omega arith))
atoi_lem (suc fuel) s (suc k) t cs m e spaces no_space holds ds stop fits h =
    let first : m s ≡ b' ' = ground (arith, spaces 0) in
    rw (eq_true first) (
      atoi_lem fuel (s + 1) k t cs m (omega arith) (λ j l. ground (arith, spaces (suc j))) no_space
        holds ds stop fits (omega arith))
