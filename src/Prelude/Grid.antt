-- ===== src/Prelude/Grid.antt =====
-- Positions in a grid of rows.
use Prim.Native.Nat.{ℕ, zero, suc, ◌+◌, ◌*◌, ◌<◌}
use native.Mathlib.Nat.{suc-mul}
use native.Mathlib.Decide.{ℕ_discrete}
use native.Mathlib.Omega.{arith}

-- Rows of the block before row `n` end before it.
pub row_before : (n w i j : ℕ) → i < n → j < w → i * w + j < n * w
row_before zero w i j l m = absurd (omega arith)
row_before (suc n) w i j l m = elim (ℕ_discrete i n) [
  | yes e ↦ rw e (omega (arith, suc-mul n w))
  | no ne ↦ omega (arith, suc-mul n w, row_before n w i j (omega arith) m)
]
