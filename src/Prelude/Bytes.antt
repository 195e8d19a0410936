-- ===== src/Prelude/Bytes.antt =====
-- The byte-addressed memory that klib works on: every address holds a byte.
use Prim.Native.Nat.{ℕ, ◌+◌, ◌-◌, ◌%◌, ◌^◌, ◌≤◌, ◌<◌}
use mathlib.Core.Path.{◌≡◌}
use mathlib.Core.Logic.{◌≢◌, ◌⊎◌}
use mathlib.Core.List.{List, [], ◌∷◌}
use openperf_abstract_machin.Prelude.Tests.{◌==◌, if◌then◌else◌}

abbrev pub Memory : Type 0
Memory = ℕ → ℕ

abbrev pub write : Memory → ℕ → ℕ → Memory
write m a v b = if a == b then v else m b

-- A `size_t`, a `uintptr_t` or an `unsigned int` of a 32-bit target.
abbrev pub size : ℕ → ℕ
size n = n % 2 ^ 32

-- `a - b` in that type.
abbrev pub sub_size : ℕ → ℕ → ℕ
sub_size a b = (a + 2 ^ 32 - b) % 2 ^ 32

-- `n` bytes at `s` are not NUL, and the byte behind them is: a C string of length `n`.
pub record IsString (m : Memory) (s n : ℕ) : Type 0 where
  pub body : (j : ℕ) → j < n → m (s + j) ≢ 0
  pub ends : m (s + n) ≡ 0

-- The two areas of `n` and `k` bytes have no byte in common.
abbrev pub Disjoint : ℕ → ℕ → ℕ → ℕ → Type 0
Disjoint a n b k = (a + n ≤ b) ⊎ (b + k ≤ a)

-- The bytes of a list from address `a` on, over what the memory held.
abbrev pub load_list : ℕ → List ℕ → Memory → Memory
load_list a [] m = m
load_list a (x ∷ xs) m = write (load_list (a + 1) xs m) a x
