-- ===== src/Klib/Stdlib.antt =====
-- klib/src/stdlib.c on a 32-bit RISC-V target: the generator, abs, atoi and the bump allocator.
-- Where a signed `int` overflows, which C leaves undefined, the model returns `overflow` or `none`.
mod Tests
pub mod Random
pub mod Decimal
pub mod Heap
use Prim.Native.Nat.{bit_and}
use openperf_abstract_machin.Prelude.{
  ℕ, zero, suc, ◌+◌, ◌-◌, ◌*◌, ◌/◌, ◌%◌, ◌^◌, Bool, Option, none, some, ◌&&◌, Memory, size,
  sub_size, ltb, leb, ◌==◌, if◌then◌else◌,
}
use openperf_abstract_machin.Prelude.Int.{ℤ, pos, negsuc}

-- The state is `next`, an `unsigned long int` of 32 bits.
pub rand : ℕ → ℕ × ℕ
rand next = let next' = size (size (next * 1103515245) + 12345) in (next' / 65536 % 32768, next')

pub srand : ℕ → ℕ
srand seed = size seed

abbrev pub int_max : ℕ
int_max = 2 ^ 31 - 1

-- The negation of INT_MIN does not fit.
pub abs : ℤ → Option ℤ
abs (pos n) = some (pos n)
abs (negsuc n) = if n == int_max then none else some (pos (n + 1))

pub data Parsed : Type 0 where
  overflow no_fuel : Parsed
  read : ℕ → Parsed

abbrev pub is_digit : ℕ → Bool
is_digit c = leb b'0' c && leb c b'9'

-- `x = x * 10 + *nptr - '0'`: the sum before the subtraction must fit an `int`.
pub atoi_digits : ℕ → ℕ → ℕ → Memory → Parsed
atoi_digits zero s x m = no_fuel
atoi_digits (suc fuel) s x m =
    let rest = atoi_digits fuel (s + 1) (x * 10 + m s - b'0') m in
    if is_digit (m s) then (if ltb int_max (x * 10 + m s) then overflow else rest) else read x

pub atoi : ℕ → ℕ → Memory → Parsed
unfolding atoi_digits
atoi zero s m = no_fuel
atoi (suc fuel) s m =
    let rest = atoi fuel (s + 1) m in
    let digits = atoi_digits (suc fuel) s 0 m in if m s == b' ' then rest else digits

-- `ROUNDUP(a, sz)` of klib-macros.h for a power of two `sz`.
pub roundup : ℕ → ℕ → ℕ
roundup a sz = bit_and (sub_size (a + sz) 1) (2 ^ 32 - sz)

-- `heap_alloc_ptr` and the area `heap`.
pub record HeapState : Type 0 where
  pub alloc_ptr : ℕ
  pub start : ℕ
  pub limit : ℕ

pub data Allocation : Type 0 where
  allocated : ℕ → HeapState → Allocation
  panicked : HeapState → Allocation

-- `IN_RANGE(ptr, area)` of klib-macros.h.
abbrev pub in_range : ℕ → ℕ → ℕ → Bool
in_range p start limit = leb start p && ltb p limit

-- `_trm_init` starts the allocator at the heap's start.
pub heap_init : ℕ → ℕ → HeapState
heap_init start limit = record { alloc_ptr = start; start = start; limit = limit }

pub malloc : HeapState → ℕ → Allocation
malloc h n =
    let h' = record h { alloc_ptr = roundup (size (h.alloc_ptr + n)) 4 } in
    if in_range h'.alloc_ptr h.start h.limit then allocated h.alloc_ptr h' else panicked h'

pub free : HeapState → ℕ → HeapState
free h p = h
