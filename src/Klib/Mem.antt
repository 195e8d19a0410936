-- ===== src/Klib/Mem.antt =====
-- klib/src/string.c: memset, memcpy, memmove and memcmp on byte areas.
-- A `size_t` has 32 bits, and the address arithmetic that the source does in it wraps.
mod Tests
pub mod Set
pub mod Copy
pub mod Move
pub mod Compare
use openperf_abstract_machin.Prelude.{
  ℕ, zero, suc, ◌+◌, ◌%◌, Bool, ◌&&◌, ◌||◌, Memory, write, size, sub_size, ltb, leb, ◌==◌,
  if◌then◌else◌,
}
use openperf_abstract_machin.Prelude.Int.{ℤ, pos, sub_ℕ}

-- `for (i; i < n; i++) s[i] = (unsigned char) c`, with `left` rounds to go.
pub memset_loop : ℕ → ℕ → ℕ → ℕ → Memory → Memory
memset_loop zero i s c m = m
memset_loop (suc left) i s c m = memset_loop left (i + 1) s c (write m (s + i) (c % 256))

pub memset : ℕ → ℕ → ℕ → Memory → Memory
unfolding memset_loop
memset s c n m = if n == 0 then m else memset_loop n 0 s c m

-- `while (n != 0) { dest[n - 1] = src[n - 1]; n--; }`
pub copy_down : ℕ → ℕ → ℕ → Memory → Memory
copy_down zero dest src m = m
copy_down (suc n) dest src m = copy_down n dest src (write m (size (dest + n)) (m (size (src + n))))

-- The guard of `memcpy`: no byte of one area lies in the other.
pub apart : ℕ → ℕ → ℕ → Bool
apart dest src n =
    (ltb src dest && ltb (sub_size (src + n) 1) dest)
    || (ltb dest src && ltb (sub_size (dest + n) 1) src)

pub memcpy : ℕ → ℕ → ℕ → Memory → Memory
unfolding copy_down apart
memcpy out src n m = if out == src then m else if apart out src n then copy_down n out src m else m

-- The two copies of `memmove` where `dst` is below an overlapping `src`, and where it is above.
pub memmove_ahead : ℕ → ℕ → ℕ → ℕ → Memory → Memory
memmove_ahead d s n overlap m =
    memcpy (size (s + overlap)) (size (d + overlap)) (sub_size n overlap) (memcpy d s overlap m)

pub memmove_behind : ℕ → ℕ → ℕ → ℕ → Memory → Memory
memmove_behind d s n overlap m =
    memcpy d s (sub_size n overlap) (memcpy (sub_size (d + n) overlap) d overlap m)

pub memmove : ℕ → ℕ → ℕ → Memory → Memory
unfolding memmove_ahead memmove_behind
memmove d s n m =
    if d == s
    then m
    else if ltb d s && leb s (sub_size (d + n) 1)
    then memmove_ahead d s n (sub_size (d + n) s) m
    else if ltb s d && leb d (sub_size (s + n) 1)
    then memmove_behind d s n (sub_size (s + n) d) m
    else memcpy d s n m

pub memcmp : ℕ → ℕ → ℕ → Memory → ℤ
memcmp a b zero m = pos 0
memcmp a b (suc n) m =
    let rest = memcmp (a + 1) (b + 1) n m in if m a == m b then rest else sub_ℕ (m a) (m b)
