-- ===== src/Klib/Mem/Copy.antt =====
-- What memcpy and memmove of klib/src/string.c leave in memory.
use openperf_abstract_machin.Prelude.{
  ℕ, zero, suc, ◌+◌, ◌-◌, ◌^◌, ◌≤◌, ◌<◌, ◌&&◌, ◌≡◌, Memory, write, size, Disjoint, ltb, leb,
  if◌then◌else◌, arith,
}
use openperf_abstract_machin.Klib.Mem.{copy_down, apart, memcpy}

-- The memory in which `n` bytes at `d` hold what `n` bytes at `s` held before.
abbrev pub moved : ℕ → ℕ → ℕ → Memory → Memory
moved d s n m a = if leb d a && ltb a (d + n) then m (s + (a - d)) else m a

copy_down_lem :
    (n d s : ℕ) (m : Memory) (a : ℕ)
    → d + n ≤ 2 ^ 32
    → s + n ≤ 2 ^ 32
    → Disjoint d n s n
    → copy_down n d s m a ≡ moved d s n m a
unfolding copy_down
copy_down_lem zero d s m a hd hs apart = ground arith
copy_down_lem (suc n) d s m a hd hs apart =
    ground (arith, copy_down_lem n d s (write m (size (d + n)) (m (size (s + n)))) a)

-- On areas that fit the address space and share no byte, memcpy moves the `n` bytes of the source
-- to the destination and leaves every other address alone.
pub memcpy-moved :
    (d s n : ℕ) (m : Memory) (a : ℕ)
    → d + n ≤ 2 ^ 32
    → s + n ≤ 2 ^ 32
    → Disjoint d n s n
    → memcpy d s n m a ≡ moved d s n m a
unfolding memcpy apart
memcpy-moved d s zero m a hd hs disjoint = unfold copy_down in ground arith
memcpy-moved d s (suc n) m a hd hs disjoint = ground (arith, copy_down_lem (suc n) d s m a)

-- Where areas that fit the address space share a byte, memcpy writes nothing at all.
pub memcpy-overlap :
    (d s n : ℕ) (m : Memory)
    → d < s + n
    → s < d + n
    → d + n ≤ 2 ^ 32
    → s + n ≤ 2 ^ 32
    → memcpy d s n m ≡ m
unfolding memcpy apart
memcpy-overlap d s n m hs hd bd bs = ground arith
