-- ===== src/Klib/Mem/Set.antt =====
-- What memset of klib/src/string.c writes.
use openperf_abstract_machin.Prelude.{
  ℕ, zero, suc, ◌+◌, ◌%◌, ◌&&◌, ◌≡◌, Memory, write, ltb, leb, if◌then◌else◌, arith,
}
use openperf_abstract_machin.Klib.Mem.{memset_loop, memset}

memset_loop_lem :
    (left i s c : ℕ) (m : Memory) (a : ℕ)
    → memset_loop left i s c m a ≡ (if leb (s + i) a && ltb a (s + i + left) then c % 256 else m a)
unfolding memset_loop
memset_loop_lem zero i s c m a = ground arith
memset_loop_lem (suc left) i s c m a =
    ground (arith, memset_loop_lem left (i + 1) s c (write m (s + i) (c % 256)) a)

-- memset stores the low byte of `c` at each of the `n` addresses from `s` on, and leaves every
-- other address alone.
pub memset_lem :
    (s c n : ℕ) (m : Memory) (a : ℕ)
    → memset s c n m a ≡ (if leb s a && ltb a (s + n) then c % 256 else m a)
unfolding memset
memset_lem s c n m a = ground (arith, memset_loop_lem n 0 s c m a)
