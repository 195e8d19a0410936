-- ===== src/Klib/Str.antt =====
-- klib/src/string.c: the functions on C strings. A loop that runs until it meets a NUL takes fuel,
-- and `none` says that the fuel ran out; a loop that counts down recurs on its count.
mod Tests
pub mod Length
pub mod Copy
pub mod Pad
pub mod Order
use openperf_abstract_machin.Prelude.{
  ℕ, zero, suc, ◌+◌, ◌-◌, ◌^◌, Bool, Option, none, some, ◌&&◌, not, Memory, write, ◌==◌,
  if◌then◌else◌,
}
use openperf_abstract_machin.Prelude.Int.{ℤ, pos, sub_ℕ}

strlen_loop : ℕ → ℕ → ℕ → Memory → Option ℕ
strlen_loop zero s count m = none
strlen_loop (suc fuel) s count m =
    let rest = strlen_loop fuel (s + 1) (count + 1) m in if m s == 0 then some count else rest

-- The address 0 is NULL.
pub strlen : ℕ → ℕ → Memory → Option ℕ
unfolding strlen_loop
strlen fuel s m = if s == 0 then some 0 else strlen_loop fuel s 0 m

strcpy_loop : ℕ → ℕ → ℕ → ℕ → Memory → Option Memory
strcpy_loop zero dst src i m = none
strcpy_loop (suc fuel) dst src i m =
    let rest = strcpy_loop fuel dst src (i + 1) (write m (dst + i) (m (src + i))) in
    if m (src + i) == 0 then some (write m (dst + i) 0) else rest

-- The results of a copy: the address that it returns, and the memory.
abbrev pub with_address : ℕ → Option Memory → Option (ℕ × Memory)
with_address a none = none
with_address a (some m) = some (a, m)

pub strcpy : ℕ → ℕ → ℕ → Memory → Option (ℕ × Memory)
unfolding strcpy_loop
strcpy fuel dst src m = with_address dst (strcpy_loop fuel dst src 0 m)

pub stpcpy : ℕ → ℕ → ℕ → Memory → Option (ℕ × Memory)
stpcpy zero dst src m = none
stpcpy (suc fuel) dst src m =
    let m' = write m dst (m src) in
    let rest = stpcpy fuel (dst + 1) (src + 1) m' in if m src == 0 then some (dst, m') else rest

pub stpncpy : ℕ → ℕ → ℕ → Memory → ℕ × Memory
stpncpy dst src zero m = (dst, m)
stpncpy dst src (suc n) m =
    let m' = write m dst (m src) in
    let rest = stpncpy (dst + 1) (src + 1) n m' in if m src == 0 then (dst, m') else rest

-- `while (i < n) { dst[i] = 0; i++; }`
zero_fill : ℕ → ℕ → ℕ → Memory → Memory
zero_fill zero dst i m = m
zero_fill (suc left) dst i m = zero_fill left dst (i + 1) (write m (dst + i) 0)

strncpy_loop : ℕ → ℕ → ℕ → ℕ → Memory → Memory
strncpy_loop zero dst src i m = m
strncpy_loop (suc left) dst src i m =
    let rest = strncpy_loop left dst src (i + 1) (write m (dst + i) (m (src + i))) in
    let fill = zero_fill (suc left) dst i m in if m (src + i) == 0 then fill else rest

pub strncpy : ℕ → ℕ → ℕ → Memory → ℕ × Memory
unfolding strncpy_loop zero_fill
strncpy dst src n m = (dst, strncpy_loop n dst src 0 m)

-- `strcpy(dst + strlen(dst), src)`
strcat_at : ℕ → ℕ → ℕ → Memory → Option ℕ → Option (ℕ × Memory)
strcat_at fuel dst src m none = none
strcat_at fuel dst src m (some n) = with_address dst (strcpy_loop fuel (dst + n) src 0 m)

pub strcat : ℕ → ℕ → ℕ → Memory → Option (ℕ × Memory)
unfolding strcat_at strlen strcpy_loop
strcat fuel dst src m = strcat_at fuel dst src m (strlen fuel dst m)

-- The test of the loop on the two characters.
pub goes_on : ℕ → ℕ → Bool
goes_on x y = not (x == 0) && not (y == 0) && x == y

-- `while (n && *l && *r && *l == *r)`, and then `*l - *r`.
strncmp_loop : ℕ → ℕ → ℕ → Memory → ℤ
strncmp_loop zero l r m = sub_ℕ (m l) (m r)
strncmp_loop (suc n) l r m =
    let rest = strncmp_loop n (l + 1) (r + 1) m in
    if goes_on (m l) (m r) then rest else sub_ℕ (m l) (m r)

pub strncmp : ℕ → ℕ → ℕ → Memory → ℤ
unfolding strncmp_loop goes_on
strncmp s1 s2 n m = if n == 0 then pos 0 else strncmp_loop (n - 1) s1 s2 m

-- `(size_t) -1` is the bound.
pub strcmp : ℕ → ℕ → Memory → ℤ
unfolding strncmp
strcmp s1 s2 m = strncmp s1 s2 (2 ^ 32 - 1) m
