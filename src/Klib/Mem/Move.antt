-- ===== src/Klib/Mem/Move.antt =====
-- What memmove of klib/src/string.c leaves in memory, case by case of how the areas overlap.
use openperf_abstract_machin.Prelude.{
  ℕ, ◌+◌, ◌-◌, ◌^◌, ◌≤◌, ◌<◌, ◌⊎◌, ◌≡◌, refl, Memory, Disjoint, inl, inr, arith,
}
use native.Mathlib.Decide.{dec_lt}
use openperf_abstract_machin.Klib.Mem.{memcpy, memmove}
use openperf_abstract_machin.Klib.Mem.Copy.{moved, memcpy-moved, memcpy-overlap}

-- The overlaps that memmove handles: none, the same area, or a destination above the source by at
-- least half of the length.
abbrev pub IsHandled : ℕ → ℕ → ℕ → Type 0
IsHandled d s n = Disjoint d n s n ⊎ (d ≡ s) ⊎ ((s < d) × (n + s + s ≤ d + d))

module _ (d s n : ℕ) (m : Memory) (a : ℕ) (hd : d + n ≤ 2 ^ 32) (hs : s + n ≤ 2 ^ 32) where
  memmove-Disjoint : 0 < d + n → 0 < s + n → Disjoint d n s n → memmove d s n m a ≡ moved d s n m a
  unfolding memmove
  memmove-Disjoint pd ps h = ground (arith, memcpy-moved d s n m a)

  memmove-same : d ≡ s → memmove d s n m a ≡ moved d s n m a
  unfolding memmove
  memmove-same e = ground arith

  memmove-behind : s < d → d < s + n → n + s + s ≤ d + d → memmove d s n m a ≡ moved d s n m a
  unfolding memmove
  memmove-behind below over half = ground (
    arith,
    memcpy-moved (d + d - s) d (s + n - d) m a,
    memcpy-moved d s (d - s) (memcpy (d + d - s) d (s + n - d) m) a,
    memcpy-moved (d + d - s) d (s + n - d) m (s + (a - d)),
  )

-- On areas that fit the address space, at an address other than NULL or with a length other than
-- 0, memmove leaves in the destination what the source held and changes nothing else, if the areas
-- are disjoint or equal, or if the destination starts above the source by at least half the
-- length.
pub memmove-moved :
    (d s n : ℕ) (m : Memory) (a : ℕ)
    → d + n ≤ 2 ^ 32
    → s + n ≤ 2 ^ 32
    → 0 < d + n
    → 0 < s + n
    → IsHandled d s n
    → memmove d s n m a ≡ moved d s n m a
memmove-moved d s n m a hd hs pd ps (inl h) = memmove-Disjoint d s n m a hd hs pd ps h
memmove-moved d s n m a hd hs pd ps (inr (inl e)) = memmove-same d s n m a hd hs e
memmove-moved d s n m a hd hs pd ps (inr (inr (below, half))) = elim (dec_lt d (s + n)) [
  | yes over ↦ memmove-behind d s n m a hd hs below over half
  | no h ↦ memmove-Disjoint d s n m a hd hs pd ps (inr (omega arith))
]

module _ (d s n : ℕ) (m : Memory) (hs : s + n ≤ 2 ^ 32) (above : d < s) (over : s < d + n) where
  memmove_ahead-copies :
      memmove d s n m ≡ memcpy (d + n) (d + n - (s - d)) (s - d) (memcpy d s (d + n - s) m)
  unfolding memmove
  memmove_ahead-copies = ground arith

  -- The first copy either moves its bytes or, where its areas overlap, does nothing.
  first_copy-last : memcpy d s (d + n - s) m (d + n - 1) ≡ m (d + n - 1)
  first_copy-last = elim (dec_lt s (d + (d + n - s))) [
    | yes p ↦ rw (memcpy-overlap d s (d + n - s) m (omega arith) p (omega arith) (omega arith)) refl
    | no p ↦ ground (arith, memcpy-moved d s (d + n - s) m (d + n - 1))
  ]

-- With the destination below an overlapping source, in an address space that holds the source, the
-- last byte of the destination keeps what it held, and each of the `s - d` bytes behind the
-- destination is overwritten with the byte that the first copy has left `s - d` places before it.
pub memmove-ahead_wrong :
    (d s n : ℕ) (m : Memory) (j : ℕ)
    → s + n ≤ 2 ^ 32
    → d < s
    → s < d + n
    → j < s - d
    → (memmove d s n m (d + n - 1) ≡ m (d + n - 1))
      × (memmove d s n m (d + n + j) ≡ memcpy d s (d + n - s) m (d + n - (s - d) + j))
memmove-ahead_wrong d s n m j hs above over h = rw (memmove_ahead-copies d s n m hs above over) (
  ground (
    arith,
    first_copy-last d s n m hs above over,
    memcpy-moved (d + n) (d + n - (s - d)) (s - d) (memcpy d s (d + n - s) m) (d + n - 1),
  ),
  ground (
    arith,
    memcpy-moved (d + n) (d + n - (s - d)) (s - d) (memcpy d s (d + n - s) m) (d + n + j),
  ),
)
