-- ===== src/Klib/Stdlib/Heap.antt =====
-- The bump allocator of klib/src/stdlib.c.
use native.Mathlib.Decide.{dec_lt}
use openperf_abstract_machin.Prelude.{
  ℕ, ◌+◌, ◌-◌, ◌*◌, ◌/◌, ◌%◌, ◌^◌, ◌≤◌, ◌<◌, ◌≡◌, ◌⊎◌, inl, inr, size, sub_size, arith,
}
use openperf_abstract_machin.Prelude.Bits.{bit_and_field}
use openperf_abstract_machin.Klib.Stdlib.{roundup, HeapState, allocated, panicked, malloc}

-- The next multiple of 4, modulo 2 ^ 32.
roundup_four : (a : ℕ) → roundup a 4 ≡ (a + 3) % 2 ^ 32 / 4 * 4
unfolding roundup
roundup_four a = ground (arith, bit_and_field 2 30 (sub_size (a + 4) 1))

-- The heap lies in the address space, and the next address is a multiple of 4 in it.
pub record IsValid (h : HeapState) : Type 0 where
  pub aligned : h.alloc_ptr % 4 ≡ 0
  pub above : h.start ≤ h.alloc_ptr
  pub below : h.alloc_ptr < h.limit
  pub fits : h.limit ≤ 2 ^ 32

-- What a successful call gives: the area that starts where the heap was used up to.
pub record Fresh (h : HeapState) (n p : ℕ) (h' : HeapState) : Type 0 where
  pub at_ptr : p ≡ h.alloc_ptr
  pub aligned : p % 4 ≡ 0
  pub inside : p + n ≤ h'.alloc_ptr
  pub tight : h'.alloc_ptr < p + n + 4
  pub same_start : h'.start ≡ h.start
  pub same_limit : h'.limit ≡ h.limit
  pub valid : IsValid h'

-- In a valid heap a request that does not run over the address space either panics, having no room
-- below the limit of the heap, or gets an aligned area of its own in a heap that stays valid.
pub malloc_lem :
    (h : HeapState) (n : ℕ)
    → IsValid h
    → h.alloc_ptr + n + 3 < 2 ^ 32
    → ((h' : HeapState) × (malloc h n ≡ allocated h.alloc_ptr h') × Fresh h n h.alloc_ptr h')
      ⊎ ((h' : HeapState) × (malloc h n ≡ panicked h') × (h.limit ≤ h.alloc_ptr + n + 3))
unfolding malloc
malloc_lem h n v small =
    let next = roundup (size (h.alloc_ptr + n)) 4 in
    let exact : next ≡ (h.alloc_ptr + n + 3) / 4 * 4 =
      omega (arith, roundup_four (size (h.alloc_ptr + n))) in
    elim (dec_lt next h.limit) [
      | yes p ↦ inl (record h { alloc_ptr = next }, ground arith, omega arith)
      | no p ↦ inr (record h { alloc_ptr = next }, ground arith, omega arith)
    ]

-- Calls of malloc that do not run over the address space, one after the other.
pub data Later (h : HeapState) : HeapState → Type 0 where
  now : Later h h
  call :
      {g : HeapState} (g' : HeapState) (n : ℕ)
      → Later h g
      → g.alloc_ptr + n + 3 < 2 ^ 32
      → malloc g n ≡ allocated g.alloc_ptr g'
      → Later h g'

malloc-Fresh :
    {h h' : HeapState} (n : ℕ) {p : ℕ}
    → IsValid h
    → h.alloc_ptr + n + 3 < 2 ^ 32
    → malloc h n ≡ allocated p h'
    → Fresh h n p h'
malloc-Fresh {h} n v small e = elim (malloc_lem h n v small) [
  | inl (g, f, fresh) ↦ ground arith
  | inr (g, f, full) ↦ cc
]

-- Later calls keep the heap valid and never move the next address back.
Later-IsValid : {h g : HeapState} → IsValid h → Later h g → IsValid g × (h.alloc_ptr ≤ g.alloc_ptr)
Later-IsValid v now = (v, omega arith)
Later-IsValid v (call g' n later small e) =
    let (valid, le) = Later-IsValid v later in
    let fresh = malloc-Fresh n valid small e in
    (fresh.valid, omega (arith, fresh.inside, fresh.at_ptr))

-- In a valid heap an area that malloc returns lies below every area that a later call returns, and
-- that one below the limit of the heap, however many calls stand between the two, as long as no
-- request runs over the address space.
pub malloc-disjoint :
    {h h' g g' : HeapState} (n k : ℕ) {p q : ℕ}
    → IsValid h
    → h.alloc_ptr + n + 3 < 2 ^ 32
    → malloc h n ≡ allocated p h'
    → Later h' g
    → g.alloc_ptr + k + 3 < 2 ^ 32
    → malloc g k ≡ allocated q g'
    → (p + n ≤ q) × (q + k < g'.limit)
malloc-disjoint n k v small e later small' e' =
    let first = malloc-Fresh n v small e in
    let (valid, le) = Later-IsValid first.valid later in
    let second = malloc-Fresh k valid small' e' in
    (omega (arith, first.inside, second.at_ptr), omega (arith, second.inside, second.valid))

-- In a valid heap a request of `2 ^ 32 - k` bytes, for a positive multiple `k` of 4 that is no
-- more than what is in use, is granted and moves the next address back by `k`.
pub malloc-backwards :
    (h : HeapState) (k : ℕ)
    → IsValid h
    → k % 4 ≡ 0
    → 0 < k
    → h.start + k ≤ h.alloc_ptr
    → malloc h (2 ^ 32 - k) ≡ allocated h.alloc_ptr (record h { alloc_ptr = h.alloc_ptr - k })
unfolding malloc
malloc-backwards h k v mult pos_k used =
    let exact : roundup (size (h.alloc_ptr + (2 ^ 32 - k))) 4 ≡ h.alloc_ptr - k =
      omega (arith, roundup_four (size (h.alloc_ptr + (2 ^ 32 - k)))) in
    rw exact (ground arith)
