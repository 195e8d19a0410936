-- ===== src/Klib/Mem/Compare.antt =====
-- What memcmp of klib/src/string.c returns.
use openperf_abstract_machin.Prelude.{
  ℕ, zero, suc, ◌+◌, ◌<◌, ◌≡◌, ◌≢◌, ◌⊎◌, inl, inr, ◌∙◌, refl, Memory, arith,
}
use native.Mathlib.Decide.{ℕ_discrete}
use openperf_abstract_machin.Prelude.Int.{pos, sub_ℕ}
use openperf_abstract_machin.Klib.Mem.{memcmp}

-- The areas hold the same `n` bytes.
abbrev pub SameBytes : ℕ → ℕ → ℕ → Memory → Type 0
SameBytes a b n m = (j : ℕ) → j < n → m (a + j) ≡ m (b + j)

pub SameBytes-suc :
    (a b n : ℕ) (m : Memory) → m a ≡ m b → SameBytes (a + 1) (b + 1) n m → SameBytes a b (suc n) m
SameBytes-suc a b n m e same zero h = ground arith
SameBytes-suc a b n m e same (suc j) h = ground (arith, same j)

memcmp-differs : (a b n : ℕ) (m : Memory) → m a ≢ m b → memcmp a b (suc n) m ≡ sub_ℕ (m a) (m b)
unfolding memcmp
memcmp-differs a b n m ne = ground arith

memcmp-agrees :
    (a b n : ℕ) (m : Memory) → m a ≡ m b → memcmp a b (suc n) m ≡ memcmp (a + 1) (b + 1) n m
unfolding memcmp
memcmp-agrees a b n m e = ground arith

-- memcmp returns 0 if the areas hold the same `n` bytes, and else the difference of the first two
-- bytes that differ.
pub memcmp_lem :
    (a b n : ℕ) (m : Memory)
    → (SameBytes a b n m × (memcmp a b n m ≡ pos 0))
      ⊎ ((j : ℕ) × (j < n)
          × SameBytes a b j m
          × (m (a + j) ≢ m (b + j))
          × (memcmp a b n m ≡ sub_ℕ (m (a + j)) (m (b + j))))
memcmp_lem a b zero m = inl ((λ j h. absurd (omega arith)), unfold memcmp in refl)
memcmp_lem a b (suc n) m = elim (ℕ_discrete (m a) (m b)) [
  | yes e ↦ elim (memcmp_lem (a + 1) (b + 1) n m) [
    | inl (same, r) ↦ inl (SameBytes-suc a b n m e same, memcmp-agrees a b n m e ∙ r)
    | inr (j, h, same, ne, r) ↦ inr (
      suc j,
      omega arith,
      SameBytes-suc a b j m e same,
      (λ q. ne (ground arith)),
      memcmp-agrees a b n m e ∙ r ∙ ground arith,
    )
  ]
  | no ne ↦ inr (
    0,
    omega arith,
    (λ j h. absurd (omega arith)),
    (λ q. ne (ground arith)),
    memcmp-differs a b n m ne ∙ ground arith,
  )
]
