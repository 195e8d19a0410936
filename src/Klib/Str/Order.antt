-- ===== src/Klib/Str/Order.antt =====
-- strncmp and strcmp of klib/src/string.c.
use openperf_abstract_machin.Prelude.{
  ℕ, zero, suc, ◌+◌, ◌-◌, ◌^◌, ◌≤◌, ◌<◌, ◌≡◌, ◌≢◌, ◌↔◌, ◌⊎◌, inl, inr, refl, true, false,
  Bool-cases, Memory, IsString, arith,
}
use openperf_abstract_machin.Prelude.Int.{ℤ, pos, sub_ℕ}
use openperf_abstract_machin.Klib.Mem.Compare.{SameBytes, SameBytes-suc}
use openperf_abstract_machin.Klib.Str.{goes_on, strncmp_loop, strncmp, strcmp}

-- The first `j` bytes of the strings are equal and none is NUL.
abbrev pub SamePrefix : ℕ → ℕ → ℕ → Memory → Type 0
SamePrefix a b j m = SameBytes a b j m × ((i : ℕ) → i < j → m (a + i) ≢ 0)

goes_on-true : (x y : ℕ) → goes_on x y ≡ true → (x ≡ y) × (x ≢ 0)
unfolding goes_on
goes_on-true x y h = ground arith

goes_on-false : (x y : ℕ) → goes_on x y ≡ false → (x ≡ 0) ⊎ (y ≡ 0) ⊎ (x ≢ y)
unfolding goes_on
goes_on-false x y h = ground arith

SamePrefix-suc :
    (a b j : ℕ) (m : Memory)
    → m a ≡ m b
    → m a ≢ 0
    → SamePrefix (a + 1) (b + 1) j m
    → SamePrefix a b (suc j) m
SamePrefix-suc a b j m e ne (same, full) = (SameBytes-suc a b j m e same, rest)
  where
    rest : (i : ℕ) → i < suc j → m (a + i) ≢ 0
    rest zero h z = ne (ground arith)
    rest (suc i) h z = full i (omega arith) (ground arith)

-- Where the loop stands when it stops: what it has passed, why it stops, what it returns.
record Stops (n a b : ℕ) (m : Memory) (result : ℤ) : Type 0 where
  at_index : ℕ
  within : at_index ≤ n
  passed : SamePrefix a b at_index m
  why :
      (at_index ≡ n)
      ⊎ (m (a + at_index) ≡ 0)
      ⊎ (m (b + at_index) ≡ 0)
      ⊎ (m (a + at_index) ≢ m (b + at_index))
  gives : result ≡ sub_ℕ (m (a + at_index)) (m (b + at_index))

Stops-zero :
    (n a b : ℕ) (m : Memory) (r : ℤ)
    → r ≡ sub_ℕ (m a) (m b)
    → (0 ≡ n) ⊎ (m a ≡ 0) ⊎ (m b ≡ 0) ⊎ (m a ≢ m b)
    → Stops n a b m r
Stops-zero n a b m r e w = record {
  at_index = 0;
  within = omega arith;
  passed = ((λ j h. absurd (omega arith)), λ j h. absurd (omega arith));
  why = ground arith;
  gives = ground arith;
}

Stops-suc :
    (n a b : ℕ) (m : Memory) (r : ℤ)
    → m a ≡ m b
    → m a ≢ 0
    → Stops n (a + 1) (b + 1) m r
    → Stops (suc n) a b m r
Stops-suc n a b m r e ne s = record {
  at_index = suc s.at_index;
  within = omega (arith, s.within);
  passed = SamePrefix-suc a b s.at_index m e ne s.passed;
  why = ground (arith, s.why);
  gives = ground (arith, s.gives);
}

strncmp_loop-Stops : (n a b : ℕ) (m : Memory) → Stops n a b m (strncmp_loop n a b m)
unfolding strncmp_loop
strncmp_loop-Stops zero a b m = Stops-zero 0 a b m _ refl (inl refl)
strncmp_loop-Stops (suc n) a b m = elim (Bool-cases (goes_on (m a) (m b))) [
  | inl more ↦ rw more (
      Stops-suc n a b m _ (goes_on-true (m a) (m b) more).0 (goes_on-true (m a) (m b) more).1
        (strncmp_loop-Stops n (a + 1) (b + 1) m))
  | inr stop ↦ rw stop (Stops-zero (suc n) a b m _ refl (inr (goes_on-false (m a) (m b) stop)))
]

module _ {n a b k l : ℕ} {m : Memory} {r : ℤ} (sa : IsString m a k) (sb : IsString m b l)
    (s : Stops n a b m r) where
  Stops-le : (s.at_index ≤ k) × (s.at_index ≤ l)
  Stops-le =
      (ground (arith, s.passed.1 k, sa.ends), ground (arith, s.passed.1 l, s.passed.0 l, sb.ends))

  -- A result of 0 means that the loop stopped at the NUL of both.
  Stops-equal : k ≤ n → l ≤ n → r ≡ pos 0 → (s.at_index ≡ k) × (s.at_index ≡ l)
  Stops-equal hk hl e =
      ground (arith, s.gives, s.why, sa.body s.at_index, sb.body s.at_index, Stops-le)

  Stops-same : k ≡ l → SameBytes a b k m → r ≡ pos 0
  Stops-same e same = ground (arith, s.gives, same s.at_index, sa.ends, sb.ends, Stops-le)

strncmp-suc : (n a b : ℕ) (m : Memory) → strncmp a b (suc n) m ≡ strncmp_loop n a b m
unfolding strncmp
strncmp-suc n a b m = ground arith

-- On two strings shorter than the bound `n`, strncmp returns 0 exactly if they have the same length
-- and the same characters.
pub strncmp_zero_iff :
    (n a b k l : ℕ) (m : Memory)
    → IsString m a k
    → IsString m b l
    → k < n
    → l < n
    → (strncmp a b n m ≡ pos 0) ↔ ((k ≡ l) × SameBytes a b k m)
strncmp_zero_iff zero a b k l m sa sb hk hl = absurd (omega arith)
strncmp_zero_iff (suc n) a b k l m sa sb hk hl =
    let stops = strncmp_loop-Stops n a b m in
    rw strncmp-suc (
      (λ e.
          let (p, q) = Stops-equal sa sb stops (omega arith) (omega arith) e in
          (omega arith, λ j h. stops.passed.0 j (omega arith))),
      (λ (e, same). Stops-same sa sb stops e same),
    )

-- On two strings shorter than the bound that strcmp passes, strcmp returns 0 exactly if they have
-- the same length and the same characters.
pub strcmp_zero_iff :
    (a b k l : ℕ) (m : Memory)
    → IsString m a k
    → IsString m b l
    → k < 2 ^ 32 - 1
    → l < 2 ^ 32 - 1
    → (strcmp a b m ≡ pos 0) ↔ ((k ≡ l) × SameBytes a b k m)
unfolding strcmp
strcmp_zero_iff a b k l m = strncmp_zero_iff (2 ^ 32 - 1) a b k l m
