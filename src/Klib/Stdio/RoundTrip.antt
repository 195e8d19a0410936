-- ===== src/Klib/Stdio/RoundTrip.antt =====
-- The decimal text that int2str of klib/src/stdio.c writes, read back by atoi of klib/src/stdlib.c.
use native.Mathlib.Nat.{pow-suc}
use native.Mathlib.Decide.{ℕ_discrete}
use openperf_abstract_machin.Prelude.{
  ℕ, zero, suc, ◌+◌, ◌/◌, ◌%◌, ◌^◌, ◌≤◌, ◌<◌, ◌≡◌, ◌≢◌, ◌∙◌, refl, ap, false, List, [], ◌∷◌, length,
  Memory, write, eq_false, eq_true, arith,
}
use openperf_abstract_machin.Prelude.Int.{pos}
use openperf_abstract_machin.Klib.Stdlib.{int_max, is_digit, read, atoi}
use openperf_abstract_machin.Klib.Stdlib.Decimal.{Holds, AllDigits, value, atoi_lem}
use openperf_abstract_machin.Klib.Stdio.{collect, emit, digits, int2str}

-- The collected digits spell the number, behind which those collected before go on.
value-collect :
    (fuel t : ℕ) (buf : List ℕ) → t < 10 ^ fuel → value 0 (collect fuel t buf) ≡ value t buf
unfolding collect
value-collect zero t buf h = let e : t ≡ 0 = omega arith in rw e
value-collect (suc fuel) t buf h =
    let small : t / 10 < 10 ^ fuel = omega (arith, pow-suc 10 fuel) in
    ground (arith, value-collect fuel (t / 10) ((t % 10 + b'0') ∷ buf) small, value_digit t buf)
  where
    value_digit : (t : ℕ) (buf : List ℕ) → value (t / 10) ((t % 10 + b'0') ∷ buf) ≡ value t buf
    value_digit t buf = ap (λ (x : ℕ). value x buf) (omega arith)

collect-AllDigits : (fuel t : ℕ) (buf : List ℕ) → AllDigits buf → AllDigits (collect fuel t buf)
unfolding collect
collect-AllDigits zero t buf h = h
collect-AllDigits (suc fuel) t buf h = elim (ℕ_discrete t 0) [
  | yes e ↦ rw (eq_true e) h
  | no ne ↦
      rw (eq_false ne)
        (collect-AllDigits fuel (t / 10) ((t % 10 + b'0') ∷ buf) (omega arith, omega arith, h))
]

-- With room for all characters, emit lays them down one after the other.
emit_lem :
    (cs : List ℕ) (p n : ℕ) (m : Memory)
    → length cs ≤ n
    → ((emit cs p n m).0 ≡ length cs)
      × Holds (emit cs p n m).1 p cs
      × ((a : ℕ) → a < p → (emit cs p n m).1 a ≡ m a)
unfolding emit
emit_lem [] p n m h = (refl, tt, λ a l. refl)
emit_lem (c ∷ cs) p zero m h = absurd (omega arith)
emit_lem (c ∷ cs) p (suc n) m h =
    let (k, holds, frame) = emit_lem cs (p + 1) n (write m p c) (omega arith) in
    (ap suc k, (ground (arith, frame p), holds), λ a l. ground (arith, frame a))

no_space : (cs : List ℕ) (m : Memory) (p : ℕ) → cs ≢ [] → AllDigits cs → Holds m p cs → m p ≢ b' '
no_space [] m p ne ds holds = absurd (ne refl)
no_space (c ∷ cs) m p ne (lo, hi, ds) (e, holds) = omega arith

value-digits : (v : ℕ) → v ≤ int_max → value 0 (digits v) ≡ v
value-digits v h = value-collect 11 v [] (omega arith)

digits-ne-nil : (v : ℕ) → 0 < v → v ≤ int_max → digits v ≢ []
digits-ne-nil v pos_v h e = let z : value 0 (digits v) ≡ 0 = rw e in omega (arith, value-digits v h)

int2str-emit :
    (text p v n : ℕ) (m : Memory)
    → p ≢ 0
    → 0 < v
    → int2str text p (pos v) (suc n) m ≡ emit (digits v) p (suc n) m
unfolding int2str
int2str-emit text p zero n m ne h = absurd (omega arith)
int2str-emit text p (suc v) n m ne h = rw (eq_false ne)

-- Where int2str has room for all digits of a positive number and no digit follows what it wrote,
-- atoi reads the number back, if the address is not NULL, the number is at least 48 below the
-- limit of `int` and the fuel exceeds the number of digits.
pub atoi-int2str :
    (text fuel p v n : ℕ) (m : Memory)
    → p ≢ 0
    → 0 < v
    → v + b'0' ≤ int_max
    → length (digits v) ≤ suc n
    → let (k, m') = int2str text p (pos v) (suc n) m in
      is_digit (m' (p + k)) ≡ false → k < fuel → atoi fuel p m' ≡ read v
atoi-int2str text fuel p v n m ne pos_v fits room stop h =
    let e = int2str-emit text p v n m ne pos_v in
    let (k, holds, frame) = emit_lem (digits v) p (suc n) m room in
    let ds = collect-AllDigits 11 v [] tt in
    let all_read =
      atoi_lem fuel p 0 p (digits v) (emit (digits v) p (suc n) m).1 (omega arith)
        (λ j l. absurd (omega arith))
        (no_space (digits v) _ p (digits-ne-nil v pos_v (omega arith)) ds holds) holds ds
        (rw (e, k) at stop) (omega (arith, value-digits v (omega arith)))
        (let h2 : length (digits v) < fuel = rw (e, k) at h in omega arith) in
    rw e (all_read ∙ ap read (value-digits v (omega arith)))
