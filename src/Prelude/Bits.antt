-- ===== src/Prelude/Bits.antt =====
-- `&` and `|` on the native numbers as arithmetic, at every width: masks of contiguous bits, and
-- sums of disjoint fields.
use Prim.Native.Nat.{max, digits, bitwise, bit_and, bit_or, bit_and-bitwise, bit_or-bitwise}
use native.Mathlib.Nat.{
  pow-suc, one-le-pow, div-add-mod, mod-lt, mul-add-mod_self_left, mod-eq_of_lt, div-div-eq-div-mul,
}
use openperf_abstract_machin.Prelude.{
  ℕ, zero, suc, ◌+◌, ◌-◌, ◌*◌, ◌/◌, ◌%◌, ◌^◌, ◌≤◌, ◌<◌, min, ◌≡◌, refl, sym, ap, ◌∙◌, arith,
}

-- A bitwise operation recurs on the digits of its first argument, and more fuel changes nothing.
module _ (rest : ℕ → ℕ) (digit : ℕ → ℕ → ℕ) where
  more_fuel : (f g a b : ℕ) → a ≤ f → a ≤ g → digits rest digit f a b ≡ digits rest digit g a b
  more_fuel zero zero a b p q = refl
  more_fuel zero (suc g) zero b p q = refl
  more_fuel (suc f) zero zero b p q = refl
  more_fuel (suc f) (suc g) zero b p q = refl
  more_fuel zero g (suc a) b p q = absurd (omega arith)
  more_fuel (suc f) zero (suc a) b p q = absurd (omega arith)
  more_fuel (suc f) (suc g) (suc a) b p q =
      rw (more_fuel f g (suc a / 2) (b / 2) (omega arith) (omega arith))

  lowest_digit :
      (a b : ℕ)
      → bitwise rest digit (suc a) b
        ≡ bitwise rest digit (suc a / 2) (b / 2) * 2 + digit (suc a % 2) (b % 2)
  lowest_digit a b = rw (more_fuel a (suc a / 2) (suc a / 2) (b / 2) (omega arith) (omega arith))

pub bit_and_step : (a b : ℕ) → bit_and a b ≡ bit_and (a / 2) (b / 2) * 2 + min (a % 2) (b % 2)
bit_and_step zero b = omega (arith, bit_and-bitwise 0 b, bit_and-bitwise 0 (b / 2))
bit_and_step (suc a) b =
    bit_and-bitwise (suc a) b
    ∙ lowest_digit (λ b. zero) min a b
    ∙ ap (λ (t : ℕ). t * 2 + min (suc a % 2) (b % 2)) (sym (bit_and-bitwise (suc a / 2) (b / 2)))

pub bit_or_step : (a b : ℕ) → bit_or a b ≡ bit_or (a / 2) (b / 2) * 2 + max (a % 2) (b % 2)
bit_or_step zero b = omega (arith, bit_or-bitwise 0 b, bit_or-bitwise 0 (b / 2))
bit_or_step (suc a) b =
    bit_or-bitwise (suc a) b
    ∙ lowest_digit (λ b. b) max a b
    ∙ ap (λ (t : ℕ). t * 2 + max (suc a % 2) (b % 2)) (sym (bit_or-bitwise (suc a / 2) (b / 2)))

bit_and-zero_below : (f a : ℕ) → a ≤ f → bit_and a 0 ≡ 0
bit_and-zero_below f zero h = refl
bit_and-zero_below zero (suc a) h = absurd (omega arith)
bit_and-zero_below (suc f) (suc a) h =
    omega (arith, bit_and_step (suc a) 0, bit_and-zero_below f (suc a / 2) (omega arith))

pub bit_and-zero : (a : ℕ) → bit_and a 0 ≡ 0
bit_and-zero a = bit_and-zero_below a a (omega arith)

bit_or-zero_below : (f a : ℕ) → a ≤ f → bit_or a 0 ≡ a
bit_or-zero_below f zero h = refl
bit_or-zero_below zero (suc a) h = absurd (omega arith)
bit_or-zero_below (suc f) (suc a) h =
    omega (arith, bit_or_step (suc a) 0, bit_or-zero_below f (suc a / 2) (omega arith))

pub bit_or-zero : (a : ℕ) → bit_or a 0 ≡ a
bit_or-zero a = bit_or-zero_below a a (omega arith)

-- The digits of a remainder by a power of two.
mod-double : (a t : ℕ) → 0 < t → a % (2 * t) ≡ (a / 2) % t * 2 + a % 2
mod-double a t h =
    let e : a ≡ 2 * t * (a / 2 / t) + ((a / 2) % t * 2 + a % 2) =
      omega (arith, div-add-mod (a / 2) t) in
    let small : (a / 2) % t * 2 + a % 2 < 2 * t = omega (arith, mod-lt (a / 2) h) in
    ap (λ (x : ℕ). x % (2 * t)) e ∙ mul-add-mod_self_left (2 * t) (a / 2 / t) _ ∙ mod-eq_of_lt small

-- The mask of the `j` lowest bits.
pub bit_and_low : (j a : ℕ) → bit_and a (2 ^ j - 1) ≡ a % 2 ^ j
bit_and_low zero a = rw bit_and-zero (omega arith)
bit_and_low (suc j) a =
    let e : 2 ^ suc j ≡ 2 * 2 ^ j = omega (arith, pow-suc 2 j) in
    rw e (
      bit_and_step a (2 * 2 ^ j - 1)
      ∙ ground (arith, one-le-pow j 2, bit_and_low j (a / 2), mod-double a (2 ^ j)))

-- The mask of `j` bits from bit `k` on.
pub bit_and_field : (k j a : ℕ) → bit_and a ((2 ^ j - 1) * 2 ^ k) ≡ a / 2 ^ k % 2 ^ j * 2 ^ k
bit_and_field zero j a = ground (arith, bit_and_low j a)
bit_and_field (suc k) j a =
    let e : 2 ^ suc k ≡ 2 * 2 ^ k = omega (arith, pow-suc 2 k) in
    let f : (2 ^ j - 1) * (2 * 2 ^ k) ≡ 2 * ((2 ^ j - 1) * 2 ^ k) = omega arith in
    let d : a / (2 * 2 ^ k) ≡ a / 2 / 2 ^ k = sym (div-div-eq-div-mul a 2 (2 ^ k)) in
    rw (e, f, d)
      (bit_and_step a (2 * ((2 ^ j - 1) * 2 ^ k)) ∙ ground (arith, bit_and_field k j (a / 2)))

-- `(q << k) | r` is a sum where `r` fits into the `k` bits.
pub bit_or_fields : (k q r : ℕ) → r < 2 ^ k → bit_or (q * 2 ^ k) r ≡ q * 2 ^ k + r
bit_or_fields zero q zero h = ground (arith, bit_or-zero (q * 1))
bit_or_fields zero q (suc r) h = absurd (omega arith)
bit_or_fields (suc k) q r h =
    let e : 2 ^ suc k ≡ 2 * 2 ^ k = omega (arith, pow-suc 2 k) in
    let f : q * (2 * 2 ^ k) ≡ 2 * (q * 2 ^ k) = omega arith in
    rw (e, f)
      (bit_or_step (2 * (q * 2 ^ k)) r ∙ ground (arith, bit_or_fields k q (r / 2) (omega arith)))

-- The fields may stand the other way round.
pub bit_or_fields_right : (k q r : ℕ) → r < 2 ^ k → bit_or r (q * 2 ^ k) ≡ q * 2 ^ k + r
bit_or_fields_right zero q zero h = omega (arith, bit_or-bitwise 0 (q * 2 ^ 0))
bit_or_fields_right zero q (suc r) h = absurd (omega arith)
bit_or_fields_right (suc k) q r h =
    let e : 2 ^ suc k ≡ 2 * 2 ^ k = omega (arith, pow-suc 2 k) in
    let f : q * (2 * 2 ^ k) ≡ 2 * (q * 2 ^ k) = omega arith in
    rw (e, f)
      (bit_or_step r (2 * (q * 2 ^ k))
        ∙ ground (arith, bit_or_fields_right k q (r / 2) (omega arith)))

-- Low digits are joined below those of a multiple of a power of two.
pub bit_or_above :
    (k q r s : ℕ) → r < 2 ^ k → s < 2 ^ k → bit_or (q * 2 ^ k + r) s ≡ q * 2 ^ k + bit_or r s
bit_or_above zero q zero zero hr hs = ground (arith, bit_or-zero (q * 1 + 0))
bit_or_above zero q zero (suc s) hr hs = absurd (omega arith)
bit_or_above zero q (suc r) s hr hs = absurd (omega arith)
bit_or_above (suc k) q r s hr hs =
    let e : 2 ^ suc k ≡ 2 * 2 ^ k = omega (arith, pow-suc 2 k) in
    let f : q * (2 * 2 ^ k) ≡ 2 * (q * 2 ^ k) = omega arith in
    rw (e, f)
      (bit_or_step (2 * (q * 2 ^ k) + r) s
        ∙ ground
            (arith, bit_or_step r s, bit_or_above k q (r / 2) (s / 2) (omega arith) (omega arith)))

-- `&` works on the bits below `k` and on the others apart.
pub bit_and_split :
    (k q r a : ℕ)
    → r < 2 ^ k
    → bit_and a (q * 2 ^ k + r) ≡ bit_and (a / 2 ^ k) q * 2 ^ k + bit_and (a % 2 ^ k) r
bit_and_split zero q zero a h =
    let e : a % 1 ≡ 0 = omega arith in ground (arith, e, bit_and-zero (a % 1))
bit_and_split zero q (suc r) a h = absurd (omega arith)
bit_and_split (suc k) q r a h =
    let e : 2 ^ suc k ≡ 2 * 2 ^ k = omega (arith, pow-suc 2 k) in
    let f : q * (2 * 2 ^ k) ≡ 2 * (q * 2 ^ k) = omega arith in
    let d : a / (2 * 2 ^ k) ≡ a / 2 / 2 ^ k = sym (div-div-eq-div-mul a 2 (2 ^ k)) in
    let h' : r < 2 * 2 ^ k = rw e at h in
    let half : a % (2 * 2 ^ k) / 2 ≡ a / 2 % 2 ^ k =
      omega (arith, mod-double a (2 ^ k) (one-le-pow k 2 (omega arith))) in
    let low : a % (2 * 2 ^ k) % 2 ≡ a % 2 =
      omega (arith, mod-double a (2 ^ k) (one-le-pow k 2 (omega arith))) in
    rw (e, f, d)
      (bit_and_step a (2 * (q * 2 ^ k) + r)
        ∙ ground (
          arith,
          bit_and_split k q (r / 2) (a / 2) (omega arith),
          bit_and_step (a % (2 * 2 ^ k)) r,
          half,
          low,
        ))
