-- ===== src/Klib/Str/Pad.antt =====
-- strncpy and stpncpy of klib/src/string.c.
use mathlib.Core.Path.{ap₂, fun_ext}
use openperf_abstract_machin.Prelude.{
  ℕ, zero, suc, ◌+◌, ◌-◌, ◌≡◌, ◌∙◌, ◌&&◌, min, Memory, IsString, Disjoint, write, ltb, leb,
  if◌then◌else◌, eq_true, eq_false, ◌⊎◌, refl, ◌≤◌, arith, ◌<◌,
}
use openperf_abstract_machin.Klib.Mem.Copy.{moved}
use openperf_abstract_machin.Klib.Str.{zero_fill, strncpy_loop, strncpy, stpncpy}
use openperf_abstract_machin.Klib.Str.Length.{
  IsString-suc, IsString-first_ne, IsString-write, IsString-zero,
}

-- The memory in which `n` bytes at `d` hold the string of length `k` at `s`, cut at `n` bytes or
-- filled up with NULs.
abbrev pub padded : ℕ → ℕ → ℕ → ℕ → Memory → Memory
padded d s k n m a =
    if leb d a && ltb a (d + n) then (if ltb (a - d) k then m (s + (a - d)) else 0) else m a

zero_fill_lem :
    (left d i : ℕ) (m : Memory) (a : ℕ)
    → zero_fill left d i m a ≡ (if leb (d + i) a && ltb a (d + i + left) then 0 else m a)
unfolding zero_fill
zero_fill_lem zero d i m a = ground arith
zero_fill_lem (suc left) d i m a =
    ground (arith, zero_fill_lem left d (i + 1) (write m (d + i) 0) a)

padded-write :
    (d s k n : ℕ) (m : Memory)
    → Disjoint d (suc n) s (suc (suc k))
    → padded (d + 1) (s + 1) k n (write m d (m s)) ≡ padded d s (suc k) (suc n) m
padded-write d s k n m disjoint = fun_ext λ a. ground arith

strncpy_loop_lem :
    (n d s i k : ℕ) (m : Memory) {d' s' : ℕ}
    → d + i ≡ d'
    → s + i ≡ s'
    → IsString m s' k
    → Disjoint d' n s' (suc k)
    → strncpy_loop n d s i m ≡ padded d' s' k n m
unfolding strncpy_loop
strncpy_loop_lem zero d s i k m p q str dis = fun_ext λ a. ground arith
strncpy_loop_lem (suc n) d s i zero m {d'} {s'} p q str dis =
    fun_ext λ a. ground (arith, IsString-zero s' str, zero_fill_lem (suc n) d i m a)
strncpy_loop_lem (suc n) d s i (suc k) m {d'} {s'} p q str dis =
    let m' = write m d' (m s') in
    let str' : IsString m' (s' + 1) k =
      IsString-write (s' + 1) k d' (m s') (λ j h e. omega arith) (IsString-suc s' k str) in
    let ih : strncpy_loop n d s (i + 1) m' ≡ padded (d' + 1) (s' + 1) k n m' =
      strncpy_loop_lem n d s (i + 1) k m' (omega arith) (omega arith) str' (omega arith) in
    rw (p, q, eq_false (IsString-first_ne s' k str)) (ih ∙ padded-write d' s' k n m dis)

-- strncpy writes exactly `n` bytes at the destination: the string at the source, cut at `n` bytes
-- with no NUL behind it, or filled up with NULs, where the source lies outside of what is written.
pub strncpy-padded :
    (d s k n : ℕ) (m : Memory)
    → IsString m s k
    → Disjoint d n s (suc k)
    → strncpy d s n m ≡ (d, padded d s k n m)
unfolding strncpy
strncpy-padded d s k n m str dis =
    rw (strncpy_loop_lem n d s 0 k m (omega arith) (omega arith) str dis)

-- Where the source lies outside of the `n` bytes from the destination on, stpncpy copies the
-- string and its NUL, at most `n` bytes, changes nothing else, and returns the address of the
-- copied NUL or of the first byte behind the `n`.
pub stpncpy-moved :
    (d s k n : ℕ) (m : Memory)
    → IsString m s k
    → Disjoint d n s (suc k)
    → stpncpy d s n m ≡ (d + min k n, moved d s (min (suc k) n) m)
unfolding stpncpy
stpncpy-moved d s k zero m str dis = ap₂ (λ x y. (x, y)) (omega arith) (fun_ext λ a. ground arith)
stpncpy-moved d s zero (suc n) m str dis =
    rw (eq_true (IsString-zero s str))
      (ap₂ (λ x y. (x, y)) (omega arith) (fun_ext λ a. ground arith))
stpncpy-moved d s (suc k) (suc n) m str dis =
    let m' = write m d (m s) in
    let str' : IsString m' (s + 1) k =
      IsString-write (s + 1) k d (m s) (λ j h e. omega arith) (IsString-suc s k str) in
    rw (eq_false (IsString-first_ne s k str)) (
      stpncpy-moved (d + 1) (s + 1) k n m' str' (omega arith)
      ∙ ap₂ (λ x y. (x, y)) (omega arith) (fun_ext λ a. ground arith))

-- Whatever the source is, stpncpy returns an address from `d` to `d + n`, and writes nothing outside
-- of these `n` bytes.
pub stpncpy_frame :
    (d s n : ℕ) (m : Memory)
    → let (q, m') = stpncpy d s n m in
      (d ≤ q) × (q ≤ d + n) × ((a : ℕ) → (a < d) ⊎ (d + n ≤ a) → m' a ≡ m a)
unfolding stpncpy
stpncpy_frame d s zero m = (omega arith, omega arith, λ a h. refl)
stpncpy_frame d s (suc n) m =
    let (lo, hi, frame) = stpncpy_frame (d + 1) (s + 1) n (write m d (m s)) in
    (ground arith, ground arith, λ a h. ground (arith, frame a))
