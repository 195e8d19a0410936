-- ===== src/Klib/Str/Copy.antt =====
-- strcpy, stpcpy and strcat of klib/src/string.c.
use mathlib.Core.Path.{fun_ext}
use native.Mathlib.Decide.{dec_lt}
use openperf_abstract_machin.Prelude.{
  ℕ, zero, suc, ◌+◌, ◌-◌, ◌<◌, ◌≡◌, ◌≢◌, ap, some, Memory, IsString, Disjoint, write, arith,
}
use openperf_abstract_machin.Klib.Mem.Copy.{moved}
use openperf_abstract_machin.Klib.Str.{strlen, strcpy_loop, strcpy, stpcpy, strcat, strcat_at}
use openperf_abstract_machin.Klib.Str.Length.{
  IsString-suc, IsString-first_ne, IsString-write, IsString-zero, strlen_lem,
}

moved-write :
    (d s n : ℕ) (m : Memory)
    → Disjoint d (suc n) s (suc n)
    → moved (d + 1) (s + 1) n (write m d (m s)) ≡ moved d s (suc n) m
moved-write d s n m disjoint = fun_ext λ a. ground arith

moved-one : (d s : ℕ) (m : Memory) → m s ≡ 0 → write m d 0 ≡ moved d s 1 m
moved-one d s m e = fun_ext λ a. ground arith

module _ {m : Memory} {d s n : ℕ} (str : IsString m s (suc n))
    (disjoint : Disjoint d (suc (suc n)) s (suc (suc n))) where
  IsString-copied : IsString (write m d (m s)) (s + 1) n
  IsString-copied = IsString-write (s + 1) n d (m s) (λ j h e. omega arith) (IsString-suc s n str)

strcpy_loop_lem :
    (fuel d s i n : ℕ) (m : Memory) {d' s' : ℕ}
    → d + i ≡ d'
    → s + i ≡ s'
    → IsString m s' n
    → Disjoint d' (suc n) s' (suc n)
    → n < fuel
    → strcpy_loop fuel d s i m ≡ some (moved d' s' (suc n) m)
unfolding strcpy_loop
strcpy_loop_lem zero d s i n m p q str dis h = absurd (omega arith)
strcpy_loop_lem (suc fuel) d s i zero m {d'} {s'} p q str dis h =
    rw (p, q, IsString-zero s' str) (ap some (moved-one d' s' m (IsString-zero s' str)))
strcpy_loop_lem (suc fuel) d s i (suc n) m {d'} {s'} p q str dis h =
    let m' = write m d' (m s') in
    rw (p, q)
      (ground (
        arith,
        IsString-first_ne s' n str,
        strcpy_loop_lem fuel d s (i + 1) n m' {d' = d' + 1} {s' = s' + 1} (omega arith)
            (omega arith) (IsString-copied str dis) (omega arith) (omega arith),
        moved-write d' s' (suc n) m dis,
      ))

-- strcpy returns the destination, to which it has moved the string and its NUL and nothing else,
-- if the areas of the two are disjoint and the fuel exceeds the length.
pub strcpy-moved :
    (fuel d s n : ℕ) (m : Memory)
    → IsString m s n
    → Disjoint d (suc n) s (suc n)
    → n < fuel
    → strcpy fuel d s m ≡ some (d, moved d s (suc n) m)
unfolding strcpy
strcpy-moved fuel d s n m str dis h =
    rw (strcpy_loop_lem fuel d s 0 n m (omega arith) (omega arith) str dis h)

-- stpcpy leaves the same memory, and returns the address of the copied NUL.
pub stpcpy-moved :
    (fuel d s n : ℕ) (m : Memory)
    → IsString m s n
    → Disjoint d (suc n) s (suc n)
    → n < fuel
    → stpcpy fuel d s m ≡ some (d + n, moved d s (suc n) m)
unfolding stpcpy
stpcpy-moved zero d s n m str dis h = absurd (omega arith)
stpcpy-moved (suc fuel) d s zero m str dis h =
    ground (arith, IsString-zero s str, moved-one d s m (IsString-zero s str))
stpcpy-moved (suc fuel) d s (suc n) m str dis h = ground (
  arith,
  IsString-first_ne s n str,
  stpcpy-moved fuel (d + 1) (s + 1) n (write m d (m s)) (IsString-copied str dis) (omega arith)
      (omega arith),
  moved-write d s (suc n) m dis,
)

-- The copy of a string is a string of the same length.
pub IsString-moved : (d s n : ℕ) (m : Memory) → IsString m s n → IsString (moved d s (suc n) m) d n
IsString-moved d s n m str = record {
  body = λ j h e. str.body j h (ground arith);
  ends = ground (arith, str.ends);
}

-- strcat returns the destination, whose own string it has left and behind which it has moved the
-- source's string and its NUL, and nothing else, if the source lies outside of what is written.
pub strcat-moved :
    (fuel d s k n : ℕ) (m : Memory)
    → d ≢ 0
    → IsString m d k
    → IsString m s n
    → Disjoint (d + k) (suc n) s (suc n)
    → k < fuel
    → n < fuel
    → strcat fuel d s m ≡ some (d, moved (d + k) s (suc n) m)
unfolding strcat strcat_at
strcat-moved fuel d s k n m ne dst src dis hk hn = rw (
  strlen_lem fuel d k m ne dst hk,
  strcpy_loop_lem fuel (d + k) s 0 n m (omega arith) (omega arith) src dis hn,
)

-- After strcat the destination holds a string as long as the two together.
pub IsString-strcat :
    (d s k n : ℕ) (m : Memory)
    → IsString m d k
    → IsString m s n
    → IsString (moved (d + k) s (suc n) m) d (k + n)
IsString-strcat d s k n m dst src = record {
  body = λ j h e. elim (dec_lt j k) [
    | yes p ↦ dst.body j p (ground arith)
    | no p ↦ src.body (j - k) (omega arith) (ground arith)
  ];
  ends = ground (arith, src.ends);
}

-- strcat to a destination other than NULL, with the source outside of what is written and enough
-- fuel, makes the destination a string whose length is the sum of the two lengths.
pub strlen-strcat :
    (fuel d s k n : ℕ) (m : Memory)
    → d ≢ 0
    → IsString m d k
    → IsString m s n
    → Disjoint (d + k) (suc n) s (suc n)
    → k + n < fuel
    → (m' : Memory) × (strcat fuel d s m ≡ some (d, m')) × (strlen fuel d m' ≡ some (k + n))
strlen-strcat fuel d s k n m ne dst src dis h = (
  moved (d + k) s (suc n) m,
  strcat-moved fuel d s k n m ne dst src dis (omega arith) (omega arith),
  strlen_lem fuel d (k + n) _ ne (IsString-strcat d s k n m dst src) h,
)
