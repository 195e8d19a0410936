-- ===== src/X86/Vme/Space/Copy.antt =====
-- The loop of protect in am/src/x86/qemu/vme.c that copies the kernel's part of the directory.
use native.Mathlib.Decide.{ℕ_discrete}
use openperf_abstract_machin.Prelude.{
  ℕ, zero, suc, ◌+◌, ◌*◌, ◌%◌, ◌^◌, ◌≤◌, ◌<◌, ◌≡◌, ◌≢◌, ◌⊎◌, inl, ◌∙◌, refl, arith, Memory, write,
  size, eq_true, eq_false, some,
}
use openperf_abstract_machin.X86.Vme.{slot, indexof, pd_info}
use openperf_abstract_machin.X86.Vme.Fields.{indexof-pd}
use openperf_abstract_machin.X86.Vme.Space.{copy_area}

-- The memory `v` is `w` with the entries `c` up to `c + n` of the directory `k` in `u`.
pub record Copied (u k c n : ℕ) (w v : Memory) : Type 0 where
  pub copies : (i : ℕ) → c ≤ i → i < c + n → v (slot u i) ≡ w (slot k i)
  pub keeps : (a : ℕ) → (a < u + 4 * c) ⊎ (u + 4 * (c + n) ≤ a) → v a ≡ w a

pub copy_area_lem :
    (n fuel u k c limit : ℕ) (w : Memory)
    → c + n ≤ 1024
    → n < 1024
    → limit ≡ (c + n) % 1024 * 2 ^ 22
    → n < fuel
    → (u + 4096 ≤ k) ⊎ (k + 4096 ≤ u)
    → (v : Memory) × (copy_area fuel u k (c % 1024 * 2 ^ 22) limit w ≡ some v) × Copied u k c n w v
unfolding copy_area
copy_area_lem n zero u k c limit w hc hn e l d = absurd (omega arith)
copy_area_lem zero (suc fuel) u k c limit w hc hn e l d = (
  w,
  rw (eq_true e') refl,
  record { copies = λ i p q. absurd (omega arith); keeps = λ a h. refl },
)
  where
    e' : c % 1024 * 2 ^ 22 ≡ limit
    e' = omega (arith, e)
copy_area_lem (suc n) (suc fuel) u k c limit w hc hn e l d =
    let at : indexof (c % 1024 * 2 ^ 22) pd_info ≡ c =
      omega (arith, indexof-pd (c % 1024 * 2 ^ 22)) in
    let next : size (c % 1024 * 2 ^ 22 + 2 ^ pd_info.shift) ≡ (c + 1) % 1024 * 2 ^ 22 =
      omega arith in
    let ne : c % 1024 * 2 ^ 22 ≢ limit = omega arith in
    let w' = write w (slot u c) (w (slot k c)) in
    let step : copy_area (suc fuel) u k (c % 1024 * 2 ^ 22) limit w
        ≡ copy_area fuel u k ((c + 1) % 1024 * 2 ^ 22) limit w' =
      rw (eq_false ne, at, next) refl in
    let (v, runs, done) =
      copy_area_lem n fuel u k (c + 1) limit w' (omega arith) (omega arith) (omega arith)
        (omega arith) d in
    (
      v,
      step ∙ runs,
      record {
        copies = λ i p q. elim (ℕ_discrete c i) [
          | yes f ↦ done.keeps (slot u i) (inl (omega arith)) ∙ ground arith
          | no g ↦ done.copies i (omega arith) (omega arith) ∙ ground arith
        ];
        keeps = λ a h. done.keeps a (omega arith) ∙ ground arith;
      },
    )
