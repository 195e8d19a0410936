-- ===== src/X86/Vme/Kernel.antt =====
-- vme_init of am/src/x86/qemu/vme.c on 32 bits: the page directory of the kernel. The control
-- registers, and the client's functions that are stored, are not in the model.
pub mod Identity
pub mod Init
pub mod Client
mod Tests
use Prim.Native.Nat.{bit_or}
use openperf_abstract_machin.Prelude.{
  ℕ, zero, suc, ◌+◌, ◌^◌, Bool, Option, none, some, List, [], ◌∷◌, Memory, write, size, ◌==◌,
  if◌then◌else◌, ◌>>=◌,
}
use openperf_abstract_machin.X86.Vme.{
  VmArea, Machine, pgsize, vm_areas, pte_p, pte_w, baseof, ptwalk,
}

module _ {H : Type 0} (pgalloc : ℕ → H → ℕ × H) where
  -- `*ptwalk(&as, cur, PTE_W) = cur | PTE_P | PTE_W`, where `space` is the address of `as.ptr`.
  pub identity_page : ℕ → ℕ → Machine H → Option (Machine H)
  identity_page space cur s = do
    (ptentry, s1) ← ptwalk pgalloc space cur pte_w s
    some (record s1 { words = write s1.words ptentry (bit_or (bit_or cur pte_p) pte_w) })

  -- The loop over the pages of an area, `cur` wrapping around.
  pub identity_area : ℕ → ℕ → ℕ → ℕ → Machine H → Option (Machine H)
  identity_area zero space cur limit s = none
  identity_area (suc fuel) space cur limit s =
      let rest : Option (Machine H) =
        (identity_page space cur s >>= λ s1.
        identity_area fuel space (size (cur + pgsize)) limit s1) in
      if cur == limit then some s else rest

  pub identity_areas : ℕ → ℕ → List VmArea → Machine H → Option (Machine H)
  identity_areas fuel space [] s = some s
  identity_areas fuel space (area ∷ areas) s =
      if area.kernel
      then (identity_area fuel space area.start area.limit s >>= λ s1.
          identity_areas fuel space areas s1)
      else identity_areas fuel space areas s

  -- `kpt`, and the memory; NULL is written to `as.ptr` first. A processor other than the first one
  -- panics.
  pub vme_init : ℕ → ℕ → ℕ → Machine H → Option (ℕ × Machine H)
  vme_init cpu fuel space s =
      let started = record s { words = write s.words space 0 } in
      let done : Option (ℕ × Machine H) =
        (identity_areas fuel space vm_areas started >>= λ s1. some (baseof (s1.words space), s1)) in
      if cpu == 0 then done else none
