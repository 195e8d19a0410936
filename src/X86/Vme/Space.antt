-- ===== src/X86/Vme/Space.antt =====
-- protect, unprotect and teardown of am/src/x86/qemu/vme.c on 32 bits: the life of an address
-- space. The word `as->ptr` is in memory, at the address `space`; the other fields are a value.
mod Tests
pub mod Copy
pub mod Protect
pub mod Teardown
use Prim.Native.Nat.{bit_and, bit_or}
use openperf_abstract_machin.Prelude.{
  ℕ, zero, suc, ◌+◌, ◌-◌, ◌*◌, ◌/◌, ◌%◌, ◌^◌, Bool, true, false, Option, none, some, ◌&&◌, not,
  List, [], ◌∷◌, ◌++◌, Memory, write, size, ◌==◌, if◌then◌else◌, ◌>>=◌,
}
use openperf_abstract_machin.X86.Vme.{
  PtInfo, VmArea, Machine, pgsize, pgtables, pd_info, vm_areas, uvm_area, pte_p, pte_u, slot,
  indexof, baseof, pgallocz,
}

-- `AddrSpace` less its `ptr`.
pub record AddrSpace : Type 0 where
  pub pgsize : ℕ
  pub area : VmArea

-- `for (cur = start; cur != end; cur += 1 << shift) upt[index] = kpt[index]`
pub copy_area : ℕ → ℕ → ℕ → ℕ → ℕ → Memory → Option Memory
copy_area zero upt kpt cur limit w = none
copy_area (suc fuel) upt kpt cur limit w =
    let index = indexof cur pd_info in
    let rest : Option Memory =
      copy_area fuel upt kpt (size (cur + 2 ^ pd_info.shift)) limit
        (write w (slot upt index) (w (slot kpt index))) in
    if cur == limit then some w else rest

-- The kernel's areas, one after the other.
pub copy_areas : ℕ → ℕ → ℕ → List VmArea → Memory → Option Memory
copy_areas fuel upt kpt [] w = some w
copy_areas fuel upt kpt (area ∷ areas) w =
    if area.kernel
    then (copy_area fuel upt kpt area.start area.limit w >>= λ v. copy_areas fuel upt kpt areas v)
    else copy_areas fuel upt kpt areas w

module _ {H : Type 0} (pgalloc : ℕ → H → ℕ × H) where
  pub protect : ℕ → ℕ → ℕ → Machine H → Option (AddrSpace × Machine H)
  protect fuel kpt space s = do
    (upt, s1) ← pgallocz pgalloc s
    w ← copy_areas fuel upt kpt vm_areas s1.words
    some (
      record { pgsize = pgsize; area = uvm_area },
      record s1 { words = write w space (bit_or (bit_or upt pte_p) pte_u) },
    )

-- `for (index = ...; index < (1 << bits); index++)`, with the number of entries left, and `inner`
-- for the call of teardown one level down.
pub teardown_entries : (ℕ → List ℕ) → ℕ → ℕ → ℕ → Memory → List ℕ
teardown_entries inner zero index pt w = []
teardown_entries inner (suc n) index pt w =
    let e = w (slot pt index) in
    (if not (bit_and e pte_p == 0) && not (bit_and e pte_u == 0) then inner (baseof e) else [])
    ++ teardown_entries inner n (index + 1) pt w

-- The pages that `teardown(level, pt)` hands to `pgfree`, in its order, where `infos` are the
-- levels from `level` on, and `freed` says `level >= 1`. `pgfree` leaves the tables that are still
-- to be read as they are.
pub teardown : List PtInfo → Bool → ℕ → Memory → List ℕ
teardown [] freed pt w = []
teardown (info ∷ infos) freed pt w =
    teardown_entries (λ p. teardown infos true p w) (2 ^ info.bits) 0 pt w
    ++ (if freed then pt ∷ [] else [])

pub unprotect : ℕ → Memory → List ℕ
unprotect space w = teardown pgtables false space w
