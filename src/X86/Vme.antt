-- ===== src/X86/Vme.antt =====
-- am/src/x86/qemu/vme.c on 32 bits: two levels of page tables over a memory of words.
-- `pgalloc` is the client's: it takes a number of bytes and the allocator's state, and returns an
-- address, NULL if there is no page. Where the source panics the model returns `none`.
mod Fields
mod Tests
mod Sample
mod Grow
mod Keep
mod Set
mod Walk
pub mod Map
pub mod Refuse
pub mod Space
pub mod Kernel
pub mod Entries
use Prim.Native.Nat.{bit_and, bit_or}
use openperf_abstract_machin.Prelude.{
  ℕ, zero, suc, ◌+◌, ◌-◌, ◌*◌, ◌/◌, ◌%◌, ◌^◌, Bool, true, false, Option, none, some, ◌&&◌, ◌||◌,
  not, List, [], ◌∷◌, Memory, write, ◌==◌, if◌then◌else◌, ◌>>=◌,
}
use openperf_abstract_machin.Klib.Stdlib.{in_range}

-- `struct ptinfo` less its name.
pub record PtInfo : Type 0 where
  pub mask : ℕ
  pub shift : ℕ
  pub bits : ℕ

abbrev pub pgsize : ℕ
pgsize = 4096

abbrev pub cr3_info : PtInfo
cr3_info = record { mask = 0; shift = 0; bits = 0 }

abbrev pub pd_info : PtInfo
pd_info = record { mask = 0xffc0_0000; shift = 22; bits = 10 }

abbrev pub pt_info : PtInfo
pt_info = record { mask = 0x003f_f000; shift = 12; bits = 10 }

abbrev pub pgtables : List PtInfo
pgtables = cr3_info ∷ pd_info ∷ pt_info ∷ []

-- `struct vm_area`
pub record VmArea : Type 0 where
  pub start : ℕ
  pub limit : ℕ
  pub kernel : Bool

abbrev pub uvm_area : VmArea
uvm_area = record { start = 0x4000_0000; limit = 0x8000_0000; kernel = false }

abbrev pub vm_areas : List VmArea
vm_areas =
    uvm_area
    ∷ record { start = 0; limit = 0x4000_0000; kernel = true }
    ∷ record { start = 0xfd00_0000; limit = 0; kernel = true }
    ∷ []

abbrev pub pte_p : ℕ
pte_p = 1

abbrev pub pte_w : ℕ
pte_w = 2

abbrev pub pte_u : ℕ
pte_u = 4

abbrev pub mmap_none : ℕ
mmap_none = 0

abbrev pub mmap_write : ℕ
mmap_write = 2

-- Words, by their byte address, and the state of the client's allocator.
pub record Machine (H : Type 0) : Type 0 where
  pub words : Memory
  pub pages : H

pub indexof : ℕ → PtInfo → ℕ
indexof addr info = bit_and addr info.mask / 2 ^ info.shift

pub baseof : ℕ → ℕ
baseof addr = bit_and addr (2 ^ 32 - pgsize)

pub rounddown : ℕ → ℕ → ℕ
rounddown a sz = bit_and a (2 ^ 32 - sz)

-- `&pt[index]`
abbrev pub slot : ℕ → ℕ → ℕ
slot pt index = pt + 4 * index

-- `for (i = ...; i < 1024; i++) base[i] = 0`, with the number of words left.
pub zero_words : ℕ → ℕ → ℕ → Memory → Memory
zero_words zero base i w = w
zero_words (suc n) base i w = zero_words n base (i + 1) (write w (slot base i) 0)

-- What `map` does to the entry that it has found.
pub set_entry : {H : Type 0} → ℕ → ℕ → ℕ → Machine H → Option (Machine H)
set_entry ptentry pa prot s =
    let present = not (bit_and (s.words ptentry) pte_p == 0) in
    if prot == mmap_none
    then (if present then some (record s { words = write s.words ptentry 0 }) else none)
    else if present
    then none
    else some (record s {
      words = write s.words ptentry (
          bit_or (bit_or (bit_or pa pte_p) pte_u)
            (if bit_and prot mmap_write == 0 then 0 else pte_w));
    })

module _ {H : Type 0} (pgalloc : ℕ → H → ℕ × H) where
  pub pgallocz : Machine H → Option (ℕ × Machine H)
  pgallocz s =
      let (base, h) = pgalloc pgsize s.pages in
      if base == 0
      then none
      else some (base, record { words = zero_words (pgsize / 4) base 0 s.words; pages = h })

  -- `next_page`, behind the entry at address `e`.
  pub next_page : ℕ → ℕ → Machine H → Option (ℕ × Machine H)
  next_page e flags s =
      if bit_and (s.words e) pte_p == 0
      then (do
        (page, s') ← pgallocz s
        some (page, record s' { words = write s'.words e (bit_or (bit_or page pte_p) flags) }))
      else some (baseof (s.words e), s)

  -- The loop of ptwalk from the table at `cur` on.
  pub walk_from : List PtInfo → ℕ → ℕ → ℕ → Machine H → Option (ℕ × Machine H)
  walk_from [] cur addr flags s = none
  walk_from (info ∷ []) cur addr flags s = some (slot cur (indexof addr info), s)
  walk_from (info ∷ next ∷ infos) cur addr flags s = do
    (page, s') ← next_page (slot cur (indexof addr info)) flags s
    walk_from (next ∷ infos) page addr flags s'

  -- `space` is the address of `as->ptr`.
  pub ptwalk : ℕ → ℕ → ℕ → Machine H → Option (ℕ × Machine H)
  ptwalk space addr flags s = walk_from pgtables space addr flags s

  pub map : ℕ → ℕ → ℕ → ℕ → Machine H → Option (Machine H)
  map space va pa prot s =
      if not (in_range va uvm_area.start uvm_area.limit)
      then none
      else if not (va == rounddown va pgsize) || not (pa == rounddown pa pgsize)
      then none
      else (do
        (ptentry, s1) ← ptwalk space va (bit_or pte_w pte_u) s
        s2 ← set_entry ptentry pa prot s1
        (again, s3) ← ptwalk space va (bit_or pte_w pte_u) s2
        some s3)
