-- ===== src/Native/Vme.antt =====
-- am/src/native/vme.c: the page maps of address spaces, and what the host has mapped. The fields of
-- `PageMap` and `VMHead` are functions of the address. The host's mmap and munmap, the C library's
-- hash tables and the client's allocator are parameters. A failed assertion is `none`, and so is a
-- list with more nodes than the fuel.
pub mod Lists
mod Loops
pub mod Nodes
pub mod Switch
pub mod Map
pub mod Cycle
mod Tests
use Prim.Native.Nat.{bit_and, bit_or}
use openperf_abstract_machin.Prelude.{
  ℕ, zero, suc, ◌+◌, ◌-◌, ◌*◌, ◌/◌, ◌%◌, ◌^◌, Bool, true, false, not, ◌&&◌, Option, none, some,
  write, ◌==◌, if◌then◌else◌, ◌>>=◌,
}
use openperf_abstract_machin.Klib.Stdlib.{in_range}

-- mmap of a shared page at an address with an offset in the file and a protection, and munmap of a
-- page, both of `__am_pgsize` bytes; `none` where they report an error.
pub record Host (H : Type 0) : Type 0 where
  pub mmap : ℕ → ℕ → ℕ → H → Option H
  pub munmap : ℕ → H → Option H

-- hcreate_r, and hsearch_r with FIND and ENTER, for the keys that are numbers in hexadecimal.
pub record Search (T : Type 0) : Type 0 where
  pub create : ℕ → Option T
  pub find : ℕ → T → Option ℕ
  pub enter : ℕ → ℕ → T → Option T

pub record Vme (H T A : Type 0) : Type 0 where
  pub va : ℕ → ℕ
  pub pa : ℕ → ℕ
  pub next : ℕ → ℕ
  pub prot : ℕ → ℕ
  pub is_mapped : ℕ → Bool
  pub head : ℕ → ℕ
  pub hash : ℕ → T
  pub nr_page : ℕ → ℕ
  pub vme_enable : Bool
  pub vm_head : ℕ
  pub host : H
  pub free_pages : A

-- PMEM_START, where `pmem` is with MAP_FIXED, and PMEM_SIZE.
abbrev pub pmem : ℕ
pmem = 0x100_0000

abbrev pub pmem_size : ℕ
pmem_size = 128 * 1024 * 1024

abbrev pub user_start : ℕ
user_start = 0x4000_0000

abbrev pub user_end : ℕ
user_end = 0xc000_0000

-- From MMAP_READ = 1 and MMAP_WRITE = 2 to PROT_READ = 1, PROT_WRITE = 2 and PROT_EXEC = 4.
pub mmap_prot : ℕ → ℕ
mmap_prot prot =
    let readable = if bit_and prot 1 == 0 then 0 else bit_or 0 (bit_or 1 4) in
    if bit_and prot 2 == 0 then readable else bit_or readable 2

abbrev pub set_mapped : ℕ → Bool → (ℕ → Bool) → ℕ → Bool
set_mapped p b is_mapped q = if q == p then b else is_mapped q

module _ {H T A : Type 0} where
  -- The writes to the node, and to the head of the list.
  pub link : ℕ → ℕ → ℕ → ℕ → ℕ → Vme H T A → Vme H T A
  link vm_head pp va pa prot s = record s {
    va = write s.va pp va;
    pa = write s.pa pp pa;
    prot = write s.prot pp prot;
    is_mapped = set_mapped pp false s.is_mapped;
    next = write s.next pp (s.head vm_head);
    head = write s.head vm_head pp;
  }

  -- `__am_in_userspace`
  unfoldable pub in_userspace : ℕ → Vme H T A → Bool
  in_userspace addr s = s.vme_enable && not (s.vm_head == 0) && in_range addr user_start user_end

module _ {H T A : Type 0} (ops : Host H) where
  -- `__am_pmem_map` and the mark of the page. The offset is `(uintptr_t)(pa - pmem)`, of 64 bits.
  pub map_page : ℕ → Vme H T A → Option (Vme H T A)
  map_page p s = do
    h ← ops.mmap (s.va p) ((s.pa p + 2 ^ 64 - pmem) % 2 ^ 64) (mmap_prot (s.prot p)) s.host
    some (record s { host = h; is_mapped = set_mapped p true s.is_mapped })

  pub unmap_page : ℕ → Vme H T A → Option (Vme H T A)
  unmap_page p s =
      let unmapped : Option (Vme H T A) =
        (ops.munmap (s.va p) s.host >>= λ h.
        some (record s { host = h; is_mapped = set_mapped p false s.is_mapped })) in
      if s.is_mapped p then unmapped else some s

  -- The loops of `__am_switch`.
  pub unmap_all : ℕ → ℕ → Vme H T A → Option (Vme H T A)
  unmap_all zero p s = none
  unmap_all (suc fuel) p s =
      let rest : Option (Vme H T A) = (unmap_page p s >>= λ s'. unmap_all fuel (s'.next p) s') in
      if p == 0 then some s else rest

  pub map_all : ℕ → ℕ → Vme H T A → Option (Vme H T A)
  map_all zero p s = none
  map_all (suc fuel) p s =
      let rest : Option (Vme H T A) = (map_page p s >>= λ s'. map_all fuel (s'.next p) s') in
      if p == 0 then some s else if in_range (s.va p) user_start user_end then rest else none

  -- `__am_switch` to a context with the given `vm_head`.
  pub am_switch : ℕ → ℕ → Vme H T A → Option (Vme H T A)
  am_switch fuel head s =
      let unmapped : Option (Vme H T A) =
        (if s.vm_head == 0 then some s else unmap_all fuel (s.head s.vm_head) s) in
      let switched : Option (Vme H T A) = (do
        s1 ← unmapped
        s2 ← if head == 0 then some s1 else map_all fuel (s1.head head) s1
        some (record s2 { vm_head = head })) in
      if not s.vme_enable then some s else if head == s.vm_head then some s else switched

  module _ (search : Search T) (pgsize : ℕ) (pgalloc : ℕ → A → ℕ × A) where
    -- `protect`: the new space's `ptr`. An allocator with no page left fails the assertion.
    pub protect : Vme H T A → Option (ℕ × Vme H T A)
    protect s =
        let r = pgalloc pgsize s.free_pages in
        let created : Option (ℕ × Vme H T A) =
          (search.create (0x8000_0000 / pgsize) >>= λ t. some (
            r.0,
            record s {
              head = write s.head r.0 0;
              nr_page = write s.nr_page r.0 0;
              hash = λ h. if h == r.0 then t else s.hash h;
              free_pages = r.1;
            },
          )) in
        if r.0 == 0 then none else created

    -- The node of an address in the table of a space, a new one if there is none. The source writes
    -- to the page without a look at NULL, which is `none`.
    pub find_page : ℕ → ℕ → Vme H T A → Option (ℕ × Vme H T A)
    find_page vm_head va s = elim (search.find (va % 2 ^ 32) (s.hash vm_head)) [
      | some pp ↦ some (pp, s)
      | none ↦
          let r = pgalloc pgsize s.free_pages in
          let entered : Option (ℕ × Vme H T A) =
            (search.enter (va % 2 ^ 32) r.0 (s.hash vm_head) >>= λ t. some (
              r.0,
              record s {
                hash = λ h. if h == vm_head then t else s.hash h;
                nr_page = write s.nr_page vm_head (s.nr_page vm_head + 1);
                free_pages = r.1;
              },
            )) in
          if r.0 == 0 then none else entered
    ]

    pub map : ℕ → ℕ → ℕ → ℕ → Vme H T A → Option (Vme H T A)
    map vm_head va pa prot s =
        let mapped : Option (Vme H T A) = (do
          (pp, s1) ← find_page vm_head va s
          let s2 = link vm_head pp va pa prot s1
          if vm_head == s2.vm_head then map_page pp s2 else some s2) in
        if in_range va user_start user_end
          && va % pgsize == 0
          && pa % pgsize == 0
          && not (vm_head == 0)
        then mapped
        else none
