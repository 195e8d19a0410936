-- ===== src/X86/Vme/Entries.antt =====
-- What the page tables of am/src/x86/qemu/vme.c mean: the walk of the hardware, by quotients and
-- remainders, and the invariant of an address space.
use openperf_abstract_machin.Prelude.{
  ℕ, ◌+◌, ◌*◌, ◌/◌, ◌%◌, ◌^◌, ◌<◌, ◌≡◌, ◌≢◌, Memory, ◌==◌, if◌then◌else◌,
}
use openperf_abstract_machin.X86.Vme.{pgsize}

-- The number of the page that an entry points to, and of the page that holds an address.
abbrev pub frame : ℕ → ℕ
frame e = e / 4096 % 2 ^ 20

-- The address of the directory entry with the given index.
abbrev pub dir_slot : Memory → ℕ → ℕ → ℕ
dir_slot w space i = frame (w space) * 4096 + 4 * i

abbrev pub dir_entry : Memory → ℕ → ℕ → ℕ
dir_entry w space i = w (dir_slot w space i)

abbrev pub dir_index : ℕ → ℕ
dir_index va = va / 2 ^ 22 % 1024

abbrev pub table_index : ℕ → ℕ
table_index va = va / 2 ^ 12 % 1024

-- The address of the entry of the page of `va`, when its table is present.
abbrev pub table_slot : Memory → ℕ → ℕ → ℕ
table_slot w space va = frame (dir_entry w space (dir_index va)) * 4096 + 4 * table_index va

-- The entry that the hardware finds for `va`; 0 says that there is none.
abbrev pub entry : Memory → ℕ → ℕ → ℕ
entry w space va =
    if dir_entry w space (dir_index va) % 2 == 0 then 0 else w (table_slot w space va)

-- The page directory and the tables are pages of their own, all in use, and apart from the word
-- that points to the directory. `used` holds of the pages that the allocator does not hand out.
pub record IsValid (used : ℕ → Type 0) (w : Memory) (space : ℕ) : Type 0 where
  pub present : w space % 2 ≡ 1
  pub word : space % 4 ≡ 0
  pub own : space / 4096 ≢ frame (w space)
  pub space_used : used (space / 4096)
  pub dir_used : used (frame (w space))
  pub table_used :
      (i : ℕ) → i < 1024 → dir_entry w space i % 2 ≡ 1 → used (frame (dir_entry w space i))
  pub table_own :
      (i : ℕ)
      → i < 1024
      → dir_entry w space i % 2 ≡ 1
      → (frame (dir_entry w space i) ≢ frame (w space))
        × (frame (dir_entry w space i) ≢ space / 4096)
  pub apart :
      (i j : ℕ)
      → i < 1024
      → j < 1024
      → i ≢ j
      → dir_entry w space i % 2 ≡ 1
      → dir_entry w space j % 2 ≡ 1
      → frame (dir_entry w space i) ≢ frame (dir_entry w space j)

-- What the model relies on of the client's allocator: a page that it hands out is aligned, lies in
-- the address space, was not in use and is in use from then on; the others stay in use.
pub record Allocator {H : Type 0} (pgalloc : ℕ → H → ℕ × H) : Type 1 where
  pub used : H → ℕ → Type 0
  pub aligned : (h : H) → (pgalloc pgsize h).0 % 4096 ≡ 0
  pub fits : (h : H) → (pgalloc pgsize h).0 < 2 ^ 32
  pub taken :
      (h : H) → (pgalloc pgsize h).0 ≢ 0 → used (pgalloc pgsize h).1 ((pgalloc pgsize h).0 / 4096)
  pub fresh :
      (h : H) (q : ℕ) → (pgalloc pgsize h).0 ≢ 0 → used h q → q ≢ (pgalloc pgsize h).0 / 4096
  pub kept : (h : H) (q : ℕ) → used h q → used (pgalloc pgsize h).1 q
