-- ===== src/X86/Vme/Kernel/Client.antt =====
-- protect after vme_init, both of am/src/x86/qemu/vme.c.
use mathlib.Core.Path.{subst}
use openperf_abstract_machin.Prelude.{
  ℕ, Memory, ◌*◌, ◌/◌, ◌%◌, ◌<◌, ◌≡◌, inl, inr, ◌∙◌, sym, arith, some,
}
use openperf_abstract_machin.X86.Vme.{Machine, pgsize, uvm_area}
use openperf_abstract_machin.X86.Vme.Entries.{frame, IsValid, Allocator}
use openperf_abstract_machin.X86.Vme.Space.{protect}
use openperf_abstract_machin.X86.Vme.Space.Protect.{IsKernel, protect_lem}
use openperf_abstract_machin.X86.Vme.Kernel.{vme_init}
use openperf_abstract_machin.X86.Vme.Kernel.Identity.{Supply}
use openperf_abstract_machin.X86.Vme.Kernel.Init.{IsKernelSpace, vme_init-IsKernelSpace}

-- The directory of a valid space, for a pointer in the page that the space's own pointer is in.
IsValid-IsKernel :
    (used : ℕ → Type 0) (w : Memory) (space home : ℕ)
    → home / 4096 ≡ space / 4096
    → IsValid used w space
    → IsKernel used w (frame (w space)) home
IsValid-IsKernel used w space home same u = record {
  in_use = u.dir_used;
  elsewhere = λ e. u.own (sym same ∙ e);
  table_used = u.table_used;
  table_elsewhere = λ i low odd e. (u.table_own i low odd).1 (e ∙ same);
  apart = u.apart;
}

module _ {H : Type 0} (pgalloc : ℕ → H → ℕ × H) (A : Allocator pgalloc) (stock : H → ℕ)
    (supply : Supply pgalloc stock) (space home : ℕ) where
  -- On the first processor, with an allocator that hands out fresh pages and has 274434 left, fuel
  -- for more than 262144 rounds, and words for the two pointers in a page that is in use, vme_init
  -- and then protect with the directory that it keeps succeed: the new address space is valid,
  -- maps each page of the kernel's areas, below 0x40000000 and from 0xfd000000 on, to itself,
  -- present and writable and not for user code, and has no entry for any other page.
  pub vme_init-protect :
      (fuel : ℕ) (s : Machine H)
      → space % 4 ≡ 0
      → home % 4 ≡ 0
      → home / 4096 ≡ space / 4096
      → A.used s.pages (space / 4096)
      → 274433 < stock s.pages
      → 262144 < fuel
      → (k : ℕ) × (s1 s2 : Machine H) × (vme_init pgalloc 0 fuel space s ≡ some (k, s1))
        × (protect pgalloc fuel k home s1 ≡ some (record { pgsize = pgsize; area = uvm_area }, s2))
        × IsKernelSpace pgalloc A stock supply home s2
  vme_init-protect fuel s word word' same used_page plenty enough =
      let (s1, run1, kernel, left) =
        vme_init-IsKernelSpace pgalloc A stock supply space fuel s word used_page (omega arith)
          enough in
      let (s2, run2, new) =
        protect_lem pgalloc A (frame (s1.words space)) home fuel s1
          (IsValid-IsKernel (A.used s1.pages) s1.words space home same kernel.valid) word'
          (subst (A.used s1.pages) (sym same) kernel.valid.space_used)
          (supply.gives s1.pages (omega arith)) (omega arith) in
      (
        frame (s1.words space) * 4096,
        s1,
        s2,
        run1,
        run2,
        record {
          valid = new.valid;
          low = λ va page below. new.kernel va (omega arith) (inl below) ∙ kernel.low va page below;
          high = λ va page from to. new.kernel va to (inr from) ∙ kernel.high va page from to;
          between = λ va page from to. new.user va (omega arith) from to;
        },
      )
