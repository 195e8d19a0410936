-- ===== src/X86/Vme/Kernel/Tests.antt =====
-- vme_init and protect with the sample allocator.
use openperf_abstract_machin.Prelude.{ℕ, ◌-◌, ◌/◌, ◌^◌, ◌≡◌, refl, arith, some, ltb, if◌then◌else◌}
use openperf_abstract_machin.X86.Vme.{Machine, uvm_area}
use openperf_abstract_machin.X86.Vme.Sample.{next_pages, page_supply, empty_space}
use openperf_abstract_machin.X86.Vme.Kernel.{vme_init}
use openperf_abstract_machin.X86.Vme.Kernel.Identity.{Supply}
use openperf_abstract_machin.X86.Vme.Kernel.Init.{IsKernelSpace}
use openperf_abstract_machin.X86.Vme.Kernel.Client.{vme_init-protect}
use openperf_abstract_machin.X86.Vme.Space.{protect}

abbrev pages_left : ℕ → ℕ
pages_left h = if ltb h 4096 then 0 else (2 ^ 32 - h) / 4096

next_pages-Supply : Supply next_pages pages_left
next_pages-Supply = record { gives = λ h some_left. ground arith; takes = λ h. ground arith }

vme_init-protect_example :
    (k : ℕ) × (s1 s2 : Machine ℕ) × (vme_init next_pages 0 262145 0x100 empty_space ≡ some (k, s1))
    × (protect next_pages 262145 k 0x200 s1 ≡ some (record { pgsize = 4096; area = uvm_area }, s2))
    × IsKernelSpace next_pages page_supply pages_left next_pages-Supply 0x200 s2
vme_init-protect_example =
    vme_init-protect next_pages page_supply pages_left next_pages-Supply 0x100 0x200 262145
      empty_space refl refl refl (omega arith) (omega arith) (omega arith)
