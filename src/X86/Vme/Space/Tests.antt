-- ===== src/X86/Vme/Space/Tests.antt =====
-- Runs of protect and unprotect, and their theorems at such inputs.
use openperf_abstract_machin.Prelude.{ℕ, ◌*◌, ◌<◌, ◌≡◌, ◌≢◌, refl, arith, true, some, [], ◌∷◌}
use openperf_abstract_machin.X86.Vme.{Machine, uvm_area, baseof}
use openperf_abstract_machin.X86.Vme.Entries.{frame, dir_entry}
use openperf_abstract_machin.X86.Vme.Sample.{
  next_pages, page_supply, one_page, one_page-IsValid, boot_machine, boot_machine-IsKernel,
}
use openperf_abstract_machin.X86.Vme.Space.{protect, teardown, teardown_entries, unprotect}
use openperf_abstract_machin.X86.Vme.Space.Protect.{IsNewSpace, protect_lem}
use openperf_abstract_machin.X86.Vme.Space.Teardown.{count, is_user, unprotect_count}

protect_lem_example :
    (s' : Machine ℕ) × (protect next_pages 300 0x1000 0x100 boot_machine
      ≡ some (record { pgsize = 4096; area = uvm_area }, s'))
    × IsNewSpace next_pages page_supply 1 0x100 boot_machine s'
protect_lem_example =
    protect_lem next_pages page_supply 1 0x100 300 boot_machine boot_machine-IsKernel refl
      (omega arith) (omega arith) (omega arith)

unprotect_run : unprotect 0x100 one_page.words ≡ 0x2000 ∷ 0x1000 ∷ []
unfolding unprotect teardown teardown_entries baseof
unprotect_run = refl

unprotect_count_example :
    (count 0x1000 (unprotect 0x100 one_page.words) ≡ 1)
    × ((i : ℕ)
        → i < 1024
        → is_user (dir_entry one_page.words 0x100 i) ≡ true
        → count (frame (dir_entry one_page.words 0x100 i) * 4096) (unprotect 0x100 one_page.words)
          ≡ 1)
    × ((p : ℕ)
        → p ≢ 0x1000
        → ((i : ℕ)
            → i < 1024
            → is_user (dir_entry one_page.words 0x100 i) ≡ true
            → p ≢ frame (dir_entry one_page.words 0x100 i) * 4096)
        → count p (unprotect 0x100 one_page.words) ≡ 0)
unprotect_count_example = unprotect_count one_page.words 0x100 one_page-IsValid refl
