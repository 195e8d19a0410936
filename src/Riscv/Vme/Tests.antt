-- ===== src/Riscv/Vme/Tests.antt =====
-- An allocator that hands out one page after the other.
use openperf_abstract_machin.Prelude.{ℕ, ◌+◌, ◌≤◌, ◌<◌, ◌≡◌, ◌⊎◌, refl, arith, false}
use openperf_abstract_machin.Riscv.Vme.{
  VmeState, NewSpace, get_cur_as, nemu_switch, nemu_vme_init, nemu_protect,
}
use openperf_abstract_machin.Riscv.Vme.Switch.{nemu_protect-nemu_switch}

abbrev one_after : ℕ → ℕ → ℕ × ℕ
one_after n h = (h, h + n)

abbrev before_init : VmeState ℕ
before_init = record {
  satp = 0;
  kas_ptr = 0;
  vme_enable = false;
  memory = λ a. a;
  pages = 0x8000_0000;
}

nemu_protect-nemu_switch_example :
    (s1 s2 s3 : VmeState ℕ) × (new : NewSpace) × (nemu_vme_init one_after before_init ≡ s1)
    × (get_cur_as s1 ≡ 0x8000_0000)
    × (nemu_protect one_after s1 ≡ (new, s2))
    × (s2.memory (new.ptr + 5) ≡ 0x8000_0005)
    × ((a : ℕ) → (a < new.ptr) ⊎ (new.ptr + 4096 ≤ a) → s2.memory a ≡ a)
    × (nemu_switch new.ptr s2 ≡ s3)
    × (get_cur_as s3 ≡ 0x8000_1000)
    × (get_cur_as (nemu_switch (get_cur_as s1) s3) ≡ 0x8000_0000)
nemu_protect-nemu_switch_example =
    nemu_protect-nemu_switch one_after before_init 0x8000_0000 0x8000_1000 5 0x8000_1000 0x8000_2000
      refl refl (record { some_page = omega arith; fits = omega arith; aligned = refl })
      (record { some_page = omega arith; fits = omega arith; aligned = refl }) (omega arith)
      (omega arith)
