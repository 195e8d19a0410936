-- ===== src/Nemu/Traps/Tests.antt =====
-- Entry points for both machines.
use openperf_abstract_machin.Prelude.{ℕ, ◌≡◌, ◌≢◌, refl, arith}
use openperf_abstract_machin.Nemu.Traps.{NemuVectors, nemu_idt, mips_cte_init}
use openperf_abstract_machin.Nemu.Traps.Entry.{
  JumpsTo, mips_cte_init-JumpsTo, NemuGate, nemu_idt-NemuGate,
}

mips_cte_init-JumpsTo_run :
    JumpsTo (mips_cte_init 0x8000_1234 (λ a. 7) 0x8000_0180) 0x8000_0180 0x8000_1234
    × JumpsTo (mips_cte_init 0x8000_1234 (λ a. 7) 0x8000_0000) 0x8000_0000 0x8000_1234
    × (mips_cte_init 0x8000_1234 (λ a. 7) 0x8000_0184 ≡ 0)
    × (mips_cte_init 0x8000_1234 (λ a. 7) 0x8000_0004 ≡ 0)
    × ((a : ℕ)
        → a ≢ 0x8000_0180
        → a ≢ 0x8000_0184
        → a ≢ 0x8000_0000
        → a ≢ 0x8000_0004
        → mips_cte_init 0x8000_1234 (λ a. 7) a ≡ 7)
mips_cte_init-JumpsTo_run =
    mips_cte_init-JumpsTo 0x8000_1234 (λ a. 7) refl (omega arith) (omega arith)

abbrev vectors : NemuVectors
vectors = record { irq0 = 0x10_0100; vecsys = 0x10_0200; vectrap = 0x10_0300; vecnull = 0x10_0400 }

nemu_idt-NemuGate_run : NemuGate vectors 128 (nemu_idt vectors 128)
nemu_idt-NemuGate_run =
    nemu_idt-NemuGate vectors 128 (omega arith) (omega arith) (omega arith) (omega arith)
