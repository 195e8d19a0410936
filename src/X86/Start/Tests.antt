-- ===== src/X86/Start/Tests.antt =====
-- A machine with two processors, and its table of segments.
use openperf_abstract_machin.Prelude.{
  ℕ, ◌≡◌, ◌≢◌, ◌<◌, ◌≤◌, refl, arith, [], ◌∷◌, some, Memory, ◌==◌, if◌then◌else◌,
}
use openperf_abstract_machin.X86.Ports.{load_word, store_word}
use openperf_abstract_machin.X86.Start.{lapic_init}
use openperf_abstract_machin.X86.Start.Processors.{processor, other, MpTable, lapic_init_lem}

-- The structure at 0xf0001 leads to the table at 0x2000, whose entries start at 0x202c.
abbrev two_cpus : Memory
two_cpus =
    store_word
      (store_word
        (store_word (store_word (λ a. if a == 0x2054 then 2 else 0) 0x2024 0xfee0_0000) 0x2004 92)
        0xf_0005 0x2000)
      0xf_0001 0x5f50_4d5f

two_cpus_table : MpTable (processor ∷ processor ∷ other ∷ []) 0xf_0001 0xfee0_0000 two_cpus
two_cpus_table = record { magic = refl; apic = refl; entries = (refl, (refl, (omega arith, refl))) }

two_cpus_first : (b : ℕ) → 0xf_0000 ≤ b → b < 0xf_0001 → load_word two_cpus b ≢ 0x5f50_4d5f
two_cpus_first b lo hi = let only : b ≡ 0xf_0000 = omega arith in rw only (omega arith)

lapic_init_lem_example : lapic_init two_cpus ≡ some (0xfee0_0000, 2)
lapic_init_lem_example =
    lapic_init_lem 0xf_0001 0xfee0_0000 (processor ∷ processor ∷ other ∷ []) two_cpus (omega arith)
      (omega arith) two_cpus_first two_cpus_table (omega arith)
