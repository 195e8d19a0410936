-- ===== src/X86/Apic/Tests.antt =====
-- A controller with 24 interrupts.
use openperf_abstract_machin.Prelude.{ℕ, refl, arith, write, ◌==◌, if◌then◌else◌}
use openperf_abstract_machin.X86.Apic.{Mmio, ioapic_addr, ioapic_init, ioapic_enable}
use openperf_abstract_machin.X86.Apic.Route.{IoApic, Routed, ioapic_enable-ioapic_init}

record PlainChip : Type 0 where
  index : ℕ
  words : ℕ → ℕ

abbrev plain_mmio : Mmio PlainChip
plain_mmio = record {
  load = λ a d. (d.words d.index, d);
  store = λ a v d.
      if a == ioapic_addr
      then record d { index = v }
      else record d { words = write d.words d.index v };
}

abbrev plain_chip : IoApic plain_mmio
plain_chip = record {
  selected = λ d. d.index;
  registers = λ d. d.words;
  select = λ d v. (refl, refl);
  set = λ d v l. refl;
  get = λ d. (refl, refl);
}

abbrev fresh_chip : PlainChip
fresh_chip = record { index = 0; words = λ a. if a == 1 then 0x17_0011 else 0 }

ioapic_enable-ioapic_init_example :
    Routed plain_mmio plain_chip 14 1 fresh_chip.words
      (ioapic_enable plain_mmio 14 1 (ioapic_init plain_mmio fresh_chip)).words
ioapic_enable-ioapic_init_example =
    ioapic_enable-ioapic_init plain_mmio plain_chip 14 1 fresh_chip (omega arith) (omega arith)
      (omega arith)
