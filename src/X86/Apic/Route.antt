-- ===== src/X86/Apic/Route.antt =====
-- ioapic_init and ioapic_enable of am/src/x86/qemu/ioe.c: which interrupts pass.
use Prim.Native.Nat.{bit_and, bit_or}
use mathlib.Core.Path.{subst}
use native.Mathlib.Decide.{ℕ_discrete}
use openperf_abstract_machin.Prelude.{
  ℕ, zero, suc, ◌+◌, ◌-◌, ◌*◌, ◌/◌, ◌%◌, ◌^◌, ◌≤◌, ◌<◌, ◌≡◌, ◌≢◌, ◌⊎◌, refl, ap, ◌∙◌, arith, write,
}
use openperf_abstract_machin.Prelude.Bits.{bit_and_field, bit_or_fields}
use openperf_abstract_machin.X86.Cte.{t_irq0}
use openperf_abstract_machin.X86.Apic.{
  Mmio, ioapic_addr, reg_ver, reg_table, int_disabled, ioapicread, ioapicwrite, disable_all,
  ioapic_init, ioapic_enable,
}

-- The I/O APIC behind the addresses: the register that is selected, and the registers. Those from
-- REG_TABLE on can be written.
pub record IoApic {D : Type 0} (mmio : Mmio D) : Type 0 where
  pub selected : D → ℕ
  pub registers : D → ℕ → ℕ
  pub select :
      (d : D) (v : ℕ)
      → (selected (mmio.store ioapic_addr v d) ≡ v)
        × (registers (mmio.store ioapic_addr v d) ≡ registers d)
  pub set :
      (d : D) (v : ℕ)
      → reg_table ≤ selected d
      → registers (mmio.store (ioapic_addr + 16) v d) ≡ write (registers d) (selected d) v
  pub get :
      (d : D)
      → ((mmio.load (ioapic_addr + 16) d).0 ≡ registers d (selected d))
        × (registers (mmio.load (ioapic_addr + 16) d).1 ≡ registers d)

-- The interrupts that the controller has: the last one is in its version register.
abbrev pub last_line : (ℕ → ℕ) → ℕ
last_line r = r reg_ver / 2 ^ 16 % 2 ^ 8

-- An entry of the table with its vector and the processor in the upper word, masked or not.
pub record Entry (r : ℕ → ℕ) (i vector mask cpu : ℕ) : Type 0 where
  pub vector_of : r (reg_table + 2 * i) % 2 ^ 8 ≡ vector
  pub mask_of : r (reg_table + 2 * i) / 2 ^ 16 % 2 ≡ mask
  pub cpu_of : r (reg_table + 2 * i + 1) / 2 ^ 24 ≡ cpu

module _ {D : Type 0} (mmio : Mmio D) (chip : IoApic mmio) where
  ioapicwrite_lem :
      (reg value : ℕ) (d : D)
      → reg_table ≤ reg
      → chip.registers (ioapicwrite mmio reg value d) ≡ write (chip.registers d) reg value
  unfolding ioapicwrite
  ioapicwrite_lem reg value d l =
      let (at, same) = chip.select d reg in
      chip.set (mmio.store ioapic_addr reg d) value (omega (arith, at)) ∙ rw (at, same) refl

  record Disabled (n i : ℕ) (r r' : ℕ → ℕ) : Type 0 where
    low : (k : ℕ) → k < n → r' (reg_table + 2 * (i + k)) ≡ int_disabled + t_irq0 + i + k
    high : (k : ℕ) → k < n → r' (reg_table + 2 * (i + k) + 1) ≡ 0
    others : (a : ℕ) → (a < reg_table + 2 * i) ⊎ (reg_table + 2 * (i + n) ≤ a) → r' a ≡ r a

  disable_all_lem :
      (n i : ℕ) (d : D)
      → i + n ≤ 256
      → Disabled n i (chip.registers d) (chip.registers (disable_all mmio n i d))
  unfolding disable_all
  disable_all_lem zero i d small = record {
    low = λ k l. absurd (omega arith);
    high = λ k l. absurd (omega arith);
    others = λ a o. refl;
  }
  disable_all_lem (suc n) i d small =
      let d1 = ioapicwrite mmio (reg_table + 2 * i) (bit_or int_disabled (t_irq0 + i)) d in
      let d2 = ioapicwrite mmio (reg_table + 2 * i + 1) 0 d1 in
      let ih = disable_all_lem n (i + 1) d2 (omega arith) in
      let end = disable_all mmio n (i + 1) d2 in
      let value : bit_or int_disabled (t_irq0 + i) ≡ int_disabled + t_irq0 + i =
        bit_or_fields 16 1 (t_irq0 + i) (omega arith) ∙ omega arith in
      let regs : chip.registers d2
          ≡ write (write (chip.registers d) (reg_table + 2 * i) (int_disabled + t_irq0 + i))
              (reg_table + 2 * i + 1) 0 =
        ioapicwrite_lem (reg_table + 2 * i + 1) 0 d1 (omega arith)
        ∙ ap (λ r. write r (reg_table + 2 * i + 1) 0)
            (ioapicwrite_lem (reg_table + 2 * i) (bit_or int_disabled (t_irq0 + i)) d (omega arith)
              ∙ ap (write (chip.registers d) (reg_table + 2 * i)) value) in
      let at : (a : ℕ)
          → chip.registers d2 a
            ≡ write (write (chip.registers d) (reg_table + 2 * i) (int_disabled + t_irq0 + i))
                (reg_table + 2 * i + 1) 0 a =
        λ a. ap (λ r. r a) regs in
      record {
        low = λ k l. elim (ℕ_discrete k 0) [
          | yes z ↦
              let here : i + k ≡ i = omega arith in
              ap (λ j. chip.registers end (reg_table + 2 * j)) here
              ∙ ih.others (reg_table + 2 * i) (omega arith)
              ∙ at (reg_table + 2 * i)
              ∙ ground arith
          | no nz ↦
              let there : i + k ≡ i + 1 + (k - 1) = omega arith in
              ap (λ j. chip.registers end (reg_table + 2 * j)) there
              ∙ ih.low (k - 1) (omega arith)
              ∙ omega arith
        ];
        high = λ k l. elim (ℕ_discrete k 0) [
          | yes z ↦
              let here : i + k ≡ i = omega arith in
              ap (λ j. chip.registers end (reg_table + 2 * j + 1)) here
              ∙ ih.others (reg_table + 2 * i + 1) (omega arith)
              ∙ at (reg_table + 2 * i + 1)
              ∙ ground arith
          | no nz ↦
              let there : i + k ≡ i + 1 + (k - 1) = omega arith in
              ap (λ j. chip.registers end (reg_table + 2 * j + 1)) there
              ∙ ih.high (k - 1) (omega arith)
        ];
        others = λ a o. ih.others a (omega arith) ∙ at a ∙ ground arith;
      }

  -- The number of interrupts, from the version register.
  ioapic_init_lem :
      (d : D)
      → Disabled
          (last_line (chip.registers d) + 1)
          0
          (chip.registers d)
          (chip.registers (ioapic_init mmio d))
  unfolding ioapic_init ioapicread
  ioapic_init_lem d =
      let (at, same) = chip.select d reg_ver in
      let d1 = mmio.store ioapic_addr reg_ver d in
      let (value, kept) = chip.get d1 in
      let last : bit_and ((mmio.load (ioapic_addr + 16) d1).0 / 2 ^ 16) 0xff
          ≡ last_line (chip.registers d) =
        bit_and_field 0 8 ((mmio.load (ioapic_addr + 16) d1).0 / 2 ^ 16)
        ∙ rw (value, at, same) (omega arith) in
      let d2 = (mmio.load (ioapic_addr + 16) d1).1 in
      rw last (
        subst
          (λ r.
            Disabled (last_line (chip.registers d) + 1) 0 r
              (chip.registers (disable_all mmio (last_line (chip.registers d) + 1) 0 d2)))
          (kept ∙ same) (disable_all_lem (last_line (chip.registers d) + 1) 0 d2 (omega arith)))

  -- After the controller has been set up and one interrupt has been enabled.
  pub record Routed (irq cpunum : ℕ) (r r' : ℕ → ℕ) : Type 0 where
    pub passes : Entry r' irq (t_irq0 + irq) 0 cpunum
    pub masked : (i : ℕ) → i ≤ last_line r → i ≢ irq → r' (reg_table + 2 * i) / 2 ^ 16 % 2 ≡ 1
    pub untouched : (a : ℕ) → a < reg_table → r' a ≡ r a

  ioapic_enable_lem :
      (irq cpunum : ℕ) (d : D)
      → cpunum < 2 ^ 8
      → chip.registers (ioapic_enable mmio irq cpunum d)
        ≡ write
            (write (chip.registers d) (reg_table + 2 * irq) (t_irq0 + irq))
            (reg_table + 2 * irq + 1)
            (cpunum * 2 ^ 24)
  unfolding ioapic_enable
  ioapic_enable_lem irq cpunum d small =
      let cpu : cpunum * 2 ^ 24 % 2 ^ 32 ≡ cpunum * 2 ^ 24 = omega arith in
      ioapicwrite_lem (reg_table + 2 * irq + 1) (cpunum * 2 ^ 24 % 2 ^ 32)
        (ioapicwrite mmio (reg_table + 2 * irq) (t_irq0 + irq) d) (omega arith)
      ∙ rw (ioapicwrite_lem (reg_table + 2 * irq) (t_irq0 + irq) d (omega arith), cpu) refl

  -- After ioapic_init and then ioapic_enable of an interrupt that the controller has, with a
  -- vector and a processor below 256, the entry of that interrupt has its vector, is not masked
  -- and goes to the processor; the entries of all other interrupts of the controller are masked,
  -- and the registers below the table are as before.
  pub ioapic_enable-ioapic_init :
      (irq cpunum : ℕ) (d : D)
      → irq ≤ last_line (chip.registers d)
      → t_irq0 + irq < 2 ^ 8
      → cpunum < 2 ^ 8
      → Routed irq cpunum
          (chip.registers d)
          (chip.registers (ioapic_enable mmio irq cpunum (ioapic_init mmio d)))
  ioapic_enable-ioapic_init irq cpunum d has small cpu =
      let off = ioapic_init_lem d in
      let d' = ioapic_init mmio d in
      rw (ioapic_enable_lem irq cpunum d' cpu) (record {
        passes = record { vector_of = ground arith; mask_of = ground arith; cpu_of = ground arith };
        masked = λ i l ne. let low = off.low i (omega arith) in ground arith;
        untouched = λ a l. let same = off.others a (omega arith) in ground arith;
      })
