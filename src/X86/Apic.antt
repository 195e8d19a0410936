-- ===== src/X86/Apic.antt =====
-- The interrupt controllers of am/src/x86/qemu/ioe.c. Their registers are words at addresses, which
-- a machine loads and stores; the machine is a parameter.
pub mod Route
mod Tests
use Prim.Native.Nat.{bit_and, bit_or}
use openperf_abstract_machin.Prelude.{
  ℕ, zero, suc, ◌+◌, ◌-◌, ◌*◌, ◌/◌, ◌%◌, ◌^◌, ◌≤◌, ◌≡◌, Option, none, some, Bool, true, false, ◌==◌,
  leb, if◌then◌else◌, Memory, write, ◌>>=◌,
}
use openperf_abstract_machin.X86.Ports.{Ports}
use openperf_abstract_machin.X86.Cte.{t_irq0, eoi}

pub record Mmio (D : Type 0) : Type 0 where
  pub load : ℕ → D → ℕ × D
  pub store : ℕ → ℕ → D → D

abbrev pub ioapic_addr : ℕ
ioapic_addr = 0xfec0_0000

abbrev pub reg_ver : ℕ
reg_ver = 1

abbrev pub reg_table : ℕ
reg_table = 0x10

abbrev pub int_disabled : ℕ
int_disabled = 0x1_0000

-- Indices of 32-bit registers, and what is written to them.
abbrev pub ver : ℕ
ver = 0x30 / 4

abbrev pub tpr : ℕ
tpr = 0x80 / 4

abbrev pub svr : ℕ
svr = 0xf0 / 4

abbrev pub esr : ℕ
esr = 0x280 / 4

abbrev pub icrlo : ℕ
icrlo = 0x300 / 4

abbrev pub icrhi : ℕ
icrhi = 0x310 / 4

abbrev pub timer : ℕ
timer = 0x320 / 4

abbrev pub pcint : ℕ
pcint = 0x340 / 4

abbrev pub lint0 : ℕ
lint0 = 0x350 / 4

abbrev pub lint1 : ℕ
lint1 = 0x360 / 4

abbrev pub error : ℕ
error = 0x370 / 4

abbrev pub ticr : ℕ
ticr = 0x380 / 4

abbrev pub tdcr : ℕ
tdcr = 0x3e0 / 4

module _ {D : Type 0} (mmio : Mmio D) where
  -- `lapic` is `__am_lapic`; ID has index 8.
  pub lapicw : ℕ → ℕ → ℕ → D → D
  lapicw lapic index value d =
      (mmio.load (lapic + 4 * 8) (mmio.store (lapic + 4 * index) value d)).1

  -- The loop that waits until the command is delivered, DELIVS = 0x1000.
  pub wait_delivered : ℕ → ℕ → D → Option D
  wait_delivered zero lapic d = none
  wait_delivered (suc polls) lapic d =
      let r = mmio.load (lapic + 4 * icrlo) d in
      let rest : Option D = wait_delivered polls lapic r.1 in
      if bit_and r.0 0x1000 == 0 then some r.1 else rest

  pub percpu_initlapic : ℕ → ℕ → D → Option D
  percpu_initlapic polls lapic d = do
    let d1 = lapicw lapic svr (bit_or 0x100 (t_irq0 + 31)) d
    let d2 = lapicw lapic tdcr 0xb d1
    let d3 = lapicw lapic timer (bit_or 0x2_0000 (t_irq0 + 0)) d2
    let d4 = lapicw lapic ticr 10000000 d3
    let d5 = lapicw lapic lint0 0x1_0000 d4
    let d6 = lapicw lapic lint1 0x1_0000 d5
    let v = mmio.load (lapic + 4 * ver) d6
    let d7 = if leb 4 (bit_and (v.0 / 2 ^ 16) 0xff) then lapicw lapic pcint 0x1_0000 v.1 else v.1
    let d8 = lapicw lapic error (t_irq0 + 19) d7
    let d9 = lapicw lapic esr 0 (lapicw lapic esr 0 d8)
    let d10 = lapicw lapic eoi 0 d9
    let d11 = lapicw lapic icrhi 0 d10
    let d12 = lapicw lapic icrlo (bit_or (bit_or 0x8_0000 0x500) 0x8000) d11
    d13 ← wait_delivered polls lapic d12
    some (lapicw lapic tpr 0 d13)

  -- The store of a 16-bit word, low byte first.
  abbrev store_half : Memory → ℕ → ℕ → Memory
  store_half m a v = write (write m a (v % 2 ^ 8)) (a + 1) (v / 2 ^ 8 % 2 ^ 8)

  -- A round of the loop that starts the processor.
  pub send_startup : ℕ → ℕ → ℕ → ℕ → D → D
  send_startup zero lapic apicid addr d = d
  send_startup (suc n) lapic apicid addr d = send_startup n lapic apicid addr (
      lapicw lapic icrlo (bit_or 0x600 (addr / 2 ^ 12))
        (lapicw lapic icrhi (apicid * 2 ^ 24 % 2 ^ 32) d))

  pub lapic_bootap : Ports D → ℕ → ℕ → ℕ → Memory → D → Memory × D
  lapic_bootap ports lapic apicid addr m d =
      let d1 = ports.outb 0x71 0x0a (ports.outb 0x70 0xf d) in
      let wrv = bit_or (0x40 * 2 ^ 4) 0x67 in
      let m1 = store_half (store_half m wrv 0) (wrv + 2) (addr / 2 ^ 4) in
      let d2 = lapicw lapic icrhi (apicid * 2 ^ 24 % 2 ^ 32) d1 in
      let d3 = lapicw lapic icrlo (bit_or (bit_or 0x500 0x8000) 0x4000) d2 in
      let d4 = lapicw lapic icrlo (bit_or 0x500 0x8000) d3 in
      (m1, send_startup 2 lapic apicid addr d4)

  -- `struct IOAPIC` has `reg` at offset 0 and `data` at offset 16.
  pub ioapicread : ℕ → D → ℕ × D
  ioapicread reg d = mmio.load (ioapic_addr + 16) (mmio.store ioapic_addr reg d)

  pub ioapicwrite : ℕ → ℕ → D → D
  ioapicwrite reg value d = mmio.store (ioapic_addr + 16) value (mmio.store ioapic_addr reg d)

  -- The loop of ioapic_init, with the number of entries left.
  pub disable_all : ℕ → ℕ → D → D
  disable_all zero i d = d
  disable_all (suc n) i d = disable_all n (i + 1) (
      ioapicwrite (reg_table + 2 * i + 1) 0
        (ioapicwrite (reg_table + 2 * i) (bit_or int_disabled (t_irq0 + i)) d))

  pub ioapic_init : D → D
  ioapic_init d =
      let r = ioapicread reg_ver d in
      let maxintr = bit_and (r.0 / 2 ^ 16) 0xff in disable_all (maxintr + 1) 0 r.1

  pub ioapic_enable : ℕ → ℕ → D → D
  ioapic_enable irq cpunum d =
      ioapicwrite (reg_table + 2 * irq + 1) (cpunum * 2 ^ 24 % 2 ^ 32)
        (ioapicwrite (reg_table + 2 * irq) (t_irq0 + irq) d)
