-- ===== src/X86/Ports.antt =====
-- The ports of an x86 machine, which am/src/x86/x86.h reaches by assembly, and what is documented of
-- an ATA disk behind them. The machine is a parameter of the drivers.
use Prim.Native.Nat.{bit_and}
use openperf_abstract_machin.Prelude.{
  ℕ, zero, suc, ◌+◌, ◌-◌, ◌*◌, ◌/◌, ◌%◌, ◌^◌, ◌≤◌, ◌<◌, ◌≡◌, ◌≢◌, ◌⊎◌, Memory, write, if◌then◌else◌,
  leb, ltb, ◌&&◌,
}

pub record Ports (D : Type 0) : Type 0 where
  pub inb : ℕ → D → ℕ × D
  pub inl : ℕ → D → ℕ × D
  pub outb : ℕ → ℕ → D → D
  pub outw : ℕ → ℕ → D → D
  pub outl : ℕ → ℕ → D → D

-- Byte number `k` of a word, the lowest first.
abbrev pub digit : ℕ → ℕ → ℕ
digit v zero = v % 256
digit v (suc k) = digit (v / 256) k

-- The word at an address of a byte memory, and the memory after a word has been stored.
abbrev pub load_word : Memory → ℕ → ℕ
load_word m a = m a + 2 ^ 8 * m (a + 1) + 2 ^ 16 * m (a + 2) + 2 ^ 24 * m (a + 3)

abbrev pub store_word : Memory → ℕ → ℕ → Memory
store_word m a v b = if leb a b && ltb b (a + 4) then digit v (b - a) else m b

-- The registers of a disk by their ports, the command, the sector and the word of the transfer, the
-- bytes that are stored, and how often the status is still to be read before the disk is ready.
pub record AtaView : Type 0 where
  pub registers : ℕ → ℕ
  pub code : ℕ
  pub sector : ℕ
  pub position : ℕ
  pub stored : Memory
  pub busy : ℕ

-- The sector that the registers 0x1f3 to 0x1f6 select.
abbrev pub selected : (ℕ → ℕ) → ℕ
selected r = r 0x1f3 + 2 ^ 8 * r 0x1f4 + 2 ^ 16 * r 0x1f5 + 2 ^ 24 * (r 0x1f6 % 16)

-- The address on the disk that the transfer has reached.
abbrev pub reached : AtaView → ℕ
reached v = 512 * v.sector + 4 * v.position

-- One sector in LBA mode: after command 0x20 it is read and after 0x30 it is written, a word at a
-- time through port 0x1f0. The disk is ready after at most `patience` reads of its status. It takes
-- registers, commands and words only when it is ready, and stays so until the last word.
pub record Ata {D : Type 0} (ports : Ports D) : Type 0 where
  pub view : D → AtaView
  pub patience : ℕ
  pub patient : (d : D) → (view d).busy ≤ patience
  pub bytes : (d : D) (a : ℕ) → (view d).stored a < 256
  pub ready : (d : D) → (view d).busy ≡ 0 → bit_and (ports.inb 0x1f7 d).0 0xc0 ≡ 0x40
  pub not_ready : (d : D) → (view d).busy ≢ 0 → bit_and (ports.inb 0x1f7 d).0 0xc0 ≢ 0x40
  pub polled : (d : D) → view (ports.inb 0x1f7 d).1 ≡ record (view d) { busy = (view d).busy - 1 }
  pub set_register :
      (d : D) (p v : ℕ)
      → 0x1f2 ≤ p
      → p ≤ 0x1f6
      → v < 256
      → (view d).busy ≡ 0
      → view (ports.outb p v d) ≡ record (view d) { registers = write (view d).registers p v }
  pub command :
      (d : D) (c : ℕ)
      → (c ≡ 0x20) ⊎ (c ≡ 0x30)
      → (view d).registers 0x1f2 ≡ 1
      → (view d).registers 0x1f6 / 16 ≡ 14
      → (view d).busy ≡ 0
      → ((view (ports.outb 0x1f7 c d)).code ≡ c)
        × ((view (ports.outb 0x1f7 c d)).sector ≡ selected (view d).registers)
        × ((view (ports.outb 0x1f7 c d)).position ≡ 0)
        × ((view (ports.outb 0x1f7 c d)).stored ≡ (view d).stored)
  pub read_value :
      (d : D) (k : ℕ)
      → (view d).position < 128
      → k < 4
      → (view d).busy ≡ 0
      → (view d).code ≡ 0x20
      → digit (ports.inl 0x1f0 d).0 k ≡ (view d).stored (reached (view d) + k)
  pub read_moves :
      (d : D)
      → (view d).position < 128
      → (view d).busy ≡ 0
      → (view d).code ≡ 0x20
      → ((view (ports.inl 0x1f0 d).1).code ≡ 0x20)
        × ((view (ports.inl 0x1f0 d).1).position < 128 → (view (ports.inl 0x1f0 d).1).busy ≡ 0)
        × ((view (ports.inl 0x1f0 d).1).sector ≡ (view d).sector)
        × ((view (ports.inl 0x1f0 d).1).position ≡ (view d).position + 1)
        × ((view (ports.inl 0x1f0 d).1).stored ≡ (view d).stored)
  pub write_moves :
      (d : D) (v : ℕ)
      → (view d).position < 128
      → (view d).busy ≡ 0
      → (view d).code ≡ 0x30
      → ((view (ports.outl 0x1f0 v d)).code ≡ 0x30)
        × ((view (ports.outl 0x1f0 v d)).position < 128 → (view (ports.outl 0x1f0 v d)).busy ≡ 0)
        × ((view (ports.outl 0x1f0 v d)).sector ≡ (view d).sector)
        × ((view (ports.outl 0x1f0 v d)).position ≡ (view d).position + 1)
        × ((view (ports.outl 0x1f0 v d)).stored ≡ store_word (view d).stored (reached (view d)) v)
