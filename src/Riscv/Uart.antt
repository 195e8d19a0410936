-- ===== src/Riscv/Uart.antt =====
-- The serial ports of am/src/riscv/ysyxsoc/trm.c (a 16550) and am/src/riscv/nutshell/common/uartlite.c,
-- as registers behind a bus. The bus is a parameter, and a wait has fuel.
pub mod Laws
pub mod Sixteen550
pub mod Lite
mod Tests
use Prim.Native.Nat.{bit_and}
use openperf_abstract_machin.Prelude.{
  ℕ, zero, suc, ◌+◌, ◌*◌, ◌/◌, ◌%◌, ◌^◌, Bool, true, false, not, Option, none, some, List, [], ◌∷◌,
  ◌==◌, if◌then◌else◌, ◌>>=◌,
}

-- `inb` and `outb` of riscv.h.
pub record Bus (D : Type 0) : Type 0 where
  pub inb : ℕ → D → ℕ × D
  pub outb : ℕ → ℕ → D → D

abbrev pub uart_base : ℕ
uart_base = 0x1000_0000

abbrev pub uart_tx : ℕ
uart_tx = 0

abbrev pub uart_dll : ℕ
uart_dll = 0

abbrev pub uart_ier : ℕ
uart_ier = 1

abbrev pub uart_dlm : ℕ
uart_dlm = 1

abbrev pub uart_fcr : ℕ
uart_fcr = 2

abbrev pub uart_lcr : ℕ
uart_lcr = 3

abbrev pub uart_lsr : ℕ
uart_lsr = 5

-- CLK_FREQ and BATE_RATE; a 16-bit number.
abbrev pub divisor : ℕ
divisor = 3686400 / (16 * 115200) % 2 ^ 16

abbrev pub uartlite_mmio : ℕ
uartlite_mmio = 0x4060_0000

abbrev pub uartlite_tx_fifo : ℕ
uartlite_tx_fifo = 4

abbrev pub uartlite_stat_reg : ℕ
uartlite_stat_reg = 8

abbrev pub uartlite_ctrl_reg : ℕ
uartlite_ctrl_reg = 12

-- A text, character by character.
pub put_text : {D : Type 0} → (ℕ → D → Option D) → List ℕ → D → Option D
put_text put [] d = some d
put_text put (ch ∷ l) d = put ch d >>= λ d1. put_text put l d1

module _ {D : Type 0} (bus : Bus D) where
  -- A loop that reads a register until it is as the test wants it.
  pub poll_until : (ℕ → Bool) → ℕ → ℕ → D → Option D
  poll_until ready zero reg d = none
  poll_until ready (suc fuel) reg d =
      let r = bus.inb reg d in
      let rest = poll_until ready fuel reg r.1 in if ready r.0 then some r.1 else rest

  pub uart_16550_init : D → D
  uart_16550_init d =
      let d1 = bus.outb (uart_base + uart_lcr) 0x87 d in
      let d2 = bus.outb (uart_base + uart_dlm) (divisor / 2 ^ 8) d1 in
      let d3 = bus.outb (uart_base + uart_dll) (divisor % 2 ^ 8) d2 in
      let d4 = bus.outb (uart_base + uart_lcr) 0x07 d3 in
      let d5 = bus.outb (uart_base + uart_fcr) 0xc7 d4 in bus.outb (uart_base + uart_ier) 0 d5

  -- `putch` of ysyxsoc; a character is its byte.
  pub putch_16550 : ℕ → ℕ → D → Option D
  putch_16550 fuel ch d = do
    d1 ← poll_until (λ v. not (bit_and v 0x20 == 0)) fuel (uart_base + uart_lsr) d
    some (bus.outb (uart_base + uart_tx) ch d1)

  pub init_uartlite : D → D
  init_uartlite d = bus.outb (uartlite_mmio + uartlite_ctrl_reg) 3 d

  -- The second half of __am_uartlite_putchar.
  pub uartlite_send : ℕ → ℕ → D → Option D
  uartlite_send fuel ch d = do
    d1 ← poll_until (λ v. bit_and v 8 == 0) fuel (uartlite_mmio + uartlite_stat_reg) d
    some (bus.outb (uartlite_mmio + uartlite_tx_fifo) ch d1)

  -- `__am_uartlite_putchar`; its call of itself is for a carriage return, which is not a newline.
  pub uartlite_putchar : ℕ → ℕ → D → Option D
  uartlite_putchar fuel ch d =
      let newline : Option D = (uartlite_send fuel 13 d >>= λ d1. uartlite_send fuel ch d1) in
      if ch == 10 then newline else uartlite_send fuel ch d
