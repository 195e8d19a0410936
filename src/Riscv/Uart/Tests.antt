-- ===== src/Riscv/Uart/Tests.antt =====
-- A port that is busy for two reads after each byte.
use Prim.Native.Nat.{bit_and}
use mathlib.Core.Path.{ap}
use openperf_abstract_machin.Prelude.{
  ℕ, ◌+◌, ◌-◌, ◌≡◌, refl, arith, not, some, List, [], ◌∷◌, ◌++◌, ◌==◌, if◌then◌else◌, ltb,
}
use openperf_abstract_machin.Riscv.Uart.{
  Bus, uart_base, uart_lsr, uart_16550_init, putch_16550, uartlite_mmio, uartlite_tx_fifo,
  init_uartlite, uartlite_putchar, put_text,
}
use openperf_abstract_machin.Riscv.Uart.Laws.{PollLaws}
use openperf_abstract_machin.Riscv.Uart.Sixteen550.{
  Port, port_write, PortLaws, put_text-uart_16550_init,
}
use openperf_abstract_machin.Riscv.Uart.Lite.{put_text-init_uartlite}

-- At most two reads say that there is no room.
abbrev countdown : ℕ → ℕ
countdown k = if ltb k 3 then k else 2

abbrev port_bus : Bus (ℕ × Port)
port_bus = record {
  inb = λ reg d. ((if countdown d.0 == 0 then 0x20 else 0), (countdown d.0 - 1, d.1));
  outb = λ reg v d. (2, port_write (reg - uart_base) v d.1);
}

abbrev port_polls :
    PollLaws port_bus
      (λ v. not (bit_and v 0x20 == 0))
      (uart_base + uart_lsr)
      (λ d. countdown d.0)
      (λ d. d.1)
port_polls = record {
  idle = λ d e. rw (e) refl;
  room = λ d r. ground arith;
  waits = λ d. ground arith;
  reads = λ d. refl;
}

abbrev port_laws : PortLaws port_bus (λ d. countdown d.0) (λ d. d.1)
port_laws = record {
  writes = λ reg v d low free.
      let offset : uart_base + reg - uart_base ≡ reg = omega arith in
      ap (λ k. port_write k v d.1) offset;
}

put_text-uart_16550_init_example :
    (d' : ℕ × Port) × (put_text
        (putch_16550 port_bus 3)
        (72 ∷ 105 ∷ [])
        (uart_16550_init port_bus (0, record { lcr = 3; latch = 0; sent = [] }))
      ≡ some d')
    × (d'.1 ≡ record { lcr = 7; latch = 2; sent = 72 ∷ 105 ∷ [] })
put_text-uart_16550_init_example =
    put_text-uart_16550_init port_bus (λ d. d.1) (λ d. countdown d.0) port_polls port_laws 3
      (72 ∷ 105 ∷ []) (0, record { lcr = 3; latch = 0; sent = [] }) (λ e. ground arith)

abbrev lite_bus : Bus (ℕ × List ℕ)
lite_bus = record {
  inb = λ reg d. ((if countdown d.0 == 0 then 0 else 8), (countdown d.0 - 1, d.1));
  outb = λ reg v d. (2, if reg == uartlite_mmio + uartlite_tx_fifo then d.1 ++ (v ∷ []) else d.1);
}

put_text-init_uartlite_run :
    (d' : ℕ × List ℕ) × (put_text
        (uartlite_putchar lite_bus 3)
        (72 ∷ 10 ∷ [])
        (init_uartlite lite_bus (0, []))
      ≡ some d')
    × (d'.1 ≡ 72 ∷ 13 ∷ 10 ∷ [])
put_text-init_uartlite_run =
    put_text-init_uartlite lite_bus (λ d. d.1) (λ d. countdown d.0)
      (record {
        idle = λ d e. rw (e) refl;
        room = λ d r. ground arith;
        waits = λ d. ground arith;
        reads = λ d. refl;
      })
      (record { sends = λ v d empty. refl; resets = λ v d. refl }) 3 (λ e. ground arith)
      (72 ∷ 10 ∷ []) (0, [])
