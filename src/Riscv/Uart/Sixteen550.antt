-- ===== src/Riscv/Uart/Sixteen550.antt =====
-- uart_16550_init and putch of am/src/riscv/ysyxsoc/trm.c.
use Prim.Native.Nat.{bit_and}
use mathlib.Core.List.{append-nil, append_assoc}
use openperf_abstract_machin.Prelude.{
  ℕ, ◌+◌, ◌*◌, ◌/◌, ◌%◌, ◌<◌, ◌≡◌, ◌⊎◌, inl, inr, refl, sym, ap, ◌∙◌, arith, not, some, List, [],
  ◌∷◌, ◌++◌, ◌==◌, if◌then◌else◌,
}
use openperf_abstract_machin.Riscv.Uart.{
  Bus, uart_base, uart_tx, uart_lsr, uart_16550_init, putch_16550, put_text,
}
use openperf_abstract_machin.Riscv.Uart.Laws.{PollLaws, poll_until-some}

-- The port: the line control register, the divisor latch, and the bytes that went out.
pub record Port : Type 0 where
  pub lcr : ℕ
  pub latch : ℕ
  pub sent : List ℕ

abbrev append_sent : List ℕ → Port → Port
append_sent l p = record p { sent = p.sent ++ l }

-- A write to the register at an offset. Bit 7 of the line control register makes the first two
-- registers the divisor latch.
abbrev pub port_write : ℕ → ℕ → Port → Port
port_write reg v p =
    let latched = not (p.lcr / 128 % 2 == 0) in
    if reg == 0
    then if latched
      then record p { latch = p.latch / 256 * 256 + v }
      else record p { sent = p.sent ++ (v ∷ []) }
    else if reg == 1
    then if latched then record p { latch = v * 256 + p.latch % 256 } else p
    else if reg == 3
    then record p { lcr = v }
    else p

-- A write does so, but for a byte to send while there is no room, of which nothing is said.
pub record PortLaws {D : Type 0} (bus : Bus D) (busy : D → ℕ) (port : D → Port) : Type 0 where
  pub writes :
      (reg v : ℕ) (d : D)
      → reg < 8
      → (0 < reg) ⊎ ((port d).lcr / 128 % 2 ≡ 1) ⊎ (busy d ≡ 0)
      → port (bus.outb (uart_base + reg) v d) ≡ port_write reg v (port d)

plain_write :
    (ch : ℕ) (p : Port) → p.lcr ≡ 7 → port_write 0 ch p ≡ record p { sent = p.sent ++ (ch ∷ []) }
plain_write ch p mode = rw (mode) refl

module _ {D : Type 0} (bus : Bus D) (port : D → Port) (busy : D → ℕ)
    (polls : PollLaws bus (λ v. not (bit_and v 0x20 == 0)) (uart_base + uart_lsr) busy port)
    (laws : PortLaws bus busy port) where
  uart_16550_init_lem :
      (d : D) → port (uart_16550_init bus d) ≡ record (port d) { lcr = 7; latch = 2 }
  unfolding uart_16550_init
  uart_16550_init_lem d =
      let w = λ (reg v : ℕ) (d : D). bus.outb (uart_base + reg) v d in
      let d1 = w 3 0x87 d in
      let d2 = w 1 0 d1 in
      let d3 = w 0 2 d2 in
      let d4 = w 3 7 d3 in
      let d5 = w 2 0xc7 d4 in
      let p1 : port d1 ≡ port_write 3 0x87 (port d) =
        laws.writes 3 0x87 d (omega arith) (inl (omega arith)) in
      let p2 : port d2 ≡ port_write 1 0 (port_write 3 0x87 (port d)) =
        laws.writes 1 0 d1 (omega arith) (inl (omega arith)) ∙ ap (port_write 1 0) p1 in
      let open_latch : (port d2).lcr / 128 % 2 ≡ 1 = ap (λ p. p.lcr / 128 % 2) p2 in
      let p3 : port d3 ≡ record (port d) { lcr = 0x87; latch = 2 } =
        laws.writes 0 2 d2 (omega arith) (inr (inl open_latch))
        ∙ ap (port_write 0 2) p2
        ∙ ap {B = Port} (λ (k : ℕ). record (port d) { lcr = 0x87; latch = k }) (omega arith) in
      laws.writes 1 0 d5 (omega arith) (inl (omega arith))
      ∙ ap (port_write 1 0) (
          laws.writes 2 0xc7 d4 (omega arith) (inl (omega arith))
          ∙ ap (port_write 2 0xc7)
              (laws.writes 3 7 d3 (omega arith) (inl (omega arith)) ∙ ap (port_write 3 7) p3))

  putch_16550_lem :
      (fuel ch : ℕ) (d : D)
      → busy d < fuel
      → (port d).lcr ≡ 7
      → (d' : D) × (putch_16550 bus fuel ch d ≡ some d')
        × (port d' ≡ record (port d) { sent = (port d).sent ++ (ch ∷ []) })
  unfolding putch_16550
  putch_16550_lem fuel ch d enough mode =
      let (d1, run, same, empty) =
        poll_until-some bus (λ v. not (bit_and v 0x20 == 0)) (uart_base + uart_lsr) busy port polls
          fuel d enough in
      let mode1 : (port d1).lcr ≡ 7 = ap (λ p. p.lcr) same ∙ mode in
      (
        bus.outb (uart_base + uart_tx) ch d1,
        rw (run) refl,
        laws.writes 0 ch d1 (omega arith) (inr (inr empty))
            ∙ plain_write ch (port d1) mode1
            ∙ ap (append_sent (ch ∷ [])) same,
      )

  put_text_lem :
      (fuel : ℕ) (l : List ℕ) (d : D)
      → ((e : D) → busy e < fuel)
      → (port d).lcr ≡ 7
      → (d' : D) × (put_text (putch_16550 bus fuel) l d ≡ some d')
        × (port d' ≡ record (port d) { sent = (port d).sent ++ l })
  unfolding put_text
  put_text_lem fuel [] d enough mode = (
    d,
    refl,
    ap {B = Port} (λ (k : List ℕ). record (port d) { sent = k }) (sym (append-nil (port d).sent)),
  )
  put_text_lem fuel (ch ∷ l) d enough mode =
      let (d1, run, one) = putch_16550_lem fuel ch d (enough d) mode in
      let (d2, rest, all) = put_text_lem fuel l d1 enough (ap (λ p. p.lcr) one ∙ mode) in
      (
        d2,
        rw (run) rest,
        all
            ∙ ap (append_sent l) one
            ∙ ap {B = Port} (λ (k : List ℕ). record (port d) { sent = k })
                (append_assoc (port d).sent (ch ∷ []) l),
      )

  -- On a 16550 whose writes do what its registers are for, if it has room for each byte that it is
  -- to send, and that has room after fewer polls than the fuel, uart_16550_init followed by putch
  -- of each character of a text returns: the bytes that the port has sent are those before and then
  -- those of the text, in order; the divisor is 2, and the line control register is 7, so that the
  -- latch is closed.
  pub put_text-uart_16550_init :
      (fuel : ℕ) (l : List ℕ) (d : D)
      → ((e : D) → busy e < fuel)
      → (d' : D) × (put_text (putch_16550 bus fuel) l (uart_16550_init bus d) ≡ some d')
        × (port d' ≡ record { lcr = 7; latch = 2; sent = (port d).sent ++ l })
  put_text-uart_16550_init fuel l d enough =
      let start = uart_16550_init_lem d in
      let (d', run, all) =
        put_text_lem fuel l (uart_16550_init bus d) enough (ap (λ p. p.lcr) start) in
      (d', run, all ∙ ap (append_sent l) start)
