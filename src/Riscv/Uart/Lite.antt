-- ===== src/Riscv/Uart/Lite.antt =====
-- am/src/riscv/nutshell/common/uartlite.c.
use Prim.Native.Nat.{bit_and}
use mathlib.Core.List.{append-nil, append_assoc}
use native.Mathlib.Decide.{ℕ_discrete}
use openperf_abstract_machin.Prelude.{
  ℕ, ◌+◌, ◌<◌, ◌≡◌, refl, sym, ap, ◌∙◌, some, List, [], ◌∷◌, ◌++◌, ◌==◌, if◌then◌else◌, eq_true,
  eq_false,
}
use openperf_abstract_machin.Riscv.Uart.{
  Bus, uartlite_mmio, uartlite_stat_reg, uartlite_ctrl_reg, uartlite_tx_fifo, init_uartlite,
  uartlite_send, uartlite_putchar, put_text,
}
use openperf_abstract_machin.Riscv.Uart.Laws.{PollLaws, poll_until-some}

-- A text with a carriage return before each newline.
abbrev pub with_returns : List ℕ → List ℕ
with_returns [] = []
with_returns (ch ∷ l) = (if ch == 10 then 13 ∷ 10 ∷ [] else ch ∷ []) ++ with_returns l

-- What a write does: to the transmit queue, it sends, if there is room; resetting the queues sends
-- nothing.
pub record LiteLaws {D : Type 0} (bus : Bus D) (busy : D → ℕ) (sent : D → List ℕ) : Type 0 where
  pub sends :
      (v : ℕ) (d : D)
      → busy d ≡ 0
      → sent (bus.outb (uartlite_mmio + uartlite_tx_fifo) v d) ≡ sent d ++ (v ∷ [])
  pub resets : (v : ℕ) (d : D) → sent (bus.outb (uartlite_mmio + uartlite_ctrl_reg) v d) ≡ sent d

module _ {D : Type 0} (bus : Bus D) (sent : D → List ℕ) (busy : D → ℕ)
    (polls : PollLaws bus (λ v. bit_and v 8 == 0) (uartlite_mmio + uartlite_stat_reg) busy sent)
    (laws : LiteLaws bus busy sent) (fuel : ℕ) (enough : (e : D) → busy e < fuel) where
  uartlite_send_lem :
      (ch : ℕ) (d : D)
      → (d' : D) × (uartlite_send bus fuel ch d ≡ some d') × (sent d' ≡ sent d ++ (ch ∷ []))
  unfolding uartlite_send
  uartlite_send_lem ch d =
      let (d1, run, same, empty) =
        poll_until-some bus (λ v. bit_and v 8 == 0) (uartlite_mmio + uartlite_stat_reg) busy sent
          polls fuel d (enough d) in
      (
        bus.outb (uartlite_mmio + uartlite_tx_fifo) ch d1,
        rw (run) refl,
        laws.sends ch d1 empty ∙ ap (λ l. l ++ (ch ∷ [])) same,
      )

  uartlite_putchar_lem :
      (ch : ℕ) (d : D)
      → (d' : D) × (uartlite_putchar bus fuel ch d ≡ some d')
        × (sent d' ≡ sent d ++ (if ch == 10 then 13 ∷ 10 ∷ [] else ch ∷ []))
  unfolding uartlite_putchar
  uartlite_putchar_lem ch d = elim (ℕ_discrete ch 10) [
    | yes e ↦
        let (d1, run1, sent1) = uartlite_send_lem 13 d in
        let (d2, run2, sent2) = uartlite_send_lem ch d1 in
        (
          d2,
          rw (eq_true e, run1) run2,
          rw (eq_true e) (
              sent2
              ∙ ap (λ l. l ++ (ch ∷ [])) sent1
              ∙ append_assoc (sent d) (13 ∷ []) (ch ∷ [])
              ∙ ap (λ k. sent d ++ (13 ∷ k ∷ [])) e),
        )
    | no ne ↦
        let (d1, run, one) = uartlite_send_lem ch d in
        (d1, rw (eq_false ne) run, rw (eq_false ne) one)
  ]

  put_text_lem :
      (l : List ℕ) (d : D)
      → (d' : D) × (put_text (uartlite_putchar bus fuel) l d ≡ some d')
        × (sent d' ≡ sent d ++ with_returns l)
  unfolding put_text
  put_text_lem [] d = (d, refl, sym (append-nil (sent d)))
  put_text_lem (ch ∷ l) d =
      let one_ch = if ch == 10 then 13 ∷ 10 ∷ [] else ch ∷ [] in
      let (d1, run, one) = uartlite_putchar_lem ch d in
      let (d2, rest, all) = put_text_lem l d1 in
      (
        d2,
        rw (run) rest,
        all ∙ ap (λ k. k ++ with_returns l) one ∙ append_assoc (sent d) one_ch (with_returns l),
      )

  -- On a UART Lite that sends what is put into its queue, and that has room after fewer polls than
  -- the fuel, __am_init_uartlite followed by __am_uartlite_putchar of each character of a text
  -- returns, and the bytes that have been sent are those before and then those of the text, with a
  -- carriage return before each newline.
  pub put_text-init_uartlite :
      (l : List ℕ) (d : D)
      → (d' : D) × (put_text (uartlite_putchar bus fuel) l (init_uartlite bus d) ≡ some d')
        × (sent d' ≡ sent d ++ with_returns l)
  unfolding init_uartlite
  put_text-init_uartlite l d =
      let (d', run, all) = put_text_lem l (init_uartlite bus d) in
      (d', run, all ∙ ap (λ k. k ++ with_returns l) (laws.resets 3 d))
