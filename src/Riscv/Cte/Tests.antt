-- ===== src/Riscv/Cte/Tests.antt =====
-- A new context on a stack, a handler, and the theorems at these.
use openperf_abstract_machin.Prelude.{ℕ, ◌+◌, ◌≡◌, refl, arith, some, Memory, write}
use openperf_abstract_machin.Am.{EventKind, event_yield, EventInfo}
use openperf_abstract_machin.Riscv.Cte.{
  gpr, mcause, event_of, irq_handle, clear_registers, kcontext,
}
use openperf_abstract_machin.Riscv.Cte.Event.{Means, irq_handle_lem}
use openperf_abstract_machin.Riscv.Cte.Context.{Starts, kcontext_lem}

-- A context at 0x1000 that has just called `yield`.
abbrev yielding : Memory
yielding = write (write (λ a. 0) (mcause 0x1000) 11) (gpr 0x1000 17) 0xffff_ffff

-- A handler that goes on with the context behind the one that was stopped.
abbrev next_context : EventInfo → ℕ → Memory → ℕ × Memory
next_context ev c m = (c + 0x1000, m)

yield_run : (event_of 0x1000 yielding).event ≡ event_yield
unfolding event_of
yield_run = refl

irq_handle_lem_run :
    (kind : EventKind) × Means 11 0xffff_ffff kind
    × (irq_handle (some next_context) 0x1000 yielding ≡ some (0x2000, yielding))
irq_handle_lem_run = irq_handle_lem next_context 0x1000 yielding (λ kind. omega arith)

kcontext_run : (kcontext 0x1000 0x2000 0x8000 7 (λ a. 9)).1 (gpr 0x1f70 10) ≡ 7
unfolding kcontext clear_registers
kcontext_run = refl

kcontext_lem_run :
    (0x1f70 + 144 ≡ 0x2000)
    × Starts 0x1000 0x1f70 0x8000 7 (λ a. 9) (kcontext 0x1000 0x2000 0x8000 7 (λ a. 9)).1
unfolding kcontext
kcontext_lem_run =
    kcontext_lem 0x1000 0x2000 0x8000 7 (λ a. 9) (omega arith) (omega arith) (omega arith)
      (omega arith)
