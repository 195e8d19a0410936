-- ===== src/Riscv/Cte/Event.antt =====
-- What a handler learns of a trap in am/src/riscv/nemu/cte.c.
use native.Mathlib.Decide.{ℕ_discrete}
use openperf_abstract_machin.Prelude.{ℕ, ◌≡◌, ◌≢◌, refl, some, Memory, eq_false}
use openperf_abstract_machin.Am.{EventKind, event_yield, event_syscall, event_error, EventInfo}
use openperf_abstract_machin.Riscv.Cte.{gpr, mcause, event_of, irq_handle}

-- The event that a trap with the given cause and call number stands for.
pub data Means : ℕ → ℕ → EventKind → Type 0 where
  yields : Means 11 0xffff_ffff event_yield
  calls : {number : ℕ} → number ≢ 0xffff_ffff → Means 11 number event_syscall
  fails : {cause number : ℕ} → cause ≢ 11 → Means cause number event_error

event_of-Means : (c : ℕ) (m : Memory) → Means (m (mcause c)) (m (gpr c 17)) (event_of c m).event
unfolding event_of
event_of-Means c m = elim (ℕ_discrete (m (mcause c)) 11) [
  | yes e ↦ elim (ℕ_discrete (m (gpr c 17)) 0xffff_ffff) [
    | yes f ↦ rw (e, f) yields
    | no g ↦ rw (e, eq_false g) (calls g)
  ]
  | no n ↦ rw (eq_false n) (fails n)
]

-- With a handler that returns no NULL, __am_irq_handle goes on with what the handler returns on
-- the event that the trap means: a yield for cause 11 with call number -1, a system call for cause
-- 11 with any other number, an error for any other cause.
pub irq_handle_lem :
    (handler : EventInfo → ℕ → Memory → ℕ × Memory) (c : ℕ) (m : Memory)
    → ((kind : EventKind) → (handler (record { event = kind; cause = 0; ref = 0 }) c m).0 ≢ 0)
    → (kind : EventKind) × Means (m (mcause c)) (m (gpr c 17)) kind
      × (irq_handle (some handler) c m
          ≡ some (handler (record { event = kind; cause = 0; ref = 0 }) c m))
unfolding irq_handle event_of
irq_handle_lem handler c m ok =
    ((event_of c m).event, event_of-Means c m, rw (eq_false (ok (event_of c m).event)) refl)
