-- ===== src/Riscv/Cte.antt =====
-- am/src/riscv/nemu/cte.c on 32 bits with 32 registers: traps and new kernel contexts. Memory is a
-- map from byte addresses to words; a context is known by its address.
mod Tests
pub mod Event
pub mod Context
use openperf_abstract_machin.Am.{EventKind, event_yield, event_syscall, event_error, EventInfo}
use openperf_abstract_machin.Prelude.{
  ℕ, zero, suc, ◌+◌, ◌-◌, ◌*◌, ◌^◌, Bool, true, false, Option, none, some, Memory, write, size,
  sub_size, ◌==◌, if◌then◌else◌,
}

-- The words of `struct Context` at address `c`.
abbrev pub gpr : ℕ → ℕ → ℕ
gpr c i = c + 4 * i

abbrev pub mcause : ℕ → ℕ
mcause c = c + 4 * 32

abbrev pub mstatus : ℕ → ℕ
mstatus c = c + 4 * 33

abbrev pub mepc : ℕ → ℕ
mepc c = c + 4 * 34

abbrev pub pdir : ℕ → ℕ
pdir c = c + 4 * 35

-- The event of a trap; -1 is compared as a `uint32_t`.
pub event_of : ℕ → Memory → EventInfo
event_of c m =
    let kind =
      if m (mcause c) == 11
      then (if m (gpr c 17) == 2 ^ 32 - 1 then event_yield else event_syscall)
      else event_error in
    record { event = kind; cause = 0; ref = 0 }

-- A handler is the client's; it gets an event and a context and returns the context to go on with.
-- The result is `none` where the assertion on it fails.
pub irq_handle : Option (EventInfo → ℕ → Memory → ℕ × Memory) → ℕ → Memory → Option (ℕ × Memory)
irq_handle none c m = some (c, m)
irq_handle (some user_handler) c m =
    let (c', m') = user_handler (event_of c m) c m in if c' == 0 then none else some (c', m')

-- `for (i = ...; i < 32; i++) stack[i] = 0`, with the number of registers left.
pub clear_registers : ℕ → ℕ → ℕ → Memory → Memory
clear_registers zero i stack m = m
clear_registers (suc n) i stack m = clear_registers n (i + 1) stack (write m (stack + 4 * i) 0)

-- `kcontext` on the area from `start` to `limit`.
pub kcontext : ℕ → ℕ → ℕ → ℕ → Memory → ℕ × Memory
kcontext start limit entry arg m =
    let stack = sub_size limit (4 * (32 + 4)) in
    let m0 = clear_registers 32 0 stack m in
    let m1 = write m0 (stack + 4 * 10) (size arg) in
    let m2 = write m1 (stack + 4 * 32) 11 in
    let m3 = write m2 (stack + 4 * 33) 0x1800 in
    let m4 = write m3 (stack + 4 * 34) (size entry) in
    let m5 = write m4 (stack + 4 * 35) 0 in (stack, write m5 start stack)
