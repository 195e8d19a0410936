-- ===== src/X86/Cte/Trap.antt =====
-- __am_irq_handle of am/src/x86/qemu/cte.c: what a handler learns, and what is resumed.
use native.Mathlib.Decide.{ℕ_discrete}
use openperf_abstract_machin.Am.{
  event_yield, event_syscall, event_pagefault, event_error, event_irq_timer, event_irq_iodev,
  EventInfo,
}
use openperf_abstract_machin.Prelude.{
  ℕ, ◌+◌, ◌/◌, ◌%◌, ◌^◌, ◌≤◌, ◌<◌, ◌≡◌, ◌≢◌, ◌⊎◌, inl, inr, refl, arith, Option, Option-cases, none,
  some, ◌&&◌, List, ◌∷◌, leb, ltb, ◌==◌, if◌then◌else◌, eq_true, eq_false,
}
use openperf_abstract_machin.Prelude.Bits.{bit_and_low, bit_and_field}
use openperf_abstract_machin.X86.Cte.{
  Context, TrapFrame, Cpu, eoi, lapicw, lapic_eoi, save_context, fault_cause, plain, trap_event,
  acknowledge, resume, irq_handle,
}

-- What the vectors stand for.
pub data Means (errcode cr2 irq : ℕ) : EventInfo → Type 0 where
  timer : irq ≡ 32 → Means errcode cr2 irq (plain event_irq_timer)
  device : (irq ≡ 33) ⊎ (irq ≡ 36) → Means errcode cr2 irq (plain event_irq_iodev)
  syscall : irq ≡ 0x80 → Means errcode cr2 irq (plain event_syscall)
  yields : irq ≡ 0x81 → Means errcode cr2 irq (plain event_yield)
  fault :
      (cause : ℕ)
      → irq ≡ 14
      → cause ≡ (if errcode / 2 % 2 == 1 then 2 else 1)
      → Means errcode cr2 irq (record { event = event_pagefault; cause = cause; ref = cr2 })
  exception :
      (irq ≡ 0) ⊎ ((6 ≤ irq) × (irq ≤ 8)) ⊎ ((10 ≤ irq) × (irq ≤ 13))
      → Means errcode cr2 irq (plain event_error)
  other :
      irq ≢ 32
      → irq ≢ 33
      → irq ≢ 36
      → irq ≢ 0x80
      → irq ≢ 0x81
      → irq ≢ 0
      → (irq < 6) ⊎ (irq ≡ 9) ⊎ (14 < irq)
      → Means errcode cr2 irq (record { event = event_error; cause = errcode; ref = 0 })

fault_cause_lem : (errcode : ℕ) → fault_cause errcode ≡ (if errcode / 2 % 2 == 1 then 2 else 1)
unfolding fault_cause
fault_cause_lem errcode = rw (bit_and_field 1 1 errcode) (ground (arith, bit_and_low 1 errcode))

-- A case of the switch, and those behind it.
next_case :
    (irq k errcode cr2 : ℕ) (a b : EventInfo)
    → (irq ≡ k → Means errcode cr2 irq a)
    → (irq ≢ k → Means errcode cr2 irq b)
    → Means errcode cr2 irq (if irq == k then a else b)
next_case irq k errcode cr2 a b here there = elim (ℕ_discrete irq k) [
  | yes e ↦ rw (eq_true e) (here e)
  | no ne ↦ rw (eq_false ne) (there ne)
]

trap_event-Means : (irq errcode cr2 : ℕ) → Means errcode cr2 irq (trap_event irq errcode cr2)
unfolding trap_event
trap_event-Means irq errcode cr2 = next_case irq 32 errcode cr2 _ _ timer λ n32.
    next_case irq 33 errcode cr2 _ _ (λ e. device (inl e))
      λ n33.
        next_case irq 36 errcode cr2 _ _ (λ e. device (inr e))
          λ n36. next_case irq 0x80 errcode cr2 _ _ syscall λ n128.
            next_case irq 0x81 errcode cr2 _ _ yields λ n129.
              next_case irq 0 errcode cr2 _ _ (λ e. exception (inl e))
                λ n0.
                  next_case irq 6 errcode cr2 _ _ (λ e. exception (omega arith))
                    λ n6.
                      next_case irq 7 errcode cr2 _ _ (λ e. exception (omega arith))
                        λ n7.
                          next_case irq 8 errcode cr2 _ _ (λ e. exception (omega arith))
                            λ n8.
                              next_case irq 10 errcode cr2 _ _ (λ e. exception (omega arith))
                                λ n10.
                                  next_case irq 11 errcode cr2 _ _ (λ e. exception (omega arith))
                                    λ n11.
                                      next_case irq 12 errcode cr2 _ _
                                        (λ e. exception (omega arith))
                                        λ n12.
                                          next_case irq 13 errcode cr2 _ _
                                            (λ e. exception (omega arith))
                                            λ n13.
                                              next_case irq 14 errcode cr2 _ _
                                                (λ e.
                                                  fault (fault_cause errcode) e
                                                    (fault_cause_lem errcode))
                                                λ n14. other n32 n33 n36 n128 n129 n0 (omega arith)

-- The processor after a trap, when the handler goes on with a context that has an address space.
abbrev eoi_writes : ℕ → Cpu → List (ℕ × ℕ)
eoi_writes irq c =
    if leb 32 irq && ltb irq 64 && c.lapic then (eoi, 0) ∷ c.lapic_writes else c.lapic_writes

pub record Resumes (tf : TrapFrame) (c : Cpu) (ctx : Context) (c' : Cpu) : Type 0 where
  pub same_fault : c'.cr2 ≡ c.cr2
  pub space : ctx.cr3 ≢ 0 → c'.cr3 ≡ ctx.cr3
  pub stack : ctx.cr3 ≢ 0 → (c'.tss_esp0 ≡ ctx.esp0) × (c'.tss_ss0 ≡ 16)
  pub no_space : ctx.cr3 ≡ 0 → (c'.cr3 ≡ c.cr3) × (c'.tss_esp0 ≡ c.tss_esp0)
  pub acknowledged : c'.lapic_writes ≡ eoi_writes tf.irq c

resume-Resumes :
    (tf : TrapFrame) (c : Cpu) (ctx : Context)
    → Resumes tf c ctx (resume ctx (acknowledge tf.irq c))
unfolding resume acknowledge lapic_eoi lapicw
resume-Resumes tf c ctx = record {
  same_fault = ground arith;
  space = λ ne. ground arith;
  stack = λ ne. ground arith;
  no_space = λ e. ground arith;
  acknowledged = ground arith;
}

-- __am_irq_handle hands the handler the saved context and the event that the interrupt means, a
-- field of it for each class of interrupts. If the handler returns NULL it panics. Otherwise it
-- resumes the context that the handler returns, with its page directory and kernel stack set if
-- the directory is not NULL and both left alone if it is, and it has acknowledged the interrupt
-- exactly if it is one of a device and the local controller is set up.
pub irq_handle-Resumes :
    (handler : EventInfo → Context → Option Context) (tf : TrapFrame) (c : Cpu)
    → (ev : EventInfo) × Means tf.errcode c.cr2 tf.irq ev
      × (((handler ev (save_context tf c) ≡ none) × (irq_handle handler tf c ≡ none))
          ⊎ ((ctx : Context) × (c' : Cpu) × (handler ev (save_context tf c) ≡ some ctx)
              × (irq_handle handler tf c ≡ some (ctx, c'))
              × Resumes tf c ctx c'))
unfolding irq_handle
irq_handle-Resumes handler tf c =
    let ev = trap_event tf.irq tf.errcode c.cr2 in
    (
      ev,
      trap_event-Means tf.irq tf.errcode c.cr2,
      elim (Option-cases (handler ev (save_context tf c))) [
        | inl e ↦ inl (e, rw (e, irq_handle) refl)
        | inr (ctx, e) ↦ inr (
          ctx,
          resume ctx (acknowledge tf.irq c),
          e,
          rw (e, irq_handle) refl,
          resume-Resumes tf c ctx,
        )
      ],
    )

-- A context that a trap saves with a page directory other than NULL, and that the handler of a
-- later trap, on any processor, returns, is resumed with the page directory and the kernel stack
-- that were in use when it was saved, at its instruction, with its code segment and flags, and
-- with its stack pointer: the one of the trap frame if it was user code, and the address of the
-- frame plus 80 if it was kernel code and the frame fits below 2 ^ 32.
pub save_context-irq_handle :
    (tf1 tf2 : TrapFrame) (c1 c2 : Cpu)
    → c1.cr3 ≢ 0
    → let ctx = save_context tf1 c1 in
      (c' : Cpu) × (irq_handle (λ ev s. some ctx) tf2 c2 ≡ some (ctx, c'))
      × (c'.cr3 ≡ c1.cr3)
      × (c'.tss_esp0 ≡ c1.tss_esp0)
      × (ctx.eip ≡ tf1.eip)
      × (ctx.cs ≡ tf1.cs)
      × (ctx.eflags ≡ tf1.eflags)
      × (tf1.cs % 4 ≡ 3 → ctx.esp ≡ tf1.esp)
      × (tf1.cs % 4 ≡ 0 → tf1.address + 88 < 2 ^ 32 → ctx.esp ≡ tf1.address + 80)
unfolding irq_handle save_context
save_context-irq_handle tf1 tf2 c1 c2 ne =
    let back = resume-Resumes tf2 c2 (save_context tf1 c1) in
    let user = bit_and_low 2 tf1.cs in
    (
      resume (save_context tf1 c1) (acknowledge tf2.irq c2),
      refl,
      back.space ne,
      (back.stack ne).0,
      refl,
      refl,
      refl,
      (λ ring. ground arith),
      λ ring fits. ground arith,
    )
