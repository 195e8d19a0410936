-- ===== src/X86/Cte/Tests.antt =====
-- Traps, the table of interrupts and new contexts at examples.
use openperf_abstract_machin.Am.{event_pagefault, EventInfo}
use openperf_abstract_machin.Prelude.{
  ◌+◌, ◌%◌, ◌^◌, ◌<◌, ◌≡◌, ◌⊎◌, refl, arith, true, Option, none, some, [],
}
use openperf_abstract_machin.X86.Desc.Decode.{offset_of}
use openperf_abstract_machin.X86.Cte.{
  Context, no_context, TrapFrame, Cpu, save_context, irq_handle, trap_event, fault_cause, kcontext,
  ucontext, cte_idt,
}
use openperf_abstract_machin.X86.Cte.Idt.{cte_idt_lem}
use openperf_abstract_machin.X86.Cte.Trap.{
  Means, Resumes, irq_handle-Resumes, save_context-irq_handle,
}

-- A timer interrupt of a user program, and a page fault of another.
abbrev ticked : TrapFrame
ticked = record {
  saved_context = no_context;
  irq = 32;
  errcode = 0;
  eip = 0x4000_0000;
  cs = 0x1b;
  eflags = 0x202;
  esp = 0x7fff_f000;
  ss = 0x23;
  address = 0x9000;
}

abbrev faulted : TrapFrame
faulted = record ticked { irq = 14; errcode = 7 }

abbrev cpu : Cpu
cpu = record {
  cr2 = 0x4000_1234;
  cr3 = 0x7000;
  tss_ss0 = 16;
  tss_esp0 = 0xa000;
  lapic = true;
  lapic_writes = [];
}

abbrev go_on : EventInfo → Context → Option Context
go_on ev ctx = some ctx

fault_run :
    trap_event 14 7 0x4000_1234 ≡ record { event = event_pagefault; cause = 2; ref = 0x4000_1234 }
unfolding trap_event fault_cause
fault_run = refl

user_run : (ucontext 0x7007 0xa000 0x4000_0000).1.esp ≡ 0x8000_0000
unfolding ucontext
user_run = refl

kernel_run : (kcontext 0x10_0000 0xa000 0x10_2000 5).0 ≡ 0x9fc4
unfolding kcontext
kernel_run = refl

irq_handle-Resumes_example :
    (ev : EventInfo) × Means 0 0x4000_1234 32 ev
    × (((go_on ev (save_context ticked cpu) ≡ none) × (irq_handle go_on ticked cpu ≡ none))
        ⊎ ((ctx : Context) × (c' : Cpu) × (go_on ev (save_context ticked cpu) ≡ some ctx)
            × (irq_handle go_on ticked cpu ≡ some (ctx, c'))
            × Resumes ticked cpu ctx c'))
irq_handle-Resumes_example = irq_handle-Resumes go_on ticked cpu

save_context-irq_handle_example :
    let ctx = save_context ticked cpu in
    (c' : Cpu) × (irq_handle (λ ev s. some ctx) faulted cpu ≡ some (ctx, c'))
    × (c'.cr3 ≡ 0x7000)
    × (c'.tss_esp0 ≡ 0xa000)
    × (ctx.eip ≡ 0x4000_0000)
    × (ctx.cs ≡ 0x1b)
    × (ctx.eflags ≡ 0x202)
    × (0x1b % 4 ≡ 3 → ctx.esp ≡ 0x7fff_f000)
    × (0x1b % 4 ≡ 0 → 0x9000 + 88 < 2 ^ 32 → ctx.esp ≡ 0x9050)
save_context-irq_handle_example = save_context-irq_handle ticked faulted cpu cpu (omega arith)

cte_idt_lem_example :
    (offset_of (cte_idt 0x10_0000 (λ i. 0x10_1000 + i) 0x80) ≡ 0x10_1080)
    × ((cte_idt 0x10_0000 (λ i. 0x10_1000 + i) 0x80).dpl ≡ 3)
    × ((cte_idt 0x10_0000 (λ i. 0x10_1000 + i) 0x80).cs ≡ 8)
    × ((cte_idt 0x10_0000 (λ i. 0x10_1000 + i) 0x80).p ≡ 1)
cte_idt_lem_example =
    cte_idt_lem 0x10_0000 (λ i. 0x10_1000 + i) 0x80 (omega arith) (omega arith) (omega arith)
