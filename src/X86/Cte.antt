-- ===== src/X86/Cte.antt =====
-- am/src/x86/qemu/cte.c on 32 bits: the table of interrupts, what happens at one, and new contexts.
pub mod Idt
pub mod Trap
mod Tests
use Prim.Native.Nat.{bit_and, bit_or}
use openperf_abstract_machin.Am.{
  EventKind, event_null, event_yield, event_syscall, event_pagefault, event_error, event_irq_timer,
  event_irq_iodev, EventInfo,
}
use openperf_abstract_machin.Prelude.{
  ℕ, zero, suc, ◌+◌, ◌-◌, ◌*◌, ◌/◌, ◌%◌, ◌^◌, Bool, true, false, Option, none, some, ◌&&◌, ◌||◌,
  not, List, [], ◌∷◌, ◌++◌, size, sub_size, leb, ltb, ◌==◌, if◌then◌else◌,
}
use openperf_abstract_machin.X86.Desc.{
  dpl_kern, dpl_user, sts_tg, fl_if, seg_kcode, seg_kdata, seg_ucode, seg_udata, ksel, usel,
  GateDesc32, gate32,
}

-- `struct Context` of am/include/arch/x86-qemu.h.
pub record Context : Type 0 where
  pub cr3 : ℕ
  pub ds : ℕ
  pub eax : ℕ
  pub ebx : ℕ
  pub ecx : ℕ
  pub edx : ℕ
  pub esp0 : ℕ
  pub esi : ℕ
  pub edi : ℕ
  pub ebp : ℕ
  pub eip : ℕ
  pub cs : ℕ
  pub eflags : ℕ
  pub esp : ℕ
  pub ss3 : ℕ

-- `struct trap_frame`, and its address.
pub record TrapFrame : Type 0 where
  pub saved_context : Context
  pub irq : ℕ
  pub errcode : ℕ
  pub eip : ℕ
  pub cs : ℕ
  pub eflags : ℕ
  pub esp : ℕ
  pub ss : ℕ
  pub address : ℕ

-- The control registers and the task state segment of the processor, whether `__am_lapic` is set,
-- and the writes to it: index and value, the latest first.
pub record Cpu : Type 0 where
  pub cr2 : ℕ
  pub cr3 : ℕ
  pub tss_ss0 : ℕ
  pub tss_esp0 : ℕ
  pub lapic : Bool
  pub lapic_writes : List (ℕ × ℕ)

abbrev pub t_irq0 : ℕ
t_irq0 = 32

-- EOI, an index of 32-bit registers.
abbrev pub eoi : ℕ
eoi = 0xb0 / 4

-- `lapicw`; the read behind the write has no effect.
pub lapicw : ℕ → ℕ → Cpu → Cpu
lapicw index value c = record c { lapic_writes = (index, value) ∷ c.lapic_writes }

pub lapic_eoi : Cpu → Cpu
lapic_eoi c = if c.lapic then lapicw eoi 0 c else c

-- The fields that `__am_irq_handle` fills in. `sizeof(struct trap_frame)` is 88.
pub save_context : TrapFrame → Cpu → Context
save_context tf c = record tf.saved_context {
  eip = tf.eip;
  cs = tf.cs;
  eflags = tf.eflags;
  esp0 = c.tss_esp0;
  ss3 = usel seg_udata;
  esp = (if bit_and tf.cs dpl_user == 0 then sub_size (size (tf.address + 88)) 8 else tf.esp);
  cr3 = c.cr3;
}

-- The cause of a page fault, from MMAP_NONE = 0, MMAP_READ = 1 and MMAP_WRITE = 2.
pub fault_cause : ℕ → ℕ
fault_cause errcode =
    let cause = if bit_and errcode 1 == 0 then 0 else bit_or 0 0 in
    if bit_and errcode 2 == 0 then bit_or cause 1 else bit_or cause 2

abbrev pub plain : EventKind → EventInfo
plain kind = record { event = kind; cause = 0; ref = 0 }

-- The switch over `tf->irq`.
pub trap_event : ℕ → ℕ → ℕ → EventInfo
trap_event irq errcode cr2 =
    if irq == t_irq0 + 0
    then plain event_irq_timer
    else if irq == t_irq0 + 1
    then plain event_irq_iodev
    else if irq == t_irq0 + 4
    then plain event_irq_iodev
    else if irq == 0x80
    then plain event_syscall
    else if irq == 0x81
    then plain event_yield
    else if irq == 0
    then plain event_error
    else if irq == 6
    then plain event_error
    else if irq == 7
    then plain event_error
    else if irq == 8
    then plain event_error
    else if irq == 10
    then plain event_error
    else if irq == 11
    then plain event_error
    else if irq == 12
    then plain event_error
    else if irq == 13
    then plain event_error
    else if irq == 14
    then record { event = event_pagefault; cause = fault_cause errcode; ref = cr2 }
    else record { event = event_error; cause = errcode; ref = 0 }

-- Interrupts of devices are acknowledged before the switch.
pub acknowledge : ℕ → Cpu → Cpu
acknowledge irq c = if leb t_irq0 irq && ltb irq (t_irq0 + 32) then lapic_eoi c else c

-- The address space and the kernel stack of the context that is resumed.
pub resume : Context → Cpu → Cpu
resume ret_ctx c =
    if ret_ctx.cr3 == 0
    then c
    else record c { cr3 = ret_ctx.cr3; tss_ss0 = ksel seg_kdata; tss_esp0 = ret_ctx.esp0 }

-- `__am_irq_handle`: the context that `__am_iret` resumes, and the processor. The client's handler
-- returns no context for NULL, where the code panics.
pub irq_handle : (EventInfo → Context → Option Context) → TrapFrame → Cpu → Option (Context × Cpu)
irq_handle user_handler tf c =
    elim (user_handler (trap_event tf.irq tf.errcode c.cr2) (save_context tf c)) [
      | none ↦ none
      | some ret_ctx ↦ some (ret_ctx, resume ret_ctx (acknowledge tf.irq c))
    ]

-- `IRQS`: the vectors with a handler of their own, and their privilege levels.
abbrev pub irqs : List (ℕ × ℕ)
irqs =
    (0, dpl_kern)
    ∷ (1, dpl_kern)
    ∷ (2, dpl_kern)
    ∷ (3, dpl_kern)
    ∷ (4, dpl_kern)
    ∷ (5, dpl_kern)
    ∷ (6, dpl_kern)
    ∷ (7, dpl_kern)
    ∷ (8, dpl_kern)
    ∷ (9, dpl_kern)
    ∷ (10, dpl_kern)
    ∷ (11, dpl_kern)
    ∷ (12, dpl_kern)
    ∷ (13, dpl_kern)
    ∷ (14, dpl_kern)
    ∷ (15, dpl_kern)
    ∷ (16, dpl_kern)
    ∷ (19, dpl_kern)
    ∷ (31, dpl_kern)
    ∷ (32, dpl_kern)
    ∷ (33, dpl_kern)
    ∷ (34, dpl_kern)
    ∷ (35, dpl_kern)
    ∷ (36, dpl_kern)
    ∷ (37, dpl_kern)
    ∷ (38, dpl_kern)
    ∷ (39, dpl_kern)
    ∷ (40, dpl_kern)
    ∷ (41, dpl_kern)
    ∷ (42, dpl_kern)
    ∷ (43, dpl_kern)
    ∷ (44, dpl_kern)
    ∷ (45, dpl_kern)
    ∷ (46, dpl_kern)
    ∷ (47, dpl_kern)
    ∷ (128, dpl_user)
    ∷ (129, dpl_user)
    ∷ []

-- `idt`, with the addresses of the assembly entry points `__am_irqall` and `__am_irq##id`.
module _ (irqall : ℕ) (irq : ℕ → ℕ) where
  -- `IRQS(IDT_ENTRY)`
  pub set_entries : List (ℕ × ℕ) → (ℕ → GateDesc32) → ℕ → GateDesc32
  set_entries [] idt = idt
  set_entries ((id, dpl) ∷ rest) idt =
      set_entries rest (λ i. if i == id then gate32 sts_tg (ksel seg_kcode) (irq id) dpl else idt i)

  -- The table that cte_init fills in; the first loop sets all NR_IRQ = 256 entries.
  pub cte_idt : ℕ → GateDesc32
  unfolding set_entries
  cte_idt = set_entries irqs (λ i. gate32 sts_tg (ksel seg_kcode) irqall dpl_kern)

-- `(Context) { 0 }`
abbrev pub no_context : Context
no_context = record {
  cr3 = 0;
  ds = 0;
  eax = 0;
  ebx = 0;
  ecx = 0;
  edx = 0;
  esp0 = 0;
  esi = 0;
  edi = 0;
  ebp = 0;
  eip = 0;
  cs = 0;
  eflags = 0;
  esp = 0;
  ss3 = 0;
}

-- `kcontext`, with the address of `__am_kcontext_start`; the context is put at the returned address,
-- `sizeof(Context)` = 60 below the end of the stack.
pub kcontext : ℕ → ℕ → ℕ → ℕ → ℕ × Context
kcontext kcontext_start limit entry arg = (
  sub_size limit 60,
  record no_context {
    ds = ksel seg_kdata;
    cs = ksel seg_kcode;
    eip = kcontext_start;
    eflags = fl_if;
    esp = limit;
    eax = size arg;
    ebx = size entry;
  },
)

-- `ucontext` of am/src/x86/qemu/vme.c for a space with the given `ptr`, whose user area ends at
-- 0x8000_0000.
pub ucontext : ℕ → ℕ → ℕ → ℕ × Context
ucontext ptr limit entry = (
  sub_size limit 60,
  record no_context {
    cs = usel seg_ucode;
    ds = usel seg_udata;
    ss3 = usel seg_udata;
    eip = size entry;
    eflags = fl_if;
    esp = 0x8000_0000;
    esp0 = limit;
    cr3 = ptr;
  },
)
