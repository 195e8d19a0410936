-- ===== src/Native/Cte.antt =====
-- am/src/native/cte.c, with ucontext of vme.c and the set of signals of platform.c: traps as signals
-- of a Linux process. A set of signals is a function, and the contexts in memory are a function of
-- their address, so that two of them never overlap. What the C library and the linker decide (the
-- size of a context, addresses of functions) is the record `Image`; the host's calls that report no
-- error are left out. __am_pmem_protect and __am_pmem_unprotect do nothing in the source.
pub mod Event
pub mod Trap
pub mod Resume
pub mod Start
mod Tests
use openperf_abstract_machin.Prelude.{
  ℕ, ◌+◌, ◌-◌, ◌*◌, ◌%◌, ◌^◌, Bool, true, false, not, ◌&&◌, ◌||◌, Option, none, some, ◌==◌,
  if◌then◌else◌, ◌>>=◌,
}
use openperf_abstract_machin.Klib.Stdlib.{in_range}
use openperf_abstract_machin.Am.{
  EventKind, event_null, event_yield, event_syscall, event_pagefault, event_error, event_irq_timer,
  event_irq_iodev, EventInfo,
}
use openperf_abstract_machin.Native.Vme.{Host, Vme, user_end, in_userspace, am_switch}

pub data Signal : Type 0 where
  sigusr1 : Signal
  sigusr2 : Signal
  sigsegv : Signal
  sigvtalrm : Signal
  other_signal : ℕ → Signal

pub record Siginfo : Type 0 where
  pub si_code : ℕ
  pub si_addr : ℕ

abbrev pub segv_maperr : ℕ
segv_maperr = 1

abbrev pub segv_accerr : ℕ
segv_accerr = 2

-- `ucontext_t`: AM_REG_PC, AM_REG_SP, GPR1, GPR2, the mask, and all other registers.
pub record Uc (R : Type 0) : Type 0 where
  pub pc : ℕ
  pub sp : ℕ
  pub gpr1 : ℕ
  pub gpr2 : ℕ
  pub sigmask : Signal → Bool
  pub others : R

pub record Context (R : Type 0) : Type 0 where
  pub ksp : ℕ
  pub vm_head : ℕ
  pub uc : Uc R

-- `thiscpu` (its `vm_head` is that of `vme`), the contexts in memory, the mask of the process.
pub record AmCpu (H T A R : Type 0) : Type 0 where
  pub vme : Vme H T A
  pub ksp : ℕ
  pub ev : EventInfo
  pub contexts : ℕ → Context R
  pub process_mask : Signal → Bool

pub record Image : Type 0 where
  pub start : ℕ
  pub etext : ℕ
  pub sigprocmask : ℕ
  pub irq_entry : ℕ
  pub kcontext_start : ℕ
  pub context_size : ℕ

abbrev pub plain_event : EventKind → EventInfo
plain_event k = record { event = k; cause = 0; ref = 0 }

pub is_error : EventKind → Bool
is_error event_error = true
is_error _ = false

pub is_syscall : EventKind → Bool
is_syscall event_syscall = true
is_syscall _ = false

pub is_irq : EventKind → Bool
is_irq event_irq_iodev = true
is_irq event_irq_timer = true
is_irq _ = false

-- `__am_intr_sigmask`, after init_platform.
pub intr_sigmask : Signal → Bool
intr_sigmask sigvtalrm = true
intr_sigmask sigusr1 = true
intr_sigmask _ = false

-- `__am_is_sigmask_sti`
pub is_sigmask_sti : (Signal → Bool) → Bool
is_sigmask_sti s = not (s sigvtalrm)

-- `uc_example`, whose mask save_example_context replaces.
abbrev pub empty_mask : Signal → Bool
empty_mask sig = false

-- The accesses to the trap page that stand for a system call and for a return.
pub is_syscall_access : Siginfo → Bool
is_syscall_access info = info.si_code == segv_accerr && info.si_addr == 0x10_0000

pub is_iret_access : Siginfo → Bool
is_iret_access info = info.si_code == segv_accerr && info.si_addr == 0x10_0008

pub is_iret : Signal → Siginfo → Bool
is_iret sigsegv info = is_iret_access info
is_iret _ info = false

pub error_event : Siginfo → EventInfo
error_event info = record { event = event_error; cause = info.si_code; ref = info.si_addr }

-- MMAP_READ for a page that is not mapped, MMAP_WRITE for one that is.
pub page_fault : Siginfo → Option EventInfo
page_fault info =
    if info.si_code == segv_maperr
    then some (record { event = event_pagefault; cause = 1; ref = info.si_addr })
    else if info.si_code == segv_accerr
    then some (record { event = event_pagefault; cause = 2; ref = info.si_addr })
    else none

-- `AM_REG_SP - sizeof(Context)`, so that `sp + 8` is a multiple of 16 if the stack is one of 8.
pub frame : Image → ℕ → ℕ
frame image top =
    let sp = (top + 2 ^ 64 - image.context_size) % 2 ^ 64 in
    if (sp + 8) % 2 ^ 64 % 16 == 0 then sp else (sp + 2 ^ 64 - 8) % 2 ^ 64

-- What the interrupted code goes on with: after a system call, behind the call.
pub resumed : {R : Type 0} → EventKind → Uc R → Uc R
resumed event uc = record uc { pc = if is_syscall event then (uc.pc + 7) % 2 ^ 64 else uc.pc }

module _ {H T A R : Type 0} where
  pub store : ℕ → Context R → AmCpu H T A R → AmCpu H T A R
  store c ctx m = record m { contexts = λ a. if a == c then ctx else m.contexts a }

  -- The event of a signal; a failed assertion is `none`.
  pub signal_event : Signal → Siginfo → AmCpu H T A R → Option EventInfo
  signal_event sigusr1 info m = some (plain_event event_irq_iodev)
  signal_event sigusr2 info m = some (plain_event event_yield)
  signal_event sigvtalrm info m = some (plain_event event_irq_timer)
  signal_event sigsegv info m =
      if in_userspace info.si_addr m.vme
      then if is_syscall_access info then none else page_fault info
      else if is_syscall_access info
      then some (plain_event event_syscall)
      else some (error_event info)
  signal_event (other_signal n) info m = some (error_event info)

  pub signal_safe : Image → ℕ → AmCpu H T A R → Bool
  signal_safe image pc m =
      in_range pc image.start image.etext
      || in_userspace pc m.vme
      || (pc == (image.sigprocmask + 13) % 2 ^ 64)

  pub refused : Image → EventKind → Uc R → AmCpu H T A R → Bool
  refused image event uc m = is_irq event && not (signal_safe image uc.pc m)

  pub setup_stack : Image → EventKind → Uc R → AmCpu H T A R → Uc R × AmCpu H T A R
  setup_stack image event uc m =
      let saved = resumed event uc in
      let c = frame image (if in_userspace uc.pc m.vme then m.ksp else uc.sp) in
      if refused image event uc m then (uc, m) else (
        record saved { sigmask = intr_sigmask; gpr1 = c; pc = image.irq_entry; sp = c },
        store c (record (m.contexts c) { uc = saved }) m,
      )

  pub iret : Uc R → AmCpu H T A R → Uc R × AmCpu H T A R
  iret uc m = ((m.contexts uc.gpr1).uc, record m { ksp = (m.contexts uc.gpr1).ksp })

  pub sig_handler : Image → Signal → Siginfo → Uc R → AmCpu H T A R → Option (Uc R × AmCpu H T A R)
  sig_handler image sig info uc m =
      let started = record m { ev = plain_event event_error } in
      let handled : Option (Uc R × AmCpu H T A R) =
        (signal_event sig info started >>= λ ev.
        some (setup_stack image ev.event uc (record m { ev = ev }))) in
      if is_iret sig info then some (iret uc started) else handled

  -- The writes to the context at the start of irq_handle.
  pub enter : ℕ → AmCpu H T A R → AmCpu H T A R
  enter c m = store c (record (m.contexts c) { vm_head = m.vme.vm_head; ksp = m.ksp }) m

  -- `kcontext`: the entry and its argument are passed in GPR2 and GPR1; `ksp` is not written.
  pub kcontext : Image → Uc R → ℕ → ℕ → ℕ → AmCpu H T A R → ℕ × AmCpu H T A R
  kcontext image uc_example kstack_end entry arg m =
      let c = (kstack_end + 2 ^ 64 - image.context_size) % 2 ^ 64 in
      (
        c,
        store c
            (record {
              ksp = (m.contexts c).ksp;
              vm_head = 0;
              uc = record uc_example {
                pc = image.kcontext_start;
                sp = kstack_end;
                sigmask = empty_mask;
                gpr1 = arg;
                gpr2 = entry;
              };
            })
            m,
      )

  pub ucontext : Image → Uc R → ℕ → ℕ → ℕ → AmCpu H T A R → ℕ × AmCpu H T A R
  ucontext image uc_example ptr kstack_end entry m =
      let c = (kstack_end + 2 ^ 64 - image.context_size) % 2 ^ 64 in
      (
        c,
        store c
            (record {
              ksp = kstack_end;
              vm_head = ptr;
              uc = record uc_example { pc = entry; sp = user_end; sigmask = empty_mask };
            })
            m,
      )

  pub ienabled : AmCpu H T A R → Bool
  ienabled m = is_sigmask_sti m.process_mask

  -- SIG_UNBLOCK and SIG_BLOCK.
  pub iset : Bool → AmCpu H T A R → AmCpu H T A R
  iset enable m = record m {
    process_mask = λ sig.
        if enable
        then m.process_mask sig && not (intr_sigmask sig)
        else m.process_mask sig || intr_sigmask sig;
  }

module _ {H T A R : Type 0} (ops : Host H) (fuel : ℕ)
    (handler : EventInfo → ℕ → AmCpu H T A R → Option (ℕ × AmCpu H T A R)) where
  -- The context that the magic call gets in GPR1; a failed assertion is `none`.
  pub irq_handle : ℕ → AmCpu H T A R → Option (ℕ × AmCpu H T A R)
  irq_handle c m =
      let m1 = enter c m in
      let handled : Option (ℕ × AmCpu H T A R) = (do
        r ← handler m1.ev c m1
        let next : Option (Vme H T A) = am_switch ops fuel (r.1.contexts r.0).vm_head r.1.vme
        v ← if r.0 == 0 then none else next
        some (r.0, record r.1 { vme = v })) in
      if is_error m1.ev.event then none else handled
