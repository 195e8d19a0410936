-- ===== src/Native/Cte/Trap.antt =====
-- setup_stack, irq_handle and iret of am/src/native/cte.c: a trap from the signal to the return.
use mathlib.Core.Path.{subst}
use openperf_abstract_machin.Am.{event_error, EventInfo}
use openperf_abstract_machin.Prelude.{
  ℕ, ◌+◌, ◌%◌, ◌^◌, ◌≤◌, ◌<◌, ◌≡◌, ◌≢◌, refl, ap, ◌∙◌, arith, inl, inr, true, false, Bool-cases,
  some, if◌then◌else◌,
}
use openperf_abstract_machin.Native.Vme.{in_userspace}
use openperf_abstract_machin.Native.Cte.{
  Signal, sigusr1, sigsegv, sigvtalrm, sigusr2, other_signal, Siginfo, Uc, AmCpu, Image,
  plain_event, is_irq, signal_safe, intr_sigmask, frame, resumed, signal_event, refused,
  setup_stack, store, is_iret, sig_handler,
}

-- A frame below `top`: the context fits, and the function called on it finds its stack as the
-- x86-64 conventions want it.
pub record FrameBelow (size top c : ℕ) : Type 0 where
  pub fits : c + size ≤ top
  pub close : top ≤ c + size + 8
  pub aligned : (c + 8) % 16 ≡ 0

pub frame_lem :
    (image : Image) (top : ℕ)
    → top < 2 ^ 64
    → top % 8 ≡ 0
    → image.context_size % 8 ≡ 0
    → image.context_size + 16 ≤ top
    → FrameBelow image.context_size top (frame image top)
unfolding frame
frame_lem image top bound top8 size8 room = record {
  fits = ground arith;
  close = ground arith;
  aligned = ground arith;
}

pub record Taken {H T A R : Type 0} (image : Image) (ev : EventInfo) (uc : Uc R) (m : AmCpu H T A R)
    (uc1 : Uc R) (m1 : AmCpu H T A R) : Type 0 where
  pub at_handler : uc1.pc ≡ image.irq_entry
  pub argument : uc1.gpr1 ≡ uc1.sp
  pub stack :
      FrameBelow image.context_size (if in_userspace uc.pc m.vme then m.ksp else uc.sp) uc1.sp
  pub timer_masked : uc1.sigmask sigvtalrm ≡ true
  pub device_masked : uc1.sigmask sigusr1 ≡ true
  pub reported : m1.ev ≡ ev
  pub saved : (m1.contexts uc1.gpr1).uc ≡ resumed ev.event uc
  pub kept : (a : ℕ) → a ≢ uc1.gpr1 → m1.contexts a ≡ m.contexts a
  pub same_space : m1.vme ≡ m.vme
  pub same_ksp : m1.ksp ≡ m.ksp

module _ {H T A R : Type 0} (image : Image) where
  -- The state when the signal handler returns, if the trap is not refused.
  abbrev pub taken : EventInfo → Uc R → AmCpu H T A R → Uc R × AmCpu H T A R
  taken ev uc m = setup_stack image ev.event uc (record m { ev = ev })

  signal_event-ev :
      (sig : Signal) (info : Siginfo) (m : AmCpu H T A R) (ev : EventInfo)
      → signal_event sig info (record m { ev = ev }) ≡ signal_event sig info m
  unfolding signal_event
  signal_event-ev sigusr1 info m ev = refl
  signal_event-ev sigusr2 info m ev = refl
  signal_event-ev sigsegv info m ev = refl
  signal_event-ev sigvtalrm info m ev = refl
  signal_event-ev (other_signal n) info m ev = refl

  pub sig_handler-run :
      (sig : Signal) (info : Siginfo) (uc : Uc R) (m : AmCpu H T A R) (ev : EventInfo)
      → is_iret sig info ≡ false
      → signal_event sig info m ≡ some ev
      → sig_handler image sig info uc m ≡ some (taken ev uc m)
  unfolding sig_handler
  sig_handler-run sig info uc m ev no_iret event =
      rw (signal_event-ev sig info m (plain_event event_error), event, no_iret) refl

  pub setup_stack-Taken :
      (ev : EventInfo) (uc : Uc R) (m : AmCpu H T A R)
      → refused image ev.event uc m ≡ false
      → FrameBelow image.context_size
          (if in_userspace uc.pc m.vme then m.ksp else uc.sp)
          (frame image (if in_userspace uc.pc m.vme then m.ksp else uc.sp))
      → Taken image ev uc m (taken ev uc m).0 (taken ev uc m).1
  unfolding setup_stack refused store intr_sigmask is_irq signal_safe frame resumed
  setup_stack-Taken ev uc m accepted stack = rw (accepted) (record {
    at_handler = refl;
    argument = refl;
    stack = stack;
    timer_masked = refl;
    device_masked = refl;
    reported = refl;
    saved = ground arith;
    kept = λ a ne. ground arith;
    same_space = refl;
    same_ksp = refl;
  })

  setup_stack-refused :
      (ev : EventInfo) (uc : Uc R) (m : AmCpu H T A R)
      → refused image ev.event uc m ≡ true
      → taken ev uc m ≡ (uc, record m { ev = ev })
  unfolding setup_stack refused store intr_sigmask is_irq signal_safe frame resumed
  setup_stack-refused ev uc m h = rw (h) refl

  -- What happens to a signal with an event.
  pub data Trapped (ev : EventInfo) (uc : Uc R) (m : AmCpu H T A R)
      : Uc R → AmCpu H T A R → Type 0 where
    missed : refused image ev.event uc m ≡ true → Trapped ev uc m uc (record m { ev = ev })
    trapped :
        (uc1 : Uc R) (m1 : AmCpu H T A R)
        → refused image ev.event uc m ≡ false
        → Taken image ev uc m uc1 m1
        → Trapped ev uc m uc1 m1

  -- A signal with an event, that is not the return from a trap, on a stack (the current one, or
  -- the kernel stack if user code is interrupted) that is aligned to 8 bytes and has room: if it
  -- is a timer or device signal that interrupts code which is not safe, nothing changes but the
  -- event of the processor. Otherwise irq_handle is to run, on the context that is saved below the
  -- stack, aligned as calls need it, with the signals of the timer and the devices blocked; the
  -- context holds the interrupted registers, behind the call if it is a system call, and no other
  -- context, nor the space or the kernel stack of the processor, is changed.
  pub sig_handler-Trapped :
      (sig : Signal) (info : Siginfo) (uc : Uc R) (m : AmCpu H T A R) (ev : EventInfo) (top : ℕ)
      → is_iret sig info ≡ false
      → signal_event sig info m ≡ some ev
      → top ≡ (if in_userspace uc.pc m.vme then m.ksp else uc.sp)
      → top < 2 ^ 64
      → top % 8 ≡ 0
      → image.context_size % 8 ≡ 0
      → image.context_size + 16 ≤ top
      → (uc1 : Uc R) × (m1 : AmCpu H T A R) × (sig_handler image sig info uc m ≡ some (uc1, m1))
        × Trapped ev uc m uc1 m1
  sig_handler-Trapped sig info uc m ev top no_iret event is_top bound top8 size8 room =
      elim (Bool-cases (refused image ev.event uc m)) [
        | inl h ↦ (
          uc,
          record m { ev = ev },
          sig_handler-run sig info uc m ev no_iret event ∙ ap some (setup_stack-refused ev uc m h),
          missed h,
        )
        | inr h ↦ (
          (taken ev uc m).0,
          (taken ev uc m).1,
          sig_handler-run sig info uc m ev no_iret event,
          trapped (taken ev uc m).0 (taken ev uc m).1 h (
              setup_stack-Taken ev uc m h (
                subst (λ t. FrameBelow image.context_size t (frame image t)) is_top
                  (frame_lem image top bound top8 size8 room))),
        )
      ]
