-- ===== src/Native/Cte/Start.antt =====
-- ucontext of am/src/native/vme.c and kcontext of cte.c: how a new thread starts.
use mathlib.Core.Path.{subst}
use openperf_abstract_machin.Am.{EventKind, event_irq_timer, EventInfo}
use openperf_abstract_machin.Prelude.{
  ℕ, ◌+◌, ◌%◌, ◌^◌, ◌≤◌, ◌<◌, ◌≡◌, ◌≢◌, refl, sym, ap, ◌∙◌, arith, true, false, Option, some, List,
  length, if◌then◌else◌, eq_false,
}
use openperf_abstract_machin.Native.Vme.{Host, Vme, user_start, user_end, in_userspace}
use openperf_abstract_machin.Native.Vme.Lists.{HostLaws, Listed, Backed, first_node}
use openperf_abstract_machin.Native.Vme.Switch.{Shows}
use openperf_abstract_machin.Native.Cte.{
  Signal, sigsegv, sigvtalrm, plain_event, frame, Siginfo, Uc, Context, AmCpu, Image, is_error,
  signal_safe, is_iret, signal_event, sig_handler, refused, store, empty_mask, ucontext, enter,
  irq_handle,
}
use openperf_abstract_machin.Native.Cte.Trap.{
  Taken, FrameBelow, frame_lem, taken, sig_handler-run, setup_stack-Taken,
}
use openperf_abstract_machin.Native.Cte.Resume.{magic_call, resume_lem}

abbrev pub user_context : {R : Type 0} → Uc R → ℕ → ℕ → ℕ → Context R
user_context uc_example ptr kstack_end entry = record {
  ksp = kstack_end;
  vm_head = ptr;
  uc = record uc_example { pc = entry; sp = user_end; sigmask = empty_mask };
}

module _ {H T A : Type 0} where
  in_userspace-true :
      (addr : ℕ) (v : Vme H T A)
      → user_start ≤ addr
      → addr < user_end
      → v.vm_head ≢ 0
      → v.vme_enable ≡ true
      → in_userspace addr v ≡ true
  unfolding in_userspace
  in_userspace-true addr v low high space enabled = rw (enabled, eq_false space) (ground arith)

timer-no_iret : (info : Siginfo) → is_iret sigvtalrm info ≡ false
unfolding is_iret
timer-no_iret info = refl

module _ {H T A R : Type 0} where
  ucontext_lem :
      (image : Image) (uc_example : Uc R) (ptr kstack_end entry : ℕ) (m : AmCpu H T A R)
      → (ucontext image uc_example ptr kstack_end entry m).1.contexts
          (ucontext image uc_example ptr kstack_end entry m).0
        ≡ user_context uc_example ptr kstack_end entry
  unfolding ucontext store
  ucontext_lem image uc_example ptr kstack_end entry m = ground arith

  user-accepted :
      (image : Image) (uc : Uc R) (m : AmCpu H T A R) (k : EventKind)
      → in_userspace uc.pc m.vme ≡ true
      → refused image k uc m ≡ false
  unfolding refused signal_safe
  user-accepted image uc m k user = rw (user) (ground arith)

  -- A signal in user code finds the kernel stack.
  pub user-trapped :
      (image : Image) (sig : Signal) (info : Siginfo) (uc : Uc R) (m : AmCpu H T A R)
      (ev : EventInfo)
      → in_userspace uc.pc m.vme ≡ true
      → is_iret sig info ≡ false
      → signal_event sig info m ≡ some ev
      → m.ksp < 2 ^ 64
      → m.ksp % 8 ≡ 0
      → image.context_size % 8 ≡ 0
      → image.context_size + 16 ≤ m.ksp
      → (uc1 : Uc R) × (m1 : AmCpu H T A R) × (sig_handler image sig info uc m ≡ some (uc1, m1))
        × Taken image ev uc m uc1 m1
        × FrameBelow image.context_size m.ksp uc1.sp
  user-trapped image sig info uc m ev user no_iret event bound ksp8 size8 room =
      let below = frame_lem image m.ksp bound ksp8 size8 room in
      let on_kernel : (if in_userspace uc.pc m.vme then m.ksp else uc.sp) ≡ m.ksp =
        rw (user) refl in
      let done =
        setup_stack-Taken image ev uc m (user-accepted image uc m ev.event user)
          (subst (λ t. FrameBelow image.context_size t (frame image t)) (sym on_kernel) below) in
      (
        (taken image ev uc m).0,
        (taken image ev uc m).1,
        sig_handler-run image sig info uc m ev no_iret event,
        done,
        subst (λ t. FrameBelow image.context_size t (taken image ev uc m).0.sp) on_kernel
            done.stack,
      )

  timer-event :
      (info : Siginfo) (m : AmCpu H T A R)
      → signal_event sigvtalrm info m ≡ some (plain_event event_irq_timer)
  unfolding signal_event
  timer-event info m = refl

  module _ (ops : Host H) (fuel : ℕ) (laws : HostLaws ops) (image : Image)
      (handler : EventInfo → ℕ → AmCpu H T A R → Option (ℕ × AmCpu H T A R)) where
    -- A thread that ucontext makes, whose context is as ucontext left it when the handler of a
    -- trap returns it, starts: on a host whose calls on aligned user pages with an offset in the
    -- physical memory succeed, and that shows what the list of the current space says, with a list
    -- of aligned user pages in the physical memory for the thread's space, with more fuel than
    -- either list is long, the magic call resumes it at its entry, with the end of the user space as
    -- its stack and with no signal blocked, and the host shows what the list of its space says. If a
    -- timer signal then interrupts user code, it is not missed: irq_handle is to run on a context
    -- that is saved below the end of the thread's kernel stack, if that is a multiple of 8 with room
    -- for the context.
    pub ucontext-preempted :
        (uc_example uc2 uc3 : Uc R) (ptr kstack_end entry c d : ℕ) (m m2 t : AmCpu H T A R)
        (info : Siginfo) (l l' : List ℕ)
        → c ≡ (ucontext image uc_example ptr kstack_end entry m).0
        → c ≢ 0
        → is_error m2.ev.event ≡ false
        → handler m2.ev d (enter d m2) ≡ some (c, t)
        → t.contexts c ≡ (ucontext image uc_example ptr kstack_end entry m).1.contexts c
        → t.vme.vme_enable ≡ true
        → Shows ops laws t.vme l
        → Listed t.vme l' (first_node t.vme ptr)
        → Backed laws.pgsize t.vme l'
        → length l < fuel
        → length l' < fuel
        → uc2.gpr1 ≡ c
        → kstack_end < 2 ^ 64
        → kstack_end % 8 ≡ 0
        → image.context_size % 8 ≡ 0
        → image.context_size + 16 ≤ kstack_end
        → user_start ≤ uc3.pc
        → uc3.pc < user_end
        → ptr ≢ 0
        → (t1 t2 t3 : AmCpu H T A R) × (uc4 : Uc R) × (irq_handle ops fuel handler d m2
            ≡ some (c, t1))
          × (sig_handler image sigsegv magic_call uc2 t1
              ≡ some (record uc_example { pc = entry; sp = user_end; sigmask = empty_mask }, t2))
          × Shows ops laws t2.vme l'
          × (sig_handler image sigvtalrm info uc3 t2 ≡ some (uc4, t3))
          × Taken image (plain_event event_irq_timer) uc3 t2 uc4 t3
          × FrameBelow image.context_size kstack_end uc4.sp
    ucontext-preempted uc_example uc2 uc3 ptr kstack_end entry c d m m2 t info l l' is_c ne fine run
          same enabled shows listed backed enough enough' call bound ksp8 size8 room low high
          space =
        let ctx : t.contexts c ≡ user_context uc_example ptr kstack_end entry =
          same
          ∙ ap (ucontext image uc_example ptr kstack_end entry m).1.contexts is_c
          ∙ ucontext_lem image uc_example ptr kstack_end entry m in
        let (t1, t2, handled, returned, ksp, head, flag, shown) =
          resume_lem ops fuel handler laws image uc2 m2 t
            (user_context uc_example ptr kstack_end entry) c d l l' ne fine run ctx enabled shows
            listed backed enough enough' call in
        let (uc4, t3, trapped, done, below) =
          user-trapped image sigvtalrm info uc3 t2 (plain_event event_irq_timer)
            (in_userspace-true uc3.pc t2.vme low high (λ e. space (sym head ∙ e)) flag)
            (timer-no_iret info) (timer-event info t2) (subst (λ k. k < 2 ^ 64) (sym ksp) bound)
            (ap (λ k. k % 8) ksp ∙ ksp8) size8
            (subst (λ k. image.context_size + 16 ≤ k) (sym ksp) room) in
        (
          t1,
          t2,
          t3,
          uc4,
          handled,
          returned,
          shown,
          trapped,
          done,
          subst (λ k. FrameBelow image.context_size k uc4.sp) ksp below,
        )
