-- ===== src/Native/Cte/Tests.antt =====
-- A user thread in a space of one page, its kernel stack, and a second space.
use openperf_abstract_machin.Am.{event_irq_timer, event_syscall, EventInfo}
use openperf_abstract_machin.Prelude.{
  ℕ, ◌≡◌, refl, arith, true, false, Option, none, some, [], ◌∷◌, ◌==◌, if◌then◌else◌,
}
use openperf_abstract_machin.Native.Vme.{Host, Vme, user_end, in_userspace}
use openperf_abstract_machin.Native.Vme.Lists.{HostLaws}
use openperf_abstract_machin.Native.Vme.Switch.{Shows}
use openperf_abstract_machin.Native.Cte.{
  sigsegv, sigvtalrm, Siginfo, Uc, AmCpu, Image, plain_event, is_error, is_irq, is_syscall,
  intr_sigmask, empty_mask, is_syscall_access, is_iret_access, is_iret, frame, resumed, store,
  signal_event, signal_safe, refused, setup_stack, sig_handler, enter, ucontext, irq_handle,
}
use openperf_abstract_machin.Native.Cte.Event.{Means, signal_event-Means}
use openperf_abstract_machin.Native.Cte.Trap.{
  Taken, FrameBelow, Trapped, taken, sig_handler-Trapped,
}
use openperf_abstract_machin.Native.Cte.Resume.{magic_call, sig_handler-irq_handle}
use openperf_abstract_machin.Native.Cte.Start.{ucontext-preempted}

abbrev HostState : Type 0
HostState = ℕ → Option (ℕ × ℕ)

abbrev shared_host : Host HostState
shared_host = record {
  mmap = λ va offset prot h. some (λ a. if va == a then some (offset, prot) else h a);
  munmap = λ va h. some (λ a. if va == a then none else h a);
}

abbrev shared_laws : HostLaws shared_host
shared_laws = record {
  pgsize = 4096;
  shows = λ h. h;
  maps = λ va offset prot h user page.
      ((λ a. if va == a then some (offset, prot) else h a), refl, λ a. refl);
  unmaps = λ va h user aligned. ((λ a. if va == a then none else h a), refl, λ a. refl);
}

-- The space at 0x1000 has one page; that at 0x3000 has none and is shown.
abbrev spaces : ℕ → Vme HostState ℕ ℕ
spaces current = record {
  va = λ q. 0x4000_0000;
  pa = λ q. 0x100_5000;
  next = λ q. 0;
  prot = λ q. 3;
  is_mapped = λ q. false;
  head = λ h. if h == 0x1000 then 0x2000 else 0;
  hash = λ h. 0;
  nr_page = λ h. 0;
  vme_enable = true;
  vm_head = current;
  host = λ a. none;
  free_pages = 7;
}

abbrev spaces_shown : Shows shared_host shared_laws (spaces 0x3000) []
spaces_shown = record { listed = refl; backed = tt; marked = tt; shown = λ a. refl }

abbrev image : Image
image = record {
  start = 0x1000;
  etext = 0x8000;
  sigprocmask = 0x7f00_0000;
  irq_entry = 0x1100;
  kcontext_start = 0x1200;
  context_size = 1104;
}

abbrev example_uc : Uc ℕ
example_uc = record {
  pc = 0x4000_0010;
  sp = 0xbfff_fff0;
  gpr1 = 5;
  gpr2 = 6;
  sigmask = empty_mask;
  others = 99;
}

abbrev machine_in : ℕ → AmCpu HostState ℕ ℕ ℕ
machine_in current = record {
  vme = spaces current;
  ksp = 0x8_0000;
  ev = plain_event event_irq_timer;
  contexts = λ a. record { ksp = 0; vm_head = 0; uc = example_uc };
  process_mask = empty_mask;
}

abbrev syscall_access : Siginfo
syscall_access = record { si_code = 2; si_addr = 0x10_0000 }

sig_handler-Trapped_example :
    (uc1 : Uc ℕ) × (m1 : AmCpu HostState ℕ ℕ ℕ) × (sig_handler image sigsegv syscall_access
        example_uc
        (machine_in 0x1000)
      ≡ some (uc1, m1))
    × Trapped image (plain_event event_syscall) example_uc (machine_in 0x1000) uc1 m1
unfolding is_iret is_iret_access is_syscall_access signal_event in_userspace
sig_handler-Trapped_example =
    sig_handler-Trapped image sigsegv syscall_access example_uc (machine_in 0x1000)
      (plain_event event_syscall) 0x8_0000 refl refl refl (omega arith) refl refl (omega arith)

signal_event-Means_run :
    Means
      (λ addr. in_userspace addr (spaces 0x1000))
      syscall_access
      sigsegv
      (signal_event sigsegv syscall_access (machine_in 0x1000))
signal_event-Means_run = signal_event-Means sigsegv syscall_access (machine_in 0x1000)

abbrev saved_at : ℕ
saved_at = 523176

-- The first thread waits in its system call while a second one, at 0x9_0000, gets a timer signal.
abbrev waiting : AmCpu HostState ℕ ℕ ℕ
waiting =
    let first = (taken image (plain_event event_syscall) example_uc (machine_in 0x1000)).1 in
    record (enter saved_at first) { vme = spaces 0x3000; ev = plain_event event_irq_timer }

abbrev back_to : ℕ → EventInfo → ℕ → AmCpu HostState ℕ ℕ ℕ → Option (ℕ × AmCpu HostState ℕ ℕ ℕ)
back_to c ev d m = some (c, m)

abbrev magic_uc : ℕ → Uc ℕ
magic_uc c = record example_uc { gpr1 = c; pc = 0x10_0008 }

sig_handler-irq_handle_example :
    (t1 t2 : AmCpu HostState ℕ ℕ ℕ) × (sig_handler image sigsegv syscall_access example_uc
        (machine_in 0x1000)
      ≡ some (taken image (plain_event event_syscall) example_uc (machine_in 0x1000)))
    × (irq_handle shared_host 2 (back_to saved_at) 0x9_0000 waiting
        ≡ some
            ((taken image (plain_event event_syscall) example_uc (machine_in 0x1000)).0.gpr1, t1))
    × (sig_handler image sigsegv magic_call (magic_uc saved_at) t1
        ≡ some (resumed event_syscall example_uc, t2))
    × (t2.ksp ≡ 0x8_0000)
    × (t2.vme.vm_head ≡ 0x1000)
    × Shows shared_host shared_laws t2.vme (0x2000 ∷ [])
unfolding is_iret is_iret_access is_syscall_access signal_event in_userspace frame resumed store
    enter setup_stack refused signal_safe is_irq is_error intr_sigmask is_syscall
sig_handler-irq_handle_example =
    sig_handler-irq_handle shared_host 2 (back_to saved_at) shared_laws image sigsegv syscall_access
      example_uc (magic_uc saved_at) (machine_in 0x1000) waiting (enter 0x9_0000 waiting)
      (plain_event event_syscall) 0x9_0000 [] (0x2000 ∷ []) refl refl refl (omega arith) refl refl
      refl refl spaces_shown (refl, omega arith, refl, refl) (omega arith) (omega arith)
      (omega arith) refl

abbrev new_thread : AmCpu HostState ℕ ℕ ℕ
new_thread = (ucontext image example_uc 0x1000 0x8_0000 0x4000_0000 (machine_in 0x3000)).1

ucontext-preempted_example :
    (t1 t2 t3 : AmCpu HostState ℕ ℕ ℕ) × (uc4 : Uc ℕ) × (irq_handle shared_host 2
        (back_to 523184)
        0x9_0000
        new_thread
      ≡ some (523184, t1))
    × (sig_handler image sigsegv magic_call (magic_uc 523184) t1
        ≡ some (record example_uc { pc = 0x4000_0000; sp = user_end; sigmask = empty_mask }, t2))
    × Shows shared_host shared_laws t2.vme (0x2000 ∷ [])
    × (sig_handler image sigvtalrm magic_call example_uc t2 ≡ some (uc4, t3))
    × Taken image (plain_event event_irq_timer) example_uc t2 uc4 t3
    × FrameBelow 1104 0x8_0000 uc4.sp
unfolding ucontext store enter is_error
ucontext-preempted_example =
    ucontext-preempted shared_host 2 shared_laws image (back_to 523184) example_uc (magic_uc 523184)
      example_uc 0x1000 0x8_0000 0x4000_0000 523184 0x9_0000 (machine_in 0x3000) new_thread
      (enter 0x9_0000 new_thread) magic_call [] (0x2000 ∷ []) refl (omega arith) refl refl refl refl
      spaces_shown (refl, omega arith, refl, refl) (omega arith) (omega arith) (omega arith) refl
      (omega arith) refl refl (omega arith) (omega arith) (omega arith) (omega arith)
