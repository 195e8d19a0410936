-- ===== src/Native/Cte/Event.antt =====
-- sig_handler of am/src/native/cte.c: what a signal is reported as.
use native.Mathlib.Decide.{ℕ_discrete}
use openperf_abstract_machin.Am.{
  event_yield, event_syscall, event_pagefault, event_irq_timer, event_irq_iodev, EventInfo,
}
use openperf_abstract_machin.Prelude.{
  ℕ, ◌≡◌, ◌≢◌, arith, inl, inr, Bool, true, false, Bool-cases, Option, none, some, if◌then◌else◌,
  eq_true, eq_false,
}
use openperf_abstract_machin.Native.Vme.{Vme, in_userspace}
use openperf_abstract_machin.Native.Cte.{
  Signal, sigusr1, sigusr2, sigsegv, sigvtalrm, other_signal, Siginfo, AmCpu, plain_event,
  error_event, is_syscall_access, page_fault, signal_event,
}

-- What a signal stands for, where user code has the addresses for which `user` is true.
pub data Means (user : ℕ → Bool) (info : Siginfo) : Signal → Option EventInfo → Type 0 where
  device : Means user info sigusr1 (some (plain_event event_irq_iodev))
  yields : Means user info sigusr2 (some (plain_event event_yield))
  timer : Means user info sigvtalrm (some (plain_event event_irq_timer))
  syscall :
      info.si_code ≡ 2
      → info.si_addr ≡ 0x10_0000
      → Means user info sigsegv (some (plain_event event_syscall))
  missing_page :
      user info.si_addr ≡ true
      → info.si_code ≡ 1
      → Means user info sigsegv
          (some (record { event = event_pagefault; cause = 1; ref = info.si_addr }))
  denied_page :
      user info.si_addr ≡ true
      → info.si_code ≡ 2
      → Means user info sigsegv
          (some (record { event = event_pagefault; cause = 2; ref = info.si_addr }))
  strange_fault :
      user info.si_addr ≡ true → info.si_code ≢ 1 → info.si_code ≢ 2 → Means user info sigsegv none
  kernel_fault :
      user info.si_addr ≡ false
      → (info.si_code ≡ 2 → info.si_addr ≢ 0x10_0000)
      → Means user info sigsegv (some (error_event info))
  unknown : (n : ℕ) → Means user info (other_signal n) (some (error_event info))

module _ {H T A : Type 0} where
  in_userspace-trap_page :
      (addr : ℕ) (v : Vme H T A) → addr ≡ 0x10_0000 → in_userspace addr v ≡ false
  unfolding in_userspace
  in_userspace-trap_page addr v e = ground arith

module _ (user : ℕ → Bool) (info : Siginfo) where
  page_fault-Means : user info.si_addr ≡ true → Means user info sigsegv (page_fault info)
  unfolding page_fault
  page_fault-Means u = elim (ℕ_discrete info.si_code 1) [
    | yes e ↦ rw (eq_true e) (missing_page u e)
    | no ne ↦ elim (ℕ_discrete info.si_code 2) [
      | yes e ↦ rw (eq_false ne, eq_true e) (denied_page u e)
      | no ne2 ↦ rw (eq_false ne, eq_false ne2) (strange_fault u ne ne2)
    ]
  ]

  segv_lem :
      (info.si_addr ≡ 0x10_0000 → user info.si_addr ≡ false)
      → Means user info sigsegv (
          if user info.si_addr
          then if is_syscall_access info then none else page_fault info
          else if is_syscall_access info
          then some (plain_event event_syscall)
          else some (error_event info))
  unfolding is_syscall_access
  segv_lem trap = elim (ℕ_discrete info.si_code 2) [
    | yes e ↦ elim (ℕ_discrete info.si_addr 0x10_0000) [
      | yes f ↦ rw (trap f, eq_true e, eq_true f) (syscall e f)
      | no ne ↦ elim (Bool-cases (user info.si_addr)) [
        | inl u ↦ rw (u, eq_true e, eq_false ne) (page_fault-Means u)
        | inr u ↦ rw (u, eq_true e, eq_false ne) (kernel_fault u (λ q. ne))
      ]
    ]
    | no ne ↦ elim (Bool-cases (user info.si_addr)) [
      | inl u ↦ rw (u, eq_false ne) (page_fault-Means u)
      | inr u ↦ rw (u, eq_false ne) (kernel_fault u (λ q. absurd (ne q)))
    ]
  ]

-- A signal is reported as what it stands for, a case of it for each signal and each kind of fault:
-- an access that is denied to the trap page's first byte is a system call; a fault on a user
-- address is a page fault, with MMAP_READ if the page is not mapped and MMAP_WRITE if the access
-- is denied, and fails the assertion with any other code; every other fault is an error.
pub signal_event-Means :
    {H T A R : Type 0} (sig : Signal) (info : Siginfo) (m : AmCpu H T A R)
    → Means (λ addr. in_userspace addr m.vme) info sig (signal_event sig info m)
unfolding signal_event
signal_event-Means sigusr1 info m = device
signal_event-Means sigusr2 info m = yields
signal_event-Means sigvtalrm info m = timer
signal_event-Means (other_signal n) info m = unknown n
signal_event-Means sigsegv info m =
    segv_lem (λ addr. in_userspace addr m.vme) info (in_userspace-trap_page info.si_addr m.vme)
