-- ===== src/Native/Cte/Resume.antt =====
-- irq_handle and iret of am/src/native/cte.c: from the handler back to the interrupted code.
use openperf_abstract_machin.Am.{event_error, EventInfo}
use openperf_abstract_machin.Prelude.{
  ℕ, ◌<◌, ◌≡◌, ◌≢◌, refl, ap, ◌∙◌, arith, true, false, Option, some, List, length, eq_false,
}
use openperf_abstract_machin.Native.Vme.{Host, Vme, am_switch}
use openperf_abstract_machin.Native.Vme.Lists.{HostLaws, Listed, Backed, first_node}
use openperf_abstract_machin.Native.Vme.Switch.{Shows, am_switch-entered}
use openperf_abstract_machin.Native.Cte.{
  Signal, sigsegv, Siginfo, Uc, Context, AmCpu, Image, plain_event, is_error, is_irq, signal_safe,
  frame, intr_sigmask, resumed, signal_event, refused, setup_stack, store, iret, is_iret,
  is_iret_access, sig_handler, enter, irq_handle,
}
use openperf_abstract_machin.Native.Cte.Trap.{taken, sig_handler-run}

-- The access that p(c) in irq_handle makes.
abbrev pub magic_call : Siginfo
magic_call = record { si_code = 2; si_addr = 0x10_0008 }

module _ {H T A R : Type 0} where
  sig_handler-magic :
      (image : Image) (uc : Uc R) (m : AmCpu H T A R)
      → sig_handler image sigsegv magic_call uc m
        ≡ some (iret uc (record m { ev = plain_event event_error }))
  unfolding sig_handler is_iret is_iret_access
  sig_handler-magic image uc m = refl

  -- The context on which irq_handle is called, once it has been completed.
  abbrev pub completed : Image → EventInfo → Uc R → AmCpu H T A R → Context R
  completed image ev uc m = record {
    ksp = m.ksp;
    vm_head = m.vme.vm_head;
    uc = resumed ev.event uc;
  }

  enter-completed :
      (image : Image) (ev : EventInfo) (uc : Uc R) (m : AmCpu H T A R)
      → refused image ev.event uc m ≡ false
      → (enter (taken image ev uc m).0.gpr1 (taken image ev uc m).1).contexts
          (taken image ev uc m).0.gpr1
        ≡ completed image ev uc m
  unfolding enter store setup_stack refused is_irq signal_safe frame resumed intr_sigmask
  enter-completed image ev uc m accepted = rw (accepted) (ground arith)

  iret-completed :
      (c : ℕ) (uc2 : Uc R) (t : AmCpu H T A R) (ctx : Context R)
      → t.contexts c ≡ ctx
      → some (iret (record uc2 { gpr1 = c }) (record t { ev = plain_event event_error }))
        ≡ some (ctx.uc, record t { ev = plain_event event_error; ksp = ctx.ksp })
  unfolding iret
  iret-completed c uc2 t ctx h =
      ap (λ k. some (k.uc, record t { ev = plain_event event_error; ksp = k.ksp })) h

  module _ (ops : Host H) (fuel : ℕ)
      (handler : EventInfo → ℕ → AmCpu H T A R → Option (ℕ × AmCpu H T A R)) where
    irq_handle-run :
        (c d : ℕ) (m t : AmCpu H T A R) (v : Vme H T A)
        → is_error m.ev.event ≡ false
        → handler m.ev d (enter d m) ≡ some (c, t)
        → c ≢ 0
        → am_switch ops fuel (t.contexts c).vm_head t.vme ≡ some v
        → irq_handle ops fuel handler d m ≡ some (c, record t { vme = v })
    unfolding irq_handle enter store
    irq_handle-run c d m t v fine run ne switch = rw (run, switch, fine, eq_false ne) refl

    module _ (laws : HostLaws ops) (image : Image) where
      -- A context that a handler returns is resumed by the signal of the magic call.
      pub resume_lem :
          (uc2 : Uc R) (m2 t : AmCpu H T A R) (ctx : Context R) (c d : ℕ) (l l' : List ℕ)
          → c ≢ 0
          → is_error m2.ev.event ≡ false
          → handler m2.ev d (enter d m2) ≡ some (c, t)
          → t.contexts c ≡ ctx
          → t.vme.vme_enable ≡ true
          → Shows ops laws t.vme l
          → Listed t.vme l' (first_node t.vme ctx.vm_head)
          → Backed laws.pgsize t.vme l'
          → length l < fuel
          → length l' < fuel
          → uc2.gpr1 ≡ c
          → (t1 t2 : AmCpu H T A R) × (irq_handle ops fuel handler d m2 ≡ some (c, t1))
            × (sig_handler image sigsegv magic_call uc2 t1 ≡ some (ctx.uc, t2))
            × (t2.ksp ≡ ctx.ksp)
            × (t2.vme.vm_head ≡ ctx.vm_head)
            × (t2.vme.vme_enable ≡ true)
            × Shows ops laws t2.vme l'
      resume_lem uc2 m2 t ctx c d l l' ne fine run same enabled shows listed backed enough enough'
            call =
          let (v, switch, at, same_flag, shown) =
            am_switch-entered ops laws fuel ctx.vm_head t.vme l l' enabled shows listed backed
              enough enough' in
          let t1 = record t { vme = v } in
          (
            t1,
            record t1 { ev = plain_event event_error; ksp = ctx.ksp },
            irq_handle-run c d m2 t v fine run ne
                (ap (λ k. am_switch ops fuel k.vm_head t.vme) same ∙ switch),
            sig_handler-magic image uc2 t1
                ∙ ap
                    (λ k.
                      some (
                        iret (record uc2 { gpr1 = k })
                          (record t1 { ev = plain_event event_error })))
                    call
                ∙ iret-completed c uc2 t1 ctx same,
            refl,
            at,
            same_flag ∙ enabled,
            shown,
          )

      -- A trap that is not refused saves a context. If the handler of a later trap returns it, as
      -- irq_handle has completed it, on a processor with the page maps enabled whose host, whose
      -- calls on aligned user pages with an offset in the physical memory succeed, shows what the
      -- list of the current space says and nothing else, the saved space being none or one with a
      -- list of aligned user pages in the physical memory, then, with more fuel than either list is
      -- long, irq_handle makes the magic call with that context, and the signal of the call resumes
      -- the code that the first trap interrupted, behind its call if that was a system call, with
      -- all of its registers and its signal mask, the kernel stack that was in use then, its space,
      -- and the host shows what the list of that space says and nothing else.
      pub sig_handler-irq_handle :
          (sig : Signal) (info : Siginfo) (uc uc2 : Uc R) (m m2 t : AmCpu H T A R) (ev : EventInfo)
          (d : ℕ) (l l' : List ℕ)
          → is_iret sig info ≡ false
          → signal_event sig info m ≡ some ev
          → refused image ev.event uc m ≡ false
          → (taken image ev uc m).0.gpr1 ≢ 0
          → is_error m2.ev.event ≡ false
          → handler m2.ev d (enter d m2) ≡ some ((taken image ev uc m).0.gpr1, t)
          → t.contexts (taken image ev uc m).0.gpr1
            ≡ (enter (taken image ev uc m).0.gpr1 (taken image ev uc m).1).contexts
                (taken image ev uc m).0.gpr1
          → t.vme.vme_enable ≡ true
          → Shows ops laws t.vme l
          → Listed t.vme l' (first_node t.vme m.vme.vm_head)
          → Backed laws.pgsize t.vme l'
          → length l < fuel
          → length l' < fuel
          → uc2.gpr1 ≡ (taken image ev uc m).0.gpr1
          → (t1 t2 : AmCpu H T A R) × (sig_handler image sig info uc m ≡ some (taken image ev uc m))
            × (irq_handle ops fuel handler d m2 ≡ some ((taken image ev uc m).0.gpr1, t1))
            × (sig_handler image sigsegv magic_call uc2 t1 ≡ some (resumed ev.event uc, t2))
            × (t2.ksp ≡ m.ksp)
            × (t2.vme.vm_head ≡ m.vme.vm_head)
            × Shows ops laws t2.vme l'
      sig_handler-irq_handle sig info uc uc2 m m2 t ev d l l' no_iret event accepted ne fine run
            same enabled shows listed backed enough enough' call =
          let c = (taken image ev uc m).0.gpr1 in
          let ctx : t.contexts c ≡ completed image ev uc m =
            same ∙ enter-completed image ev uc m accepted in
          let (t1, t2, handled, returned, ksp, space, flag, shown) =
            resume_lem uc2 m2 t (completed image ev uc m) c d l l' ne fine run ctx enabled shows
              listed backed enough enough' call in
          (
            t1,
            t2,
            sig_handler-run image sig info uc m ev no_iret event,
            handled,
            returned,
            ksp,
            space,
            shown,
          )
