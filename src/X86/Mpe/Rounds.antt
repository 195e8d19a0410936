-- ===== src/X86/Mpe/Rounds.antt =====
-- am/src/x86/qemu/mpe.c: schedules in which each processor gets its turns.
use native.Mathlib.Decide.{ℕ_discrete, dec_lt}
use mathlib.Core.Path.{subst}
use openperf_abstract_machin.Prelude.{
  ℕ, zero, suc, ◌+◌, ◌≤◌, ◌<◌, ◌≡◌, ◌≢◌, refl, sym, ◌∙◌, arith, ◌==◌, if◌then◌else◌, eq_true,
  eq_false, lt→ltb, lt_false,
}
use openperf_abstract_machin.X86.Mpe.{
  BootPc, before_init, at_cpu, waiting_for, before_entry, running, ApPc, stopped, at_start,
  before_xchg, before_call, in_entry, in_bootcpu, Mpe, put, ap_next, ap_xchg, ap_step, boot_next,
  step,
}
use openperf_abstract_machin.X86.Mpe.Order.{
  IsUp, calls, runs, IsComing, starts, announces, IsAwaited, coming, come, Ordered, put_other,
}
use openperf_abstract_machin.X86.Mpe.Progress.{
  ap_left, ap_sum, boot_left, IsActive, active_start, active_xchg, active_call, CanGo, first, test,
  poll, last, IsEnabled, other_cpu, boot_cpu,
}

IsActive-put : (c i : ℕ) (aps : ℕ → ApPc) → IsActive (aps i) → IsActive (put c at_start aps i)
IsActive-put c i aps h = elim (ℕ_discrete i c) [
  | yes e ↦ rw (eq_true e) active_start
  | no ne ↦ rw (eq_false ne) h
]

boot_next-IsActive :
    (ncpu entry i : ℕ) (b : BootPc) (s : Mpe)
    → IsActive (s.ap i)
    → IsActive ((boot_next ncpu entry b s).ap i)
unfolding boot_next
boot_next-IsActive ncpu entry i before_init s h = h
boot_next-IsActive ncpu entry i (at_cpu c) s h = elim (dec_lt c ncpu) [
  | yes more ↦ rw (lt→ltb c ncpu more) (IsActive-put c i s.ap h)
  | no done ↦ rw (lt_false {a = c} {b = ncpu} (omega arith)) h
]
boot_next-IsActive ncpu entry i (waiting_for c) s h = h
boot_next-IsActive ncpu entry i before_entry s h = h
boot_next-IsActive ncpu entry i (running e) s h = h

xchg_one : (p : ApPc) → ap_xchg p 1 ≡ 1
unfolding ap_xchg
xchg_one stopped = refl
xchg_one at_start = refl
xchg_one before_xchg = refl
xchg_one before_call = refl
xchg_one (in_entry e) = refl
xchg_one in_bootcpu = refl

CanGo-xchg : (b : BootPc) (r : ℕ) (p : ApPc) → CanGo b r → CanGo b (ap_xchg p r)
CanGo-xchg b r p first = first
CanGo-xchg b r p test = test
CanGo-xchg b r p poll = subst (CanGo b) (sym (xchg_one p)) poll
CanGo-xchg b r p last = last

module _ (ncpu entry : ℕ) where
  -- A step of another processor does not take the turn away.
  pub step-IsEnabled :
      (i j : ℕ) (s : Mpe) → j ≢ i → IsEnabled ncpu i s → IsEnabled ncpu i (step ncpu entry j s)
  unfolding step ap_step
  step-IsEnabled i j s differ (other_cpu pos low active) = elim (ℕ_discrete j 0) [
    | yes e ↦ rw (eq_true e) (other_cpu pos low (boot_next-IsActive ncpu entry i s.boot s active))
    | no ne ↦ rw (eq_false ne) (
        other_cpu pos low (
          subst IsActive
            (sym (put_other j i (ap_next s.is_ap s.user_entry (s.ap j)) s.ap (λ e. differ (sym e))))
            active))
  ]
  step-IsEnabled i j s differ (boot_cpu z go) =
      rw (eq_false {a = j} {b = 0} (λ e. differ (e ∙ sym z)))
        (boot_cpu z (CanGo-xchg s.boot s.ap_ready (s.ap j) go))

  -- If some step is left, a processor can do one.
  pub sum_positive :
      (n : ℕ) (aps : ℕ → ApPc)
      → 0 < ap_sum n aps
      → (i : ℕ) × (1 ≤ i) × (i < n) × (0 < ap_left (aps i))
  unfolding ap_sum
  sum_positive zero aps h = absurd (omega arith)
  sum_positive (suc n) aps h = elim (dec_lt 0 (ap_sum n aps)) [
    | yes more ↦ let (i, pos, low, here) = sum_positive n aps more in (i, pos, omega arith, here)
    | no done ↦ elim (ℕ_discrete n 0) [
      | yes e ↦
          let zero_first : (if n == 0 then 0 else ap_left (aps n)) ≡ 0 = rw (eq_true e) refl in
          absurd (omega arith)
      | no ne ↦
          let first : (if n == 0 then 0 else ap_left (aps n)) ≡ ap_left (aps n) =
            rw (eq_false ne) refl in
          (n, omega arith, omega arith, omega arith)
    ]
  ]

  up-IsActive : (p : ApPc) → IsUp entry p → 0 < ap_left p → IsActive p
  unfolding ap_left
  up-IsActive p calls h = active_call
  up-IsActive p runs h = absurd (omega arith)

  coming-IsActive : (p : ApPc) → IsComing p → IsActive p
  coming-IsActive p starts = active_start
  coming-IsActive p announces = active_xchg

  awaited :
      (c : ℕ) (s : Mpe) (p : ApPc) (r : ℕ)
      → s.boot ≡ waiting_for c
      → 1 ≤ c
      → c < ncpu
      → s.ap c ≡ p
      → s.ap_ready ≡ r
      → IsAwaited entry p r
      → (i : ℕ) × (i < ncpu) × IsEnabled ncpu i s
  awaited c s p r e low high at ready (coming h) =
      (c, high, other_cpu low high (subst IsActive (sym at) (coming-IsActive p h)))
  awaited c s p r e low high at ready (come h) = (
    0,
    omega arith,
    boot_cpu refl
        (subst (λ b. CanGo b s.ap_ready) (sym e) (subst (CanGo (waiting_for c)) (sym ready) poll)),
  )

  pub some-IsEnabled :
      (b : BootPc) (s : Mpe)
      → s.boot ≡ b
      → 1 ≤ ncpu
      → Ordered ncpu entry b s.ap s.ap_ready s.is_ap s.user_entry
      → 0 < boot_left ncpu b + ap_sum ncpu s.ap
      → (i : ℕ) × (i < ncpu) × IsEnabled ncpu i s
  unfolding Ordered boot_left
  some-IsEnabled before_init s e some_cpu h more =
      (0, some_cpu, boot_cpu refl (subst (λ b. CanGo b s.ap_ready) (sym e) first))
  some-IsEnabled (at_cpu c) s e some_cpu h more =
      (0, some_cpu, boot_cpu refl (subst (λ b. CanGo b s.ap_ready) (sym e) test))
  some-IsEnabled (waiting_for c) s e some_cpu (low, high, sp, await, is_ap, u) more =
      awaited c s (s.ap c) s.ap_ready e low high refl refl await
  some-IsEnabled before_entry s e some_cpu h more =
      (0, some_cpu, boot_cpu refl (subst (λ b. CanGo b s.ap_ready) (sym e) last))
  some-IsEnabled (running k) s e some_cpu (sp, r, u, called) more =
      let (i, pos, low, here) = sum_positive ncpu s.ap (omega arith) in
      (i, low, other_cpu pos low (up-IsActive (s.ap i) (sp.up i pos low) here))
