-- ===== src/X86/Mpe/Progress.antt =====
-- am/src/x86/qemu/mpe.c: that all processors come to the entry.
use native.Mathlib.Decide.{ℕ_discrete, dec_lt}
use openperf_abstract_machin.Prelude.{
  ℕ, zero, suc, ◌+◌, ◌-◌, ◌*◌, ◌≤◌, ◌<◌, ◌≡◌, refl, ap, arith, Bool, true, false, ◌==◌,
  if◌then◌else◌, eq_true, eq_false, lt→ltb, lt_false,
}
use openperf_abstract_machin.X86.Mpe.{
  BootPc, before_init, at_cpu, waiting_for, before_entry, running, ApPc, stopped, at_start,
  before_xchg, before_call, in_entry, in_bootcpu, Mpe, put, ap_next, ap_step, boot_next, step,
}
use openperf_abstract_machin.X86.Mpe.Order.{Ordered, IsOrdered, put_other}

-- The steps that are left.
unfoldable pub ap_left : ApPc → ℕ
ap_left stopped = 4
ap_left at_start = 3
ap_left before_xchg = 2
ap_left before_call = 1
ap_left (in_entry e) = 0
ap_left in_bootcpu = 0

unfoldable pub ap_sum : ℕ → (ℕ → ApPc) → ℕ
ap_sum zero aps = 0
ap_sum (suc n) aps = (if n == 0 then 0 else ap_left (aps n)) + ap_sum n aps

unfoldable pub boot_left : ℕ → BootPc → ℕ
boot_left ncpu before_init = 2 * (ncpu - 1) + 3
boot_left ncpu (at_cpu c) = 2 * (ncpu - c) + 2
boot_left ncpu (waiting_for c) = 2 * (ncpu - c) + 1
boot_left ncpu before_entry = 1
boot_left ncpu (running e) = 0

unfoldable pub left : ℕ → Mpe → ℕ
left ncpu s = boot_left ncpu s.boot + ap_sum ncpu s.ap

ap_sum-above : (n i : ℕ) (p : ApPc) (aps : ℕ → ApPc) → n ≤ i → ap_sum n (put i p aps) ≡ ap_sum n aps
unfolding ap_sum
ap_sum-above zero i p aps h = refl
ap_sum-above (suc n) i p aps h =
    rw (put_other i n p aps (λ e. absurd (omega arith)), ap_sum-above n i p aps (omega arith)) refl

ap_sum-put :
    (n i : ℕ) (p : ApPc) (aps : ℕ → ApPc)
    → 1 ≤ i
    → i < n
    → ap_sum n (put i p aps) + ap_left (aps i) ≡ ap_sum n aps + ap_left p
unfolding ap_sum
ap_sum-put zero i p aps pos h = absurd (omega arith)
ap_sum-put (suc n) i p aps pos h = elim (ℕ_discrete n i) [
  | yes e ↦
      let same : ap_sum n (put i p aps) ≡ ap_sum n aps = ap_sum-above n i p aps (omega arith) in
      let here : put i p aps n ≡ p = rw (eq_true e) refl in
      let own : ap_left (aps n) ≡ ap_left (aps i) = ap (λ k. ap_left (aps k)) e in
      rw (same, here, eq_false {a = n} {b = 0} (λ z. absurd (omega arith))) (omega arith)
  | no ne ↦
      let rest = ap_sum-put n i p aps pos (omega arith) in rw (put_other i n p aps ne) (omega arith)
]

-- What a step of a processor other than the boot processor leaves.
ap_next-left : (a : Bool) (u : ℕ) (p : ApPc) → ap_left (ap_next a u p) ≤ ap_left p
unfolding ap_next ap_left
ap_next-left a u stopped = omega arith
ap_next-left true u at_start = omega arith
ap_next-left false u at_start = omega arith
ap_next-left a u before_xchg = omega arith
ap_next-left a u before_call = omega arith
ap_next-left a u (in_entry e) = omega arith
ap_next-left a u in_bootcpu = omega arith

-- The processors that do something in their next step.
pub data IsActive : ApPc → Type 0 where
  active_start : IsActive at_start
  active_xchg : IsActive before_xchg
  active_call : IsActive before_call

ap_next-less : (a : Bool) (u : ℕ) (p : ApPc) → IsActive p → ap_left (ap_next a u p) < ap_left p
unfolding ap_next ap_left
ap_next-less true u p active_start = omega arith
ap_next-less false u p active_start = omega arith
ap_next-less a u p active_xchg = omega arith
ap_next-less a u p active_call = omega arith

pub data CanGo : BootPc → ℕ → Type 0 where
  first : {r : ℕ} → CanGo before_init r
  test : {c r : ℕ} → CanGo (at_cpu c) r
  poll : {c : ℕ} → CanGo (waiting_for c) 1
  last : {r : ℕ} → CanGo before_entry r

pub data IsEnabled (ncpu cpu : ℕ) (s : Mpe) : Type 0 where
  other_cpu : 1 ≤ cpu → cpu < ncpu → IsActive (s.ap cpu) → IsEnabled ncpu cpu s
  boot_cpu : cpu ≡ 0 → CanGo s.boot s.ap_ready → IsEnabled ncpu cpu s

stopped-left : ap_left stopped ≡ 4
unfolding ap_left
stopped-left = refl

start-left : ap_left at_start ≡ 3
unfolding ap_left
start-left = refl

poll-ready : {c r : ℕ} → CanGo (waiting_for c) r → r ≡ 1
poll-ready poll = refl

running-done : {e r : ℕ} → CanGo (running e) r → ⊥
running-done g = elim g [ ]

module _ (ncpu entry : ℕ) where
  ap_step-left :
      (i : ℕ) (s : Mpe)
      → 1 ≤ i
      → (left ncpu (ap_step i s) ≤ left ncpu s)
        × ((i < ncpu) → IsActive (s.ap i) → left ncpu (ap_step i s) < left ncpu s)
  unfolding left ap_step
  ap_step-left i s pos = elim (dec_lt i ncpu) [
    | yes low ↦
        let next = ap_next s.is_ap s.user_entry (s.ap i) in
        let sum = ap_sum-put ncpu i next s.ap pos low in
        let less = ap_next-left s.is_ap s.user_entry (s.ap i) in
        (
          omega arith,
          λ q active. let strict = ap_next-less s.is_ap s.user_entry (s.ap i) active in omega arith,
        )
    | no high ↦
        let same = ap_sum-above ncpu i (ap_next s.is_ap s.user_entry (s.ap i)) s.ap (omega arith) in
        (omega arith, λ q. absurd (omega arith))
  ]

  boot_next-left :
      (b : BootPc) (s : Mpe)
      → 1 ≤ ncpu
      → Ordered ncpu entry b s.ap s.ap_ready s.is_ap s.user_entry
      → (left ncpu (boot_next ncpu entry b s) ≤ boot_left ncpu b + ap_sum ncpu s.ap)
        × (CanGo b s.ap_ready
            → left ncpu (boot_next ncpu entry b s) < boot_left ncpu b + ap_sum ncpu s.ap)
  unfolding left boot_next boot_left Ordered
  boot_next-left before_init s some_cpu h = (omega arith, λ g. omega arith)
  boot_next-left (at_cpu c) s some_cpu (low, high, sp, r, e) = elim (dec_lt c ncpu) [
    | yes more ↦
        let sum = ap_sum-put ncpu c at_start s.ap low more in
        let was : ap_left (s.ap c) ≡ 4 = rw (sp.rest c (omega arith)) stopped-left in
        let is : ap_left at_start ≡ 3 = start-left in
        rw (lt→ltb c ncpu more) (omega arith, λ g. omega arith)
    | no done ↦ rw (lt_false {a = c} {b = ncpu} (omega arith)) (omega arith, λ g. omega arith)
  ]
  boot_next-left (waiting_for c) s some_cpu (low, high, sp, await, is_ap, e) =
      elim (ℕ_discrete s.ap_ready 1) [
        | yes e ↦ rw (eq_true e) (omega arith, λ g. omega arith)
        | no ne ↦ rw (eq_false ne) (omega arith, λ g. absurd (ne (poll-ready g)))
      ]
  boot_next-left before_entry s some_cpu h = (omega arith, λ g. omega arith)
  boot_next-left (running e) s some_cpu h = (omega arith, λ g. absurd (running-done g))

  pub step-left :
      (cpu : ℕ) (s : Mpe)
      → 1 ≤ ncpu
      → IsOrdered ncpu entry s
      → (left ncpu (step ncpu entry cpu s) ≤ left ncpu s)
        × (IsEnabled ncpu cpu s → left ncpu (step ncpu entry cpu s) < left ncpu s)
  unfolding left step IsOrdered
  step-left cpu s some_cpu h = elim (ℕ_discrete cpu 0) [
    | yes e ↦
        let (le, lt) = boot_next-left s.boot s some_cpu h in
        rw (eq_true e) (
          le,
          λ en. elim en [ other_cpu pos low active ↦ absurd (omega arith) | boot_cpu z go ↦ lt go ],
        )
    | no ne ↦
        let (le, lt) = ap_step-left cpu s (omega arith) in
        rw (eq_false ne) (
          le,
          λ en. elim en [
            | other_cpu pos low active ↦ lt low active
            | boot_cpu z go ↦ absurd (ne z)
          ],
        )
  ]
