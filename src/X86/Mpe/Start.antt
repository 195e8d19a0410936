-- ===== src/X86/Mpe/Start.antt =====
-- am/src/x86/qemu/mpe.c: what holds of every schedule, and what the fair ones come to.
use native.Mathlib.Decide.{ℕ_discrete, dec_lt}
use mathlib.Core.Path.{subst}
use openperf_abstract_machin.Prelude.{
  ℕ, zero, suc, ◌+◌, ◌-◌, ◌*◌, ◌≤◌, ◌<◌, ◌≡◌, ◌⊎◌, inl, inr, refl, sym, ap, arith, Bool, Option,
  none, some, List, [], ◌∷◌, ◌++◌, ◌==◌, if◌then◌else◌, eq_true, eq_false,
}
use openperf_abstract_machin.X86.Mpe.{
  BootPc, before_init, at_cpu, waiting_for, before_entry, running, ApPc, stopped, in_entry, Mpe,
  step, run, power_on,
}
use openperf_abstract_machin.X86.Mpe.Order.{
  IsUp, calls, runs, Ordered, IsOrdered, step-IsOrdered, run-IsOrdered, power_on-IsOrdered,
}
use openperf_abstract_machin.X86.Mpe.Progress.{
  ap_left, ap_sum, boot_left, left, IsEnabled, step-left,
}
use openperf_abstract_machin.X86.Mpe.Rounds.{step-IsEnabled, some-IsEnabled}

-- That a schedule has a step of a processor.
unfoldable pub IsIn : ℕ → List ℕ → Type 0
IsIn i [] = ⊥
IsIn i (cpu ∷ l) = (cpu ≡ i) ⊎ IsIn i l

-- A schedule of `n` rounds, each with at least one step of each processor, in any order.
pub data Rounds (ncpu : ℕ) : ℕ → List ℕ → Type 0 where
  no_round : Rounds ncpu 0 []
  round :
      {n : ℕ} {l : List ℕ} (r : List ℕ)
      → ((i : ℕ) → i < ncpu → IsIn i r)
      → Rounds ncpu n l
      → Rounds ncpu (suc n) (r ++ l)

run-append :
    (ncpu entry : ℕ) (r l : List ℕ) (s : Mpe)
    → run ncpu entry (r ++ l) s ≡ run ncpu entry l (run ncpu entry r s)
unfolding run
run-append ncpu entry [] l s = refl
run-append ncpu entry (cpu ∷ r) l s = run-append ncpu entry r l (step ncpu entry cpu s)

boot_called : BootPc → Option ℕ
boot_called (running e) = some e
boot_called _ = none

ap_called : ApPc → Option ℕ
ap_called (in_entry e) = some e
ap_called _ = none

-- The entry that a processor runs.
pub called : ℕ → Mpe → Option ℕ
called cpu t = if cpu == 0 then boot_called t.boot else ap_called (t.ap cpu)

sum_zero : (n : ℕ) (aps : ℕ → ApPc) (i : ℕ) → 1 ≤ i → i < n → ap_sum n aps ≡ 0 → ap_left (aps i) ≡ 0
unfolding ap_sum
sum_zero zero aps i pos low z = absurd (omega arith)
sum_zero (suc n) aps i pos low z = elim (ℕ_discrete n i) [
  | yes e ↦
      let here : (if n == 0 then 0 else ap_left (aps n)) ≡ ap_left (aps n) =
        rw (eq_false {a = n} {b = 0} (λ k. absurd (omega arith))) refl in
      let same : ap_left (aps n) ≡ ap_left (aps i) = ap (λ k. ap_left (aps k)) e in omega arith
  | no ne ↦ sum_zero n aps i pos (omega arith) (omega arith)
]

module _ (ncpu entry : ℕ) where
  run-left :
      (l : List ℕ) (s : Mpe)
      → 1 ≤ ncpu
      → IsOrdered ncpu entry s
      → left ncpu (run ncpu entry l s) ≤ left ncpu s
  unfolding run
  run-left [] s some_cpu h = omega arith
  run-left (cpu ∷ l) s some_cpu h =
      let s1 = step ncpu entry cpu s in
      let once = (step-left ncpu entry cpu s some_cpu h).0 in
      let rest = run-left l s1 some_cpu (step-IsOrdered ncpu entry cpu s some_cpu h) in omega arith

  -- A processor with something to do does it, if it gets a turn.
  run-less :
      (i : ℕ) (l : List ℕ) (s : Mpe)
      → 1 ≤ ncpu
      → IsOrdered ncpu entry s
      → IsEnabled ncpu i s
      → IsIn i l
      → left ncpu (run ncpu entry l s) < left ncpu s
  unfolding run IsIn
  run-less i [] s some_cpu h enabled turn = elim turn [ ]
  run-less i (cpu ∷ l) s some_cpu h enabled turn =
      let s1 = step ncpu entry cpu s in
      let h1 = step-IsOrdered ncpu entry cpu s some_cpu h in
      let once = step-left ncpu entry cpu s some_cpu h in
      elim (ℕ_discrete cpu i) [
        | yes e ↦
            let now = once.1 (subst (λ k. IsEnabled ncpu k s) (sym e) enabled) in
            let rest = run-left l s1 some_cpu h1 in omega arith
        | no ne ↦ elim turn [
          | inl e ↦ absurd (ne e)
          | inr later ↦
              let rest =
                run-less i l s1 some_cpu h1 (step-IsEnabled ncpu entry i cpu s ne enabled) later in
              let le = once.0 in omega arith
        ]
      ]

  left-IsEnabled :
      (s : Mpe)
      → 1 ≤ ncpu
      → IsOrdered ncpu entry s
      → 0 < left ncpu s
      → (i : ℕ) × (i < ncpu) × IsEnabled ncpu i s
  unfolding left IsOrdered
  left-IsEnabled s some_cpu h more = some-IsEnabled ncpu entry s.boot s refl some_cpu h more

  rounds-left :
      (n : ℕ) (l : List ℕ) (s : Mpe)
      → 1 ≤ ncpu
      → IsOrdered ncpu entry s
      → Rounds ncpu n l
      → left ncpu (run ncpu entry l s) ≤ left ncpu s - n
  rounds-left n l s some_cpu h no_round = let le = run-left [] s some_cpu h in omega arith
  rounds-left n l s some_cpu h (round {n = k} {l = t} r fair rest) =
      let s1 = run ncpu entry r s in
      let ih = rounds-left k t s1 some_cpu (run-IsOrdered ncpu entry r s some_cpu h) rest in
      let less : left ncpu s1 ≤ left ncpu s - 1 = elim (dec_lt 0 (left ncpu s)) [
        | yes more ↦
            let (i, low, enabled) = left-IsEnabled s some_cpu h more in
            let strict = run-less i r s some_cpu h enabled (fair i low) in omega arith
        | no done ↦ let le = run-left r s some_cpu h in omega arith
      ] in
      rw (run-append ncpu entry r t s) (omega arith)

  boot-done :
      (b : BootPc) (t : Mpe)
      → Ordered ncpu entry b t.ap t.ap_ready t.is_ap t.user_entry
      → boot_left ncpu b ≡ 0
      → boot_called b ≡ some entry
  unfolding Ordered boot_left boot_called
  boot-done before_init t h z = absurd (omega arith)
  boot-done (at_cpu c) t h z = absurd (omega arith)
  boot-done (waiting_for c) t h z = absurd (omega arith)
  boot-done before_entry t h z = absurd (omega arith)
  boot-done (running e) t (sp, r, u, is) z = ap some is

  boot-up :
      (b : BootPc) (t : Mpe) (e i : ℕ)
      → Ordered ncpu entry b t.ap t.ap_ready t.is_ap t.user_entry
      → boot_called b ≡ some e
      → 1 ≤ i
      → i < ncpu
      → (e ≡ entry) × IsUp entry (t.ap i)
  unfolding Ordered boot_called
  boot-up before_init t e i h runs_e low high = ground arith
  boot-up (at_cpu c) t e i h runs_e low high = ground arith
  boot-up (waiting_for c) t e i h runs_e low high = ground arith
  boot-up before_entry t e i h runs_e low high = ground arith
  boot-up (running k) t e i (sp, r, u, is) runs_e low high = (ground arith, sp.up i low high)

  -- In every schedule, when the boot processor runs an entry, that is the one that mpe_init was
  -- called with, and each other processor that there is has announced itself, and runs the same
  -- entry or is about to call it.
  pub run-IsUp :
      (l : List ℕ) (a : Bool) (u e i : ℕ)
      → 1 ≤ i
      → i < ncpu
      → called 0 (run ncpu entry l (power_on a u)) ≡ some e
      → (e ≡ entry) × IsUp entry ((run ncpu entry l (power_on a u)).ap i)
  unfolding called IsOrdered
  run-IsUp l a u e i low high runs_e =
      let t = run ncpu entry l (power_on a u) in
      boot-up t.boot t e i
        (run-IsOrdered ncpu entry l (power_on a u) (omega arith)
          (power_on-IsOrdered ncpu entry a u))
        runs_e low high

  sum_stopped : (n : ℕ) → ap_sum n (λ i. stopped) ≤ 4 * n
  unfolding ap_sum ap_left
  sum_stopped zero = omega arith
  sum_stopped (suc n) =
      let rest = sum_stopped n in
      let first : (if n == 0 then 0 else 4) ≤ 4 = ground arith in omega arith

  power_on-left : (a : Bool) (u : ℕ) → 1 ≤ ncpu → left ncpu (power_on a u) ≤ 6 * ncpu + 1
  unfolding left boot_left
  power_on-left a u some_cpu = let sum = sum_stopped ncpu in omega arith

  up-done : (p : ApPc) → IsUp entry p → ap_left p ≡ 0 → ap_called p ≡ some entry
  unfolding ap_left ap_called
  up-done p calls z = absurd (omega arith)
  up-done p runs z = refl

  left-done :
      (t : Mpe) (cpu : ℕ)
      → cpu < ncpu
      → IsOrdered ncpu entry t
      → left ncpu t ≡ 0
      → called cpu t ≡ some entry
  unfolding left called IsOrdered
  left-done t cpu low h z =
      let boot = boot-done t.boot t h (omega arith) in
      elim (ℕ_discrete cpu 0) [
        | yes e ↦ rw (eq_true e) boot
        | no ne ↦
            let (same, up) = boot-up t.boot t entry cpu h boot (omega arith) low in
            rw (eq_false ne)
              (up-done (t.ap cpu) up (sum_zero ncpu t.ap cpu (omega arith) low (omega arith)))
      ]

  -- In a schedule of more than six times as many rounds as there are processors, where each
  -- processor gets a turn in each round, all processors come to run the entry that mpe_init was
  -- called with.
  pub run-called :
      (cpu n : ℕ) (l : List ℕ) (a : Bool) (u : ℕ)
      → cpu < ncpu
      → Rounds ncpu n l
      → 6 * ncpu < n
      → called cpu (run ncpu entry l (power_on a u)) ≡ some entry
  run-called cpu n l a u low rounds enough =
      let s = power_on a u in
      let some_cpu : 1 ≤ ncpu = omega arith in
      let ordered = power_on-IsOrdered ncpu entry a u in
      let all = power_on-left a u some_cpu in
      let rest = rounds-left n l s some_cpu ordered rounds in
      left-done (run ncpu entry l s) cpu low (run-IsOrdered ncpu entry l s some_cpu ordered)
        (omega arith)
