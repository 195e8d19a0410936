-- ===== src/X86/Mpe/Order.antt =====
-- am/src/x86/qemu/mpe.c: the order in which the processors start.
use native.Mathlib.Decide.{ℕ_discrete, dec_lt}
use mathlib.Core.Path.{subst}
use openperf_abstract_machin.Prelude.{
  ℕ, ◌+◌, ◌≤◌, ◌<◌, ◌≡◌, ◌≢◌, ◌⊎◌, inl, inr, refl, sym, ◌∙◌, arith, Bool, true, List, [], ◌∷◌, ◌==◌,
  if◌then◌else◌, eq_true, eq_false, lt→ltb, lt_false,
}
use openperf_abstract_machin.X86.Mpe.{
  BootPc, before_init, at_cpu, waiting_for, before_entry, running, ApPc, stopped, at_start,
  before_xchg, before_call, in_entry, Mpe, put, ap_next, ap_xchg, ap_step, boot_next, step, run,
  power_on,
}

-- A processor that the boot processor need not wait for any more.
pub data IsUp (entry : ℕ) : ApPc → Type 0 where
  calls : IsUp entry before_call
  runs : IsUp entry (in_entry entry)

pub data IsComing : ApPc → Type 0 where
  starts : IsComing at_start
  announces : IsComing before_xchg

-- The processor that is waited for, and `ap_ready`.
pub data IsAwaited (entry : ℕ) : ApPc → ℕ → Type 0 where
  coming : {p : ApPc} → IsComing p → IsAwaited entry p 0
  come : {p : ApPc} → IsUp entry p → IsAwaited entry p 1

-- The processors from 1 to below `lo` are up, and those from `hi` on have not been started.
pub record Split (entry lo hi : ℕ) (aps : ℕ → ApPc) : Type 0 where
  pub up : (i : ℕ) → 1 ≤ i → i < lo → IsUp entry (aps i)
  pub rest : (i : ℕ) → hi ≤ i → aps i ≡ stopped

unfoldable pub Ordered : ℕ → ℕ → BootPc → (ℕ → ApPc) → ℕ → Bool → ℕ → Type 0
Ordered ncpu entry before_init aps r a u = Split entry 1 1 aps × (r ≡ 0)
Ordered ncpu entry (at_cpu c) aps r a u =
    (1 ≤ c) × (c ≤ ncpu) × Split entry c c aps × (r ≡ 0) × (u ≡ entry)
Ordered ncpu entry (waiting_for c) aps r a u =
    (1 ≤ c)
    × (c < ncpu)
    × Split entry c (c + 1) aps
    × IsAwaited entry (aps c) r
    × (a ≡ true)
    × (u ≡ entry)
Ordered ncpu entry before_entry aps r a u = Split entry ncpu ncpu aps × (r ≡ 0) × (u ≡ entry)
Ordered ncpu entry (running e) aps r a u =
    Split entry ncpu ncpu aps × (r ≡ 0) × (u ≡ entry) × (e ≡ entry)

unfoldable pub IsOrdered : ℕ → ℕ → Mpe → Type 0
IsOrdered ncpu entry s = Ordered ncpu entry s.boot s.ap s.ap_ready s.is_ap s.user_entry

pub put_same : (i : ℕ) (p : ApPc) (aps : ℕ → ApPc) → put i p aps i ≡ p
put_same i p aps = rw (eq_true {a = i} {b = i} refl) refl

pub put_other : (i j : ℕ) (p : ApPc) (aps : ℕ → ApPc) → j ≢ i → put i p aps j ≡ aps j
put_other i j p aps ne = rw (eq_false ne) refl

IsUp-next :
    (entry u : ℕ) (a : Bool) (p : ApPc)
    → u ≡ entry
    → IsUp entry p
    → IsUp entry (ap_next a u p) × ((r : ℕ) → ap_xchg p r ≡ r)
unfolding ap_next ap_xchg
IsUp-next entry u a p e calls = (subst (λ k. IsUp entry (in_entry k)) (sym e) runs, λ r. refl)
IsUp-next entry u a p e runs = (runs, λ r. refl)

stopped-next :
    (u : ℕ) (a : Bool) (p : ApPc)
    → p ≡ stopped
    → (ap_next a u p ≡ stopped) × ((r : ℕ) → ap_xchg p r ≡ r)
unfolding ap_next ap_xchg
stopped-next u a p e = rw (e) (refl, λ r. refl)

-- A step of a processor that is not waited for.
Split-put :
    (entry u lo hi i : ℕ) (a : Bool) (aps : ℕ → ApPc)
    → u ≡ entry
    → 1 ≤ i
    → (i < lo) ⊎ (hi ≤ i)
    → Split entry lo hi aps
    → Split entry lo hi (put i (ap_next a u (aps i)) aps) × ((r : ℕ) → ap_xchg (aps i) r ≡ r)
Split-put entry u lo hi i a aps e pos side sp =
    let quiet : (r : ℕ) → ap_xchg (aps i) r ≡ r = elim side [
      | inl low ↦ (IsUp-next entry u a (aps i) e (sp.up i pos low)).1
      | inr high ↦ (stopped-next u a (aps i) (sp.rest i high)).1
    ] in
    (
      record {
        up = λ j low high. elim (ℕ_discrete j i) [
          | yes j_i ↦ rw (eq_true j_i) (IsUp-next entry u a (aps i) e (sp.up i pos (omega arith))).0
          | no ne ↦ rw (eq_false ne) (sp.up j low high)
        ];
        rest = λ j high. elim (ℕ_discrete j i) [
          | yes j_i ↦ rw (eq_true j_i) (stopped-next u a (aps i) (sp.rest i (omega arith))).0
          | no ne ↦ rw (eq_false ne) (sp.rest j high)
        ];
      },
      quiet,
    )

Awaited-next :
    (entry u r : ℕ) (p : ApPc)
    → u ≡ entry
    → IsAwaited entry p r
    → IsAwaited entry (ap_next true u p) (ap_xchg p r)
unfolding ap_next ap_xchg
Awaited-next entry u r p e (coming starts) = coming announces
Awaited-next entry u r p e (coming announces) = come calls
Awaited-next entry u r p e (come h) =
    let (up, same) = IsUp-next entry u true p e h in
    subst (IsAwaited entry (ap_next true u p)) (sym (same 1)) (come up)

Split-at :
    (entry c : ℕ) (p : ApPc) (aps : ℕ → ApPc)
    → Split entry c (c + 1) aps
    → Split entry c (c + 1) (put c p aps)
Split-at entry c p aps sp = record {
  up = λ j low high.
      subst (IsUp entry) (sym (put_other c j p aps (λ e. absurd (omega arith)))) (sp.up j low high);
  rest = λ j high. put_other c j p aps (λ e. absurd (omega arith)) ∙ sp.rest j high;
}

module _ (ncpu entry : ℕ) where
  ap_step-Ordered :
      (b : BootPc) (aps : ℕ → ApPc) (r u i : ℕ) (a : Bool)
      → 1 ≤ i
      → Ordered ncpu entry b aps r a u
      → Ordered ncpu entry b (put i (ap_next a u (aps i)) aps) (ap_xchg (aps i) r) a u
  unfolding Ordered
  ap_step-Ordered before_init aps r u i a pos (sp, zero_r) =
      let (sp', same) =
        Split-put u u 1 1 i a aps refl pos (inr pos)
          (record { up = λ j low high. absurd (omega arith); rest = sp.rest }) in
      (record { up = λ j low high. absurd (omega arith); rest = sp'.rest }, same r ∙ zero_r)
  ap_step-Ordered (at_cpu c) aps r u i a pos (first, last, sp, zero_r, e) =
      let (sp', same) = Split-put entry u c c i a aps e pos (omega arith) sp in
      (first, last, sp', same r ∙ zero_r, e)
  ap_step-Ordered (waiting_for c) aps r u i a pos (first, last, sp, await, is_ap, e) =
      elim (ℕ_discrete c i) [
        | yes c_i ↦ (
          first,
          last,
          subst (λ k. Split entry c (c + 1) (put k (ap_next a u (aps k)) aps)) c_i
              (Split-at entry c (ap_next a u (aps c)) aps sp),
          subst (λ k. IsAwaited entry (put k (ap_next a u (aps k)) aps c) (ap_xchg (aps k) r)) c_i
              (subst (λ p. IsAwaited entry p (ap_xchg (aps c) r))
                (sym (put_same c (ap_next a u (aps c)) aps))
                (subst (λ k. IsAwaited entry (ap_next k u (aps c)) (ap_xchg (aps c) r)) (sym is_ap)
                  (Awaited-next entry u r (aps c) e await))),
          is_ap,
          e,
        )
        | no ne ↦
            let (sp', same) = Split-put entry u c (c + 1) i a aps e pos (omega arith) sp in
            (
              first,
              last,
              sp',
              subst (IsAwaited entry (put i (ap_next a u (aps i)) aps c)) (sym (same r)) (
                  subst (λ p. IsAwaited entry p r)
                    (sym (put_other i c (ap_next a u (aps i)) aps ne)) await),
              is_ap,
              e,
            )
      ]
  ap_step-Ordered before_entry aps r u i a pos (sp, zero_r, e) =
      let (sp', same) = Split-put entry u ncpu ncpu i a aps e pos (omega arith) sp in
      (sp', same r ∙ zero_r, e)
  ap_step-Ordered (running k) aps r u i a pos (sp, zero_r, e, called) =
      let (sp', same) = Split-put entry u ncpu ncpu i a aps e pos (omega arith) sp in
      (sp', same r ∙ zero_r, e, called)

  polled :
      (c u r : ℕ) (a : Bool) (aps : ℕ → ApPc) (p : ApPc)
      → aps c ≡ p
      → 1 ≤ c
      → c < ncpu
      → Split entry c (c + 1) aps
      → IsAwaited entry p r
      → a ≡ true
      → u ≡ entry
      → Ordered ncpu entry (if r == 1 then at_cpu (c + 1) else waiting_for c) aps 0 a u
  unfolding Ordered
  polled c u r a aps p at first last sp (coming h) is_ap e =
      (first, last, sp, subst (λ q. IsAwaited entry q 0) (sym at) (coming h), is_ap, e)
  polled c u r a aps p at first last sp (come h) is_ap e = (
    omega arith,
    omega arith,
    record {
      up = λ j low high. elim (ℕ_discrete c j) [
        | yes c_j ↦ subst (λ k. IsUp entry (aps k)) c_j (subst (IsUp entry) (sym at) h)
        | no ne ↦ sp.up j low (omega arith)
      ];
      rest = sp.rest;
    },
    refl,
    e,
  )

  boot_next-Ordered :
      (b : BootPc) (s : Mpe)
      → 1 ≤ ncpu
      → Ordered ncpu entry b s.ap s.ap_ready s.is_ap s.user_entry
      → IsOrdered ncpu entry (boot_next ncpu entry b s)
  unfolding Ordered IsOrdered boot_next
  boot_next-Ordered before_init s some_cpu (sp, zero_r) = (omega arith, some_cpu, sp, zero_r, refl)
  boot_next-Ordered (at_cpu c) s some_cpu (first, last, sp, zero_r, e) = elim (dec_lt c ncpu) [
    | yes more ↦ rw (lt→ltb c ncpu more) (
      first,
      more,
      record {
        up = λ j low high.
            subst (IsUp entry) (sym (put_other c j at_start s.ap (λ q. absurd (omega arith))))
              (sp.up j low high);
        rest = λ j high.
            put_other c j at_start s.ap (λ q. absurd (omega arith)) ∙ sp.rest j (omega arith);
      },
      subst (λ p. IsAwaited entry p s.ap_ready) (sym (put_same c at_start s.ap))
          (subst (IsAwaited entry at_start) (sym zero_r) (coming starts)),
      refl,
      e,
    )
    | no done ↦
        rw (lt_false {a = c} {b = ncpu} (omega arith))
          (subst (λ k. Split entry k k s.ap) (omega arith) sp, zero_r, e)
  ]
  boot_next-Ordered (waiting_for c) s some_cpu (first, last, sp, await, is_ap, e) =
      polled c s.user_entry s.ap_ready s.is_ap s.ap (s.ap c) refl first last sp await is_ap e
  boot_next-Ordered before_entry s some_cpu (sp, zero_r, e) = (sp, zero_r, e, e)
  boot_next-Ordered (running k) s some_cpu h = h

  pub step-IsOrdered :
      (cpu : ℕ) (s : Mpe)
      → 1 ≤ ncpu
      → IsOrdered ncpu entry s
      → IsOrdered ncpu entry (step ncpu entry cpu s)
  unfolding IsOrdered step ap_step
  step-IsOrdered cpu s some_cpu h = elim (ℕ_discrete cpu 0) [
    | yes e ↦ rw (eq_true e) (boot_next-Ordered s.boot s some_cpu h)
    | no ne ↦
        rw (eq_false ne)
          (ap_step-Ordered s.boot s.ap s.ap_ready s.user_entry cpu s.is_ap (omega arith) h)
  ]

  pub run-IsOrdered :
      (l : List ℕ) (s : Mpe)
      → 1 ≤ ncpu
      → IsOrdered ncpu entry s
      → IsOrdered ncpu entry (run ncpu entry l s)
  unfolding run
  run-IsOrdered [] s some_cpu h = h
  run-IsOrdered (cpu ∷ l) s some_cpu h =
      run-IsOrdered l (step ncpu entry cpu s) some_cpu (step-IsOrdered cpu s some_cpu h)

  pub power_on-IsOrdered : (a : Bool) (u : ℕ) → IsOrdered ncpu entry (power_on a u)
  unfolding IsOrdered Ordered
  power_on-IsOrdered a u =
      (record { up = λ i low high. absurd (omega arith); rest = λ i high. refl }, refl)
