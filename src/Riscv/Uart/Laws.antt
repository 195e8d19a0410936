-- ===== src/Riscv/Uart/Laws.antt =====
-- What a serial port is relied upon for.
use mathlib.Core.Bool.{true≢false}
use openperf_abstract_machin.Prelude.{
  ℕ, zero, suc, ◌-◌, ◌≤◌, ◌<◌, ◌≡◌, ◌≢◌, inl, inr, refl, sym, ◌∙◌, arith, Bool, true, Bool-cases,
  some,
}
use openperf_abstract_machin.Riscv.Uart.{Bus, poll_until}

-- A register that says that there is room after at most as many reads as the port is busy. When it
-- says so there is room, until the next write; reading it changes nothing else that is observed.
pub record PollLaws {D A : Type 0} (bus : Bus D) (ready : ℕ → Bool) (reg : ℕ) (busy : D → ℕ)
    (seen : D → A) : Type 0 where
  pub idle : (d : D) → busy d ≡ 0 → ready (bus.inb reg d).0 ≡ true
  pub room : (d : D) → ready (bus.inb reg d).0 ≡ true → busy (bus.inb reg d).1 ≡ 0
  pub waits : (d : D) → busy (bus.inb reg d).1 ≤ busy d - 1
  pub reads : (d : D) → seen (bus.inb reg d).1 ≡ seen d

module _ {D A : Type 0} (bus : Bus D) (ready : ℕ → Bool) (reg : ℕ) (busy : D → ℕ) (seen : D → A)
    (laws : PollLaws bus ready reg busy seen) where
  pub poll_until-some :
      (fuel : ℕ) (d : D)
      → busy d < fuel
      → (d' : D) × (poll_until bus ready fuel reg d ≡ some d') × (seen d' ≡ seen d) × (busy d' ≡ 0)
  unfolding poll_until
  poll_until-some zero d enough = absurd (omega arith)
  poll_until-some (suc fuel) d enough = elim (Bool-cases (ready (bus.inb reg d).0)) [
    | inl yes_ready ↦ ((bus.inb reg d).1, rw (yes_ready) refl, laws.reads d, laws.room d yes_ready)
    | inr busy_now ↦
        let still : busy d ≢ 0 = λ e. true≢false (sym (laws.idle d e) ∙ busy_now) in
        let (d', run, same, empty) =
          poll_until-some fuel (bus.inb reg d).1 (omega (arith, laws.waits d)) in
        (d', rw (busy_now) run, same ∙ laws.reads d, empty)
  ]
