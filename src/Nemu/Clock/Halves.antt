-- ===== src/Nemu/Clock/Halves.antt =====
-- A clock that runs on between the reads of its halves.
use openperf_abstract_machin.Prelude.{
  ℕ, ◌+◌, ◌-◌, ◌*◌, ◌/◌, ◌%◌, ◌^◌, ◌≤◌, ◌<◌, ◌≡◌, ◌⊎◌, inl, inr, refl, sym, arith, ap, ◌∙◌,
}
use openperf_abstract_machin.Prelude.Bits.{bit_or_fields}
use native.Mathlib.Decide.{dec_lt}
use openperf_abstract_machin.Nemu.Clock.{
  rtc_addr, spike_time, sub_u64, join_halves, npc_timer_init, npc_uptime, spike_read_time,
}

-- A read gives half of a counter of 64 bits, which never goes back.
pub record Counter {D : Type 0} (read : ℕ → D → ℕ × D) (at : ℕ) : Type 0 where
  pub now : D → ℕ
  pub fits : (d : D) → now d < 2 ^ 64
  pub low : (d : D) → (read at d).0 ≡ now d % 2 ^ 32
  pub high : (d : D) → (read (at + 4) d).0 ≡ now d / 2 ^ 32
  pub later : (a : ℕ) (d : D) → now d ≤ now (read a d).1

join_halves-add : (h l : ℕ) → l < 2 ^ 32 → join_halves h l ≡ h * 2 ^ 32 + l
unfolding join_halves
join_halves-add h l s = bit_or_fields 32 h l s

sub_u64-exact : (a b : ℕ) → b ≤ a → a < 2 ^ 64 → sub_u64 a b ≡ a - b
unfolding sub_u64
sub_u64-exact a b h l = omega arith

-- What is missing from the minuend is missing from the difference.
sub_u64-missing :
    (a b k t : ℕ) → a + k ≡ t → b < 2 ^ 64 → t < 2 ^ 64 → (sub_u64 a b + b + k) % 2 ^ 64 ≡ t
unfolding sub_u64
sub_u64-missing a b k t h l s = omega arith

module _ {D : Type 0} {read : ℕ → D → ℕ × D} where
  -- The higher half of a counter at one time and the lower half at another.
  joined :
      (at : ℕ) (c : Counter read at) (d e : D)
      → join_halves (read (at + 4) d).0 (read at e).0 ≡ c.now d / 2 ^ 32 * 2 ^ 32 + c.now e % 2 ^ 32
  joined at c d e =
      rw (c.high d, c.low e) (join_halves-add (c.now d / 2 ^ 32) (c.now e % 2 ^ 32) (omega arith))

  -- spike
  pub spike_read_time-torn :
      (c : Counter read spike_time) (d : D)
      → (spike_read_time read d).0
        ≡ (c.now d + (c.now (read spike_time d).1 / 2 ^ 32 - c.now d / 2 ^ 32) * 2 ^ 32) / 10
  unfolding spike_read_time
  spike_read_time-torn c d =
      let later = c.later spike_time d in
      ap (λ t. t / 10) (joined spike_time c (read spike_time d).1 d ∙ omega arith)

  -- On a counter of 64 bits that never goes back, if its higher half does not change between the
  -- two reads of __am_timer_init, then __am_timer_uptime of NPC, called later, is the time between
  -- the reads of the two lower halves if the higher half does not change between its own reads;
  -- otherwise it is too small, modulo 2 ^ 64, by 2 ^ 32 for each step of the higher half.
  pub npc_uptime-npc_timer_init :
      (c : Counter read rtc_addr) (d e d' e' : D)
      → d' ≡ (read (rtc_addr + 4) d).1
      → e' ≡ (read (rtc_addr + 4) e).1
      → c.now d / 2 ^ 32 ≡ c.now d' / 2 ^ 32
      → c.now d' ≤ c.now e
      → ((c.now e / 2 ^ 32 ≡ c.now e' / 2 ^ 32)
          × ((npc_uptime read (npc_timer_init read d).0 e).0 ≡ c.now e' - c.now d'))
        ⊎ ((c.now e / 2 ^ 32 < c.now e' / 2 ^ 32)
            × (((npc_uptime read (npc_timer_init read d).0 e).0
                    + c.now d'
                    + (c.now e' / 2 ^ 32 - c.now e / 2 ^ 32) * 2 ^ 32)
                  % 2 ^ 64
                ≡ c.now e'))
  unfolding npc_uptime npc_timer_init
  npc_uptime-npc_timer_init c d e d' e' p q same l =
      let start : (npc_timer_init read d).0 ≡ c.now d' =
        joined rtc_addr c d (read (rtc_addr + 4) d).1 ∙ rw (sym p) (omega arith) in
      let stop : join_halves (read (rtc_addr + 4) e).0 (read rtc_addr (read (rtc_addr + 4) e).1).0
          ≡ c.now e / 2 ^ 32 * 2 ^ 32 + c.now e' % 2 ^ 32 =
        joined rtc_addr c e (read (rtc_addr + 4) e).1 ∙ rw (sym q) refl in
      let on : c.now e ≤ c.now e' = rw q (c.later (rtc_addr + 4) e) in
      let fits = c.fits e' in
      elim (dec_lt (c.now e / 2 ^ 32) (c.now e' / 2 ^ 32)) [
        | yes carry ↦ inr (
          carry,
          rw (stop, start)
              (sub_u64-missing (c.now e / 2 ^ 32 * 2 ^ 32 + c.now e' % 2 ^ 32) (c.now d')
                ((c.now e' / 2 ^ 32 - c.now e / 2 ^ 32) * 2 ^ 32) (c.now e') (omega arith)
                (omega arith) fits),
        )
        | no not_carry ↦
            let exact : c.now e / 2 ^ 32 * 2 ^ 32 + c.now e' % 2 ^ 32 ≡ c.now e' = omega arith in
            inl (
              omega arith,
              rw (stop, start, exact) (sub_u64-exact (c.now e') (c.now d') (omega arith) fits),
            )
      ]
