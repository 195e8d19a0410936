-- ===== src/X86/Timer.antt =====
-- The timer of am/src/x86/qemu/ioe.c. A loop has as many rounds as fuel. C leaves open in which order
-- the initializers of a date are evaluated: the order of the registers is an argument. The loop that
-- only waits is left out.
pub mod Reads
pub mod Date
mod Tests
use Prim.Native.Nat.{bit_and}
use openperf_abstract_machin.Prelude.{
  ℕ, zero, suc, ◌+◌, ◌-◌, ◌*◌, ◌/◌, ◌^◌, ◌%◌, Option, none, some, Bool, true, false, ◌==◌, List, [],
  ◌∷◌, Memory, write, leb, if◌then◌else◌, ◌>>=◌, size,
}
use openperf_abstract_machin.X86.Ports.{Ports}

-- AM_TIMER_RTC_T
pub record Rtc : Type 0 where
  pub year : ℕ
  pub month : ℕ
  pub day : ℕ
  pub hour : ℕ
  pub minute : ℕ
  pub second : ℕ

-- The fields from the values of the registers.
abbrev pub to_rtc : Memory → Rtc
to_rtc v = record {
  second = v 0;
  minute = v 2;
  hour = v 4;
  day = v 7;
  month = v 8;
  year = v 9 + 2000;
}

module _ {D : Type 0} (ports : Ports D) where
  -- The device after a register has been read.
  abbrev pub asked : ℕ → D → D
  asked reg d = (ports.inb 0x71 (ports.outb 0x70 reg d)).1

  pub read_rtc : ℕ → D → ℕ × D
  read_rtc reg d =
      let ret = (ports.inb 0x71 (ports.outb 0x70 reg d)).0 in
      (bit_and ret 0xf + ret / 2 ^ 4 * 10, asked reg d)

  -- The values of the initializers, which are evaluated in the order of a list of registers.
  pub read_values : List ℕ → Memory → D → Memory × D
  read_values [] v d = (v, d)
  read_values (reg ∷ regs) v d = let r = read_rtc reg d in read_values regs (write v reg r.0) r.1

  pub read_rtc_async : List ℕ → D → Rtc × D
  read_rtc_async order d = let r = read_values order (λ reg. 0) d in (to_rtc r.0, r.1)

  pub timer_rtc : List ℕ → ℕ → D → Option (Rtc × D)
  timer_rtc order zero d = none
  timer_rtc order (suc fuel) d =
      let r = read_rtc_async order d in
      let tmp = read_rtc 0 r.1 in
      let again : Option (Rtc × D) = timer_rtc order fuel tmp.1 in
      if tmp.0 == r.0.second then some (r.0, tmp.1) else again

  pub wait_sec : List ℕ → ℕ → D → Option (Rtc × D)
  wait_sec order zero d = none
  wait_sec order (suc fuel) d =
      let t0 = read_rtc_async order d in
      let t1 = read_rtc_async order t0.1 in
      let again : Option (Rtc × D) = wait_sec order fuel t1.1 in
      if t0.0.second == t1.0.second then again else some t1

  -- With the time stamp counter of the processor. `fuel` bounds the calls and `polls` the rounds of
  -- each wait; the difference of the counters fits into 64 bits and its share into 32 bits.
  pub estimate_freq : List ℕ → ℕ → ℕ → (D → ℕ × D) → D → Option (ℕ × D)
  estimate_freq order zero polls rdtsc d = none
  estimate_freq order (suc fuel) polls rdtsc d = do
    (rtc1, d1) ← wait_sec order polls d
    let tsc1 = rdtsc d1
    (rtc2, d2) ← wait_sec order polls tsc1.1
    let tsc2 = rdtsc d2
    let t1 = rtc1.minute * 60 + rtc1.second
    let t2 = rtc2.minute * 60 + rtc2.second
    let again : Option (ℕ × D) = estimate_freq order fuel polls rdtsc tsc2.1
    if leb t2 t1
        then again
        else some (size ((tsc2.0 + 2 ^ 64 - tsc1.0) % 2 ^ 64 / 2 ^ 20 / (t2 - t1)), tsc2.1)
