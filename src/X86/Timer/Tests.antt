-- ===== src/X86/Timer/Tests.antt =====
-- A clock that ticks a hundredth of a second at each write.
use openperf_abstract_machin.Prelude.{
  ℕ, ◌+◌, ◌*◌, ◌/◌, ◌%◌, ◌≤◌, ◌<◌, ◌≡◌, refl, arith, some, true, List, [], ◌∷◌, ◌++◌, length, ◌==◌,
  if◌then◌else◌, ◌>>=◌,
}
use openperf_abstract_machin.X86.Ports.{Ports}
use openperf_abstract_machin.X86.Timer.{
  Rtc, asked, read_rtc, read_values, read_rtc_async, timer_rtc,
}
use openperf_abstract_machin.X86.Timer.Reads.{bcd, Clock, clock_register, asked_all, IsOrder}
use openperf_abstract_machin.X86.Timer.Date.{Returned, timer_rtc_lem}

record PlainClock : Type 0 where
  ticks : ℕ
  register : ℕ

-- Years have twelve months of thirty days.
abbrev plain_field : ℕ → ℕ → ℕ
plain_field reg t =
    if reg == 0
    then t % 60
    else if reg == 2
    then t / 60 % 60
    else if reg == 4
    then t / 3600 % 24
    else if reg == 7
    then t / 86400 % 30 + 1
    else if reg == 8
    then t / 2592000 % 12 + 1
    else t / 31104000 % 100

abbrev plain_ports : Ports PlainClock
plain_ports = record {
  inb = λ p d. (bcd (plain_field d.register (d.ticks / 100)), d);
  inl = λ p d. (0, d);
  outb = λ p v d. record { ticks = d.ticks + 1; register = v };
  outw = λ p v d. d;
  outl = λ p v d. d;
}

plain_shown : (reg t : ℕ) → clock_register reg ≡ true → plain_field reg t < 100
plain_shown reg t is = ground arith

asked_ticks :
    (regs : List ℕ) (d : PlainClock) → (asked_all plain_ports regs d).ticks ≡ d.ticks + length regs
asked_ticks [] d = omega arith
asked_ticks (reg ∷ regs) d = omega (arith, asked_ticks regs (asked plain_ports reg d))

plain_fast :
    (regs : List ℕ) (d : PlainClock)
    → length regs ≤ 14
    → (asked_all plain_ports regs d).ticks / 100 ≤ d.ticks / 100 + 1
plain_fast regs d few = omega (arith, asked_ticks regs d)

abbrev plain_clock : Clock plain_ports
plain_clock = record {
  now = λ d. d.ticks / 100;
  field = plain_field;
  seconds = λ t. refl;
  shown = plain_shown;
  asked_value = λ reg d is. refl;
  forward = λ reg d. omega arith;
  fast = plain_fast;
}

-- The second ends while the date is read.
abbrev before_tick : PlainClock
before_tick = record { ticks = 5997; register = 0 }

-- The fields before the seconds, if they are read from the last to the first.
abbrev backwards : List ℕ
backwards = 9 ∷ 8 ∷ 7 ∷ 4 ∷ 2 ∷ []

backwards-IsOrder : IsOrder (backwards ++ (0 ∷ []))
backwards-IsOrder = record { distinct = omega arith; registers = ground arith; six = refl }

-- With the seconds read last the minute can be that of a time before: 0:00 at 0:59 and at 1:00.
torn_run :
    (timer_rtc plain_ports (backwards ++ (0 ∷ [])) 2 (record before_tick { ticks = 5994 }) >>= λ r.
    some (r.0.minute * 60 + r.0.second))
    ≡ some 0
unfolding timer_rtc read_rtc_async read_values read_rtc
torn_run = refl

timer_rtc_lem_example :
    (r : Rtc) × (d' : PlainClock) × (timer_rtc plain_ports (backwards ++ (0 ∷ [])) 2 before_tick
      ≡ some (r, d'))
    × Returned plain_ports plain_clock backwards [] backwards-IsOrder before_tick r d'
timer_rtc_lem_example =
    timer_rtc_lem plain_ports plain_clock backwards [] backwards-IsOrder 2 before_tick (omega arith)
