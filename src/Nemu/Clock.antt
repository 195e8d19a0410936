-- ===== src/Nemu/Clock.antt =====
-- The keyboard register and the clocks that are read in two halves: am/src/platform/nemu/ioe/input.c
-- and timer.c, timer.c of riscv/npc, which riscv/ysyxsoc repeats, and of riscv/spike. The reads and
-- writes of a device are parameters.
mod Tests
pub mod Halves
use Prim.Native.Nat.{bit_or}
use openperf_abstract_machin.Prelude.{ℕ, ◌+◌, ◌-◌, ◌*◌, ◌/◌, ◌%◌, ◌^◌}
use openperf_abstract_machin.Native.Input.{Keybrd, decode}

abbrev pub rtc_addr : ℕ
rtc_addr = 0xa0000048

abbrev pub kbd_addr : ℕ
kbd_addr = 0xa0000060

abbrev pub spike_time : ℕ
spike_time = 0x2000000 + 0xbff8

-- `a - b` in a uint64_t.
pub sub_u64 : ℕ → ℕ → ℕ
sub_u64 a b = (a + 2 ^ 64 - b) % 2 ^ 64

-- `(uint64_t)h << 32 | l`
pub join_halves : ℕ → ℕ → ℕ
join_halves h l = bit_or (h * 2 ^ 32) l

module _ {D : Type 0} (inl : ℕ → D → ℕ × D) where
  -- The bits of the word mean what they mean in the native queue.
  pub nemu_keybrd : D → Keybrd × D
  nemu_keybrd d = let (k, d') = inl kbd_addr d in (decode k, d')

  -- __am_timer_uptime of NEMU, and the reads of the boards' timers.
  pub nemu_uptime : D → ℕ × D
  nemu_uptime d =
      let (h, d1) = inl (rtc_addr + 4) d in let (l, d2) = inl rtc_addr d1 in (join_halves h l, d2)

  -- The new value of `up`.
  pub npc_timer_init : D → ℕ × D
  npc_timer_init d =
      let (h, d1) = inl (rtc_addr + 4) d in let (l, d2) = inl rtc_addr d1 in (join_halves h l, d2)

  pub npc_uptime : ℕ → D → ℕ × D
  npc_uptime up d =
      let (h, d1) = inl (rtc_addr + 4) d in
      let (l, d2) = inl rtc_addr d1 in (sub_u64 (join_halves h l) up, d2)

  pub spike_read_time : D → ℕ × D
  spike_read_time d =
      let (lo, d1) = inl spike_time d in
      let (hi, d2) = inl (spike_time + 4) d1 in (join_halves hi lo / 10, d2)

  pub spike_uptime : ℕ → D → ℕ × D
  spike_uptime boot_time d = let (t, d') = spike_read_time d in (sub_u64 t boot_time, d')

-- `outl(RTC_ADDR, 0); outl(RTC_ADDR + 4, 0);`
pub nemu_timer_init : {D : Type 0} → (ℕ → ℕ → D → D) → D → D
nemu_timer_init outl d = outl (rtc_addr + 4) 0 (outl rtc_addr 0 d)
