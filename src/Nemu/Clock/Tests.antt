-- ===== src/Nemu/Clock/Tests.antt =====
-- A counter of cycles that stops at its largest value.
use openperf_abstract_machin.Prelude.{
  ℕ, ◌+◌, ◌-◌, ◌*◌, ◌/◌, ◌%◌, ◌^◌, ◌<◌, ◌≡◌, ◌⊎◌, refl, arith, min, ◌==◌, if◌then◌else◌,
}
use openperf_abstract_machin.Nemu.Clock.{
  rtc_addr, npc_uptime, npc_timer_init, nemu_uptime, join_halves,
}
use openperf_abstract_machin.Nemu.Clock.Halves.{Counter, npc_uptime-npc_timer_init}

abbrev cycles : ℕ → ℕ
cycles d = min d (2 ^ 64 - 1)

abbrev cycle_read : ℕ → ℕ → ℕ × ℕ
cycle_read a d = (if a == rtc_addr then cycles d % 2 ^ 32 else cycles d / 2 ^ 32, d + 1)

abbrev cycle_counter : Counter cycle_read rtc_addr
cycle_counter = record {
  now = cycles;
  fits = λ d. omega arith;
  low = λ d. refl;
  high = λ d. refl;
  later = λ a d. omega arith;
}

-- The counter steps from 2 ^ 32 - 1 to 2 ^ 32 between the halves.
torn_run : (nemu_uptime cycle_read (2 ^ 32 - 1)).0 ≡ 0
unfolding nemu_uptime join_halves
torn_run = refl

npc_uptime-npc_timer_init_example :
    ((cycles (2 ^ 32 - 1) / 2 ^ 32 ≡ cycles (2 ^ 32) / 2 ^ 32)
      × ((npc_uptime cycle_read (npc_timer_init cycle_read 5).0 (2 ^ 32 - 1)).0 ≡ 2 ^ 32 - 6))
    ⊎ ((cycles (2 ^ 32 - 1) / 2 ^ 32 < cycles (2 ^ 32) / 2 ^ 32)
        × (((npc_uptime cycle_read (npc_timer_init cycle_read 5).0 (2 ^ 32 - 1)).0
                + 6
                + (1 - 0) * 2 ^ 32)
              % 2 ^ 64
            ≡ 2 ^ 32))
npc_uptime-npc_timer_init_example =
    npc_uptime-npc_timer_init cycle_counter 5 (2 ^ 32 - 1) 6 (2 ^ 32) refl refl refl (omega arith)
