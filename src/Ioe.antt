-- ===== src/Ioe.antt =====
-- The tables of device registers: am/include/amdev.h, and `lut`, `fail`, ioe_init, ioe_read and
-- ioe_write of each target. A function pointer is a name; the devices are modelled with their targets.
pub mod Tables
pub mod Serve
pub mod Native
mod Tests
use openperf_abstract_machin.Prelude.{
  ℕ, zero, suc, Bool, true, false, Option, none, some, List, [], ◌∷◌, ltb, ◌==◌, if◌then◌else◌,
}

-- The functions in the tables, and `fail`.
pub data Handler : Type 0 where
  on_uart_config : Handler
  on_uart_tx : Handler
  on_uart_rx : Handler
  on_timer_config : Handler
  on_timer_rtc : Handler
  on_timer_uptime : Handler
  on_input_config : Handler
  on_input_keybrd : Handler
  on_gpu_config : Handler
  on_gpu_status : Handler
  on_gpu_fbdraw : Handler
  on_gpu_memcpy : Handler
  on_gpu_render : Handler
  on_audio_config : Handler
  on_audio_ctrl : Handler
  on_audio_status : Handler
  on_audio_play : Handler
  on_disk_config : Handler
  on_disk_status : Handler
  on_disk_blkio : Handler
  on_net_config : Handler
  on_fail : Handler

-- The register that a function is written for: the numbers AM_UART_CONFIG to AM_NET_CONFIG.
pub am_devreg : Handler → Option ℕ
am_devreg on_uart_config = some 1
am_devreg on_uart_tx = some 2
am_devreg on_uart_rx = some 3
am_devreg on_timer_config = some 4
am_devreg on_timer_rtc = some 5
am_devreg on_timer_uptime = some 6
am_devreg on_input_config = some 7
am_devreg on_input_keybrd = some 8
am_devreg on_gpu_config = some 9
am_devreg on_gpu_status = some 10
am_devreg on_gpu_fbdraw = some 11
am_devreg on_gpu_memcpy = some 12
am_devreg on_gpu_render = some 13
am_devreg on_audio_config = some 14
am_devreg on_audio_ctrl = some 15
am_devreg on_audio_status = some 16
am_devreg on_audio_play = some 17
am_devreg on_disk_config = some 18
am_devreg on_disk_status = some 19
am_devreg on_disk_blkio = some 20
am_devreg on_net_config = some 21
am_devreg on_fail = none

-- `lut`; NULL is `none`.
abbrev pub Lut : Type 0
Lut = ℕ → Option Handler

-- An array with the given designated initializers, of which the last one of an index counts.
pub initialized : List (ℕ × Handler) → Lut
initialized [] reg = none
initialized (e ∷ l) reg = elim (initialized l reg) [
  | some h ↦ some h
  | none ↦ if e.0 == reg then some e.1 else none
]

-- The loop of ioe_init, up to the index `n`.
pub set_fail : ℕ → Lut → Lut
set_fail zero lut reg = lut reg
set_fail (suc n) lut reg =
    let rest = set_fail n lut reg in
    if reg == n then elim rest [ some h ↦ some h | none ↦ some on_fail ] else rest

-- ioe_read and ioe_write: the function that they call. A register of 128 or more is outside of the
-- array, and a call of NULL has no meaning.
pub ioe_read : ℕ → Lut → Option Handler
ioe_read reg lut = if ltb reg 128 then lut reg else none
