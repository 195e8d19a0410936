-- ===== src/Ioe/Tables.antt =====
-- `lut` of am/src/native/ioe.c, platform/nemu/ioe/ioe.c, riscv/npc/ioe.c, riscv/ysyxsoc/ioe.c, riscv/spike/ioe.c and
-- x86/qemu/ioe.c.
use openperf_abstract_machin.Prelude.{ℕ, List, [], ◌∷◌}
use openperf_abstract_machin.Ioe.{
  Handler, on_uart_config, on_uart_tx, on_uart_rx, on_timer_config, on_timer_rtc, on_timer_uptime,
  on_input_config, on_input_keybrd, on_gpu_config, on_gpu_status, on_gpu_fbdraw, on_gpu_memcpy,
  on_gpu_render, on_audio_config, on_audio_ctrl, on_audio_status, on_audio_play, on_disk_config,
  on_disk_status, on_disk_blkio, on_net_config,
}

abbrev pub native_table : List (ℕ × Handler)
native_table =
    (4, on_timer_config)
    ∷ (5, on_timer_rtc)
    ∷ (6, on_timer_uptime)
    ∷ (7, on_input_config)
    ∷ (8, on_input_keybrd)
    ∷ (9, on_gpu_config)
    ∷ (11, on_gpu_fbdraw)
    ∷ (10, on_gpu_status)
    ∷ (1, on_uart_config)
    ∷ (2, on_uart_tx)
    ∷ (3, on_uart_rx)
    ∷ (14, on_audio_config)
    ∷ (15, on_audio_ctrl)
    ∷ (16, on_audio_status)
    ∷ (17, on_audio_play)
    ∷ (18, on_disk_config)
    ∷ (19, on_disk_status)
    ∷ (20, on_disk_blkio)
    ∷ (21, on_net_config)
    ∷ []

abbrev pub nemu_table : List (ℕ × Handler)
nemu_table =
    (4, on_timer_config)
    ∷ (5, on_timer_rtc)
    ∷ (6, on_timer_uptime)
    ∷ (7, on_input_config)
    ∷ (8, on_input_keybrd)
    ∷ (9, on_gpu_config)
    ∷ (11, on_gpu_fbdraw)
    ∷ (10, on_gpu_status)
    ∷ (1, on_uart_config)
    ∷ (14, on_audio_config)
    ∷ (15, on_audio_ctrl)
    ∷ (16, on_audio_status)
    ∷ (17, on_audio_play)
    ∷ (18, on_disk_config)
    ∷ (19, on_disk_status)
    ∷ (20, on_disk_blkio)
    ∷ (21, on_net_config)
    ∷ []

abbrev pub npc_table : List (ℕ × Handler)
npc_table =
    (4, on_timer_config)
    ∷ (5, on_timer_rtc)
    ∷ (6, on_timer_uptime)
    ∷ (7, on_input_config)
    ∷ (8, on_input_keybrd)
    ∷ (1, on_uart_config)
    ∷ []

abbrev pub ysyxsoc_table : List (ℕ × Handler)
ysyxsoc_table =
    (4, on_timer_config)
    ∷ (5, on_timer_rtc)
    ∷ (6, on_timer_uptime)
    ∷ (7, on_input_config)
    ∷ (8, on_input_keybrd)
    ∷ (1, on_uart_config)
    ∷ []

abbrev pub spike_table : List (ℕ × Handler)
spike_table = (4, on_timer_config) ∷ (5, on_timer_rtc) ∷ (6, on_timer_uptime) ∷ []

abbrev pub qemu_table : List (ℕ × Handler)
qemu_table =
    (1, on_uart_config)
    ∷ (2, on_uart_tx)
    ∷ (3, on_uart_rx)
    ∷ (4, on_timer_config)
    ∷ (5, on_timer_rtc)
    ∷ (6, on_timer_uptime)
    ∷ (7, on_input_config)
    ∷ (8, on_input_keybrd)
    ∷ (9, on_gpu_config)
    ∷ (11, on_gpu_fbdraw)
    ∷ (10, on_gpu_status)
    ∷ (12, on_gpu_memcpy)
    ∷ (13, on_gpu_render)
    ∷ (14, on_audio_config)
    ∷ (18, on_disk_config)
    ∷ (19, on_disk_status)
    ∷ (20, on_disk_blkio)
    ∷ (21, on_net_config)
    ∷ []
