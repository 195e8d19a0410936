-- ===== src/Nemu/Gpu.antt =====
-- am/src/platform/nemu/ioe/gpu.c: the frame buffer. Memory and devices are words, by their byte
-- address; the `int` fields of a request are natural numbers here.
mod Tests
pub mod Draw
pub mod Width
use Prim.Native.Nat.{bit_and}
use openperf_abstract_machin.Prelude.{
  ℕ, zero, suc, ◌+◌, ◌-◌, ◌*◌, ◌/◌, ◌%◌, ◌^◌, Bool, true, false, Memory, write, size, sub_size,
  if◌then◌else◌,
}

abbrev pub vgactl_addr : ℕ
vgactl_addr = 0xa000_0100

abbrev pub fb_addr : ℕ
fb_addr = 0xa100_0000

abbrev pub sync_addr : ℕ
sync_addr = vgactl_addr + 4

-- AM_GPU_CONFIG_T
pub record GpuConfig : Type 0 where
  pub present : Bool
  pub has_accel : Bool
  pub width : ℕ
  pub height : ℕ
  pub vmemsz : ℕ

pub gpu_config : Memory → GpuConfig
gpu_config m =
    let w = m vgactl_addr / 2 ^ 16 % 2 ^ 16 in
    let h = bit_and (m vgactl_addr) 0xffff in
    record { present = true; has_accel = false; width = w; height = h; vmemsz = w * h }

-- `cfg_now`, a static variable without an initializer.
abbrev pub cfg_zero : GpuConfig
cfg_zero = record { present = false; has_accel = false; width = 0; height = 0; vmemsz = 0 }

-- AM_GPU_FBDRAW_T
pub record GpuFbdraw : Type 0 where
  pub x : ℕ
  pub y : ℕ
  pub pixels : ℕ
  pub w : ℕ
  pub h : ℕ
  pub sync : Bool

-- `pixel_idx`, `buffer_idx` and the memory.
pub record Cursor : Type 0 where
  pub pixel_idx : ℕ
  pub buffer_idx : ℕ
  pub words : Memory

-- The loop over `j`, with the number of pixels left.
pub draw_row : ℕ → ℕ → Cursor → Cursor
draw_row zero pixels s = s
draw_row (suc n) pixels s = draw_row n pixels (record {
  pixel_idx = size (s.pixel_idx + 1);
  buffer_idx = size (s.buffer_idx + 1);
  words = write s.words (size (fb_addr + 4 * s.buffer_idx)) (s.words (pixels + 4 * s.pixel_idx));
})

-- The loop over `i`, with the number of rows left.
pub draw_rows : ℕ → ℕ → ℕ → ℕ → Cursor → Cursor
draw_rows zero width w pixels s = s
draw_rows (suc n) width w pixels s =
    let s' = draw_row w pixels s in
    draw_rows n width w pixels (record s' { buffer_idx = size (s'.buffer_idx + sub_size width w) })

pub gpu_fbdraw : GpuConfig → GpuFbdraw → Memory → Memory
gpu_fbdraw cfg ctl m =
    let s =
      draw_rows ctl.h cfg.width ctl.w ctl.pixels
        (record { pixel_idx = 0; buffer_idx = size (ctl.y * cfg.width + ctl.x); words = m }) in
    if ctl.sync then write s.words sync_addr 1 else s.words
