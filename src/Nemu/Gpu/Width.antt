-- ===== src/Nemu/Gpu/Width.antt =====
-- gpu_fbdraw of am/src/platform/nemu/ioe/gpu.c with the configuration that it starts with.
use mathlib.Core.Path.{ap₂}
use native.Mathlib.Nat.{suc-mul}
use openperf_abstract_machin.Prelude.{
  ℕ, zero, suc, ◌+◌, ◌*◌, ◌^◌, ◌≤◌, ◌<◌, ◌≡◌, ◌≢◌, ◌⊎◌, inl, inr, refl, ap, ◌∙◌, arith, Bool-cases,
  Memory, size, sub_size,
}
use openperf_abstract_machin.Nemu.Gpu.{
  sync_addr, cfg_zero, Cursor, draw_row, draw_rows, GpuFbdraw, gpu_fbdraw,
}
use openperf_abstract_machin.Nemu.Gpu.Draw.{pixel_addr, Apart, draw_row_lem}

-- With the width 0 each row starts where the one before it did.
draw_rows_flat :
    (n w pixels p b screen : ℕ) (m : Memory) (a : ℕ)
    → pixel_addr screen ≤ 2 ^ 32
    → b + w ≤ screen
    → p + n * w < 2 ^ 32
    → Apart screen pixels (p + n * w)
    → (a < pixel_addr b) ⊎ (pixel_addr (b + w) ≤ a)
    → (draw_rows n 0 w pixels (record { pixel_idx = p; buffer_idx = b; words = m })).words a ≡ m a
unfolding draw_rows
draw_rows_flat zero w pixels p b screen m a fit room small apart out = refl
draw_rows_flat (suc n) w pixels p b screen m a fit room small apart out =
    let more = suc-mul n w in
    let s = draw_row w pixels (record { pixel_idx = p; buffer_idx = b; words = m }) in
    let row = draw_row_lem w pixels p b screen m fit room (omega arith) (omega arith) in
    let back : size (s.buffer_idx + sub_size 0 w) ≡ b = omega (arith, row.next_buffer) in
    ap (λ (c : Cursor). (draw_rows n 0 w pixels c).words a)
      (ap₂ (λ i k. record { pixel_idx = i; buffer_idx = k; words = s.words }) row.next_pixel back)
    ∙ draw_rows_flat n w pixels (p + w) b screen s.words a fit room (omega arith) (omega arith) out
    ∙ row.kept a out

-- With the configuration that the driver starts with, __am_gpu_fbdraw changes no word but the
-- synchronization word and the `w` pixels from number `x` on, however high the block is and
-- whatever its `y`, if those pixels have addresses and the pixels that are drawn lie outside of
-- them.
pub gpu_fbdraw-cfg_zero :
    (ctl : GpuFbdraw) (screen : ℕ) (m : Memory) (a : ℕ)
    → pixel_addr screen ≤ 2 ^ 32
    → ctl.x + ctl.w ≤ screen
    → ctl.h * ctl.w < 2 ^ 32
    → Apart screen ctl.pixels (ctl.h * ctl.w)
    → a ≢ sync_addr
    → (a < pixel_addr ctl.x) ⊎ (pixel_addr (ctl.x + ctl.w) ≤ a)
    → gpu_fbdraw cfg_zero ctl m a ≡ m a
unfolding gpu_fbdraw
gpu_fbdraw-cfg_zero ctl screen m a fit room small apart ne out =
    let start : size (ctl.y * 0 + ctl.x) ≡ ctl.x = omega arith in
    let flat =
      draw_rows_flat ctl.h ctl.w ctl.pixels 0 ctl.x screen m a fit room (omega arith) (omega arith)
        out in
    rw start
      (elim (Bool-cases ctl.sync) [ inl e ↦ rw e (ground (arith, flat)) | inr e ↦ rw e flat ])
