-- ===== src/X86/Gpu.antt =====
-- The frame buffer of am/src/x86/qemu/ioe.c: an array of pixels with three bytes each, by their
-- byte offset. The fields of a request are integers; a sum that is no `int`, and a pixel before the
-- array, are `none`.
pub mod Lines
pub mod Ints
pub mod Draw
mod Tests
use openperf_abstract_machin.Prelude.{
  ℕ, zero, suc, ◌+◌, ◌-◌, ◌*◌, ◌/◌, ◌%◌, ◌^◌, Bool, true, ◌&&◌, Option, none, some, Memory, write,
  leb, ◌==◌, if◌then◌else◌, ◌>>=◌,
}
use openperf_abstract_machin.Prelude.Int.{
  ℤ, pos, negsuc, pos_part, neg_part, ltb_ℤ, ◌+ℤ◌, ◌-ℤ◌, ◌*ℤ◌,
}

abbrev pub vmem_size : ℕ
vmem_size = 512 * 2 ^ 10

abbrev pub red : ℕ → ℕ
red p = p / 2 ^ 16 % 2 ^ 8

abbrev pub green : ℕ → ℕ
green p = p / 2 ^ 8 % 2 ^ 8

abbrev pub blue : ℕ → ℕ
blue p = p % 2 ^ 8

-- `struct pixel`: b, g and r.
abbrev pub put_pixel : ℕ → ℕ → Memory → Memory
put_pixel px p fb =
    write (write (write fb (3 * px) (blue p)) (3 * px + 1) (green p)) (3 * px + 2) (red p)

-- The fields of `display` that a frame buffer uses.
pub record Display : Type 0 where
  pub w : ℕ
  pub h : ℕ

-- `struct vbe_info` at its address: the result has `fb`, too.
pub gpu_init : Memory → Display × ℕ
gpu_init m =
    let info : ℕ = 0x4000 in
    (
      record {
        w = m (info + 18) + 2 ^ 8 * m (info + 19);
        h = m (info + 20) + 2 ^ 8 * m (info + 21);
      },
      m (info + 40) + 2 ^ 8 * m (info + 41) + 2 ^ 16 * m (info + 42) + 2 ^ 24 * m (info + 43),
    )

-- AM_GPU_CONFIG_T without has_accel, which stays 0.
pub record GpuConfig : Type 0 where
  pub present : Bool
  pub width : ℕ
  pub height : ℕ
  pub vmemsz : ℕ

pub gpu_config : Display → GpuConfig
gpu_config display = record {
  present = true;
  width = display.w;
  height = display.h;
  vmemsz = vmem_size;
}

-- AM_GPU_FBDRAW_T without `sync`, which is not read; `pixels` is the array.
pub record GpuFbdraw : Type 0 where
  pub x : ℤ
  pub y : ℤ
  pub pixels : ℕ → ℕ
  pub w : ℤ
  pub h : ℤ

-- A sum or a product of ints; `none` if it is no int.
pub as_int : ℤ → Option ℤ
as_int z = if leb (pos_part z + 1) (2 ^ 31) && leb (neg_part z) (2 ^ 31) then some z else none

-- The loop over `i`, with the number of pixels left and the index that `pixels` has reached.
pub draw_line : ℕ → ℕ → ℕ → (ℕ → ℕ) → Memory → Memory
draw_line zero i px pixels fb = fb
draw_line (suc n) i px pixels fb = draw_line n (i + 1) (px + 1) pixels (put_pixel px (pixels i) fb)

-- The same from `&fb[start]`; `none` where it writes before the array.
pub draw_from : ℕ → ℕ → ℤ → (ℕ → ℕ) → Memory → Option Memory
draw_from zero i start pixels fb = some fb
draw_from (suc n) i (pos px) pixels fb = some (draw_line (suc n) i px pixels fb)
draw_from (suc n) i (negsuc k) pixels fb = none

-- A row of the block, if it is not below the screen.
pub draw_visible_row : ℕ → ℕ → ℕ → Display → GpuFbdraw → Memory → Option Memory
draw_visible_row j at len display draw fb = do
  row ← as_int (draw.y +ℤ pos j)
  let drawn : Option Memory = (do
    offset ← as_int (row *ℤ pos display.w)
    start ← as_int (draw.x +ℤ offset)
    draw_from len at start draw.pixels fb)
  if ltb_ℤ row (pos display.h) then drawn else some fb

-- The loop over `j`, with the number of rows left. No pixel is read if `w` is negative.
pub draw_lines : ℕ → ℕ → ℕ → ℕ → Display → GpuFbdraw → Memory → Option Memory
draw_lines zero j at len display draw fb = some fb
draw_lines (suc n) j at len display draw fb = draw_visible_row j at len display draw fb >>= λ fb1.
    draw_lines n (j + 1) (at + pos_part draw.w) len display draw fb1

-- A loop up to a number that is not positive has no rounds.
pub gpu_fbdraw : Display → GpuFbdraw → Memory → Option Memory
gpu_fbdraw display draw fb = do
  end ← as_int (draw.x +ℤ draw.w)
  len ← if ltb_ℤ end (pos display.w) then some draw.w else as_int (pos display.w -ℤ draw.x)
  draw_lines (pos_part draw.h) 0 0 (pos_part len) display draw fb

-- The address of a pointer of the GPU, AM_GPU_NULL = 0xffffffff. `vmem` is the address of the array.
abbrev pub to_host : ℕ → ℕ → ℕ
to_host vmem ptr = if ptr == 0xffff_ffff then 0 else vmem + ptr

-- The loop of gpu_memcpy, with the number of bytes left.
pub copy_bytes : ℕ → ℕ → ℕ → ℕ → Memory → Memory
copy_bytes zero i src dst m = m
copy_bytes (suc n) i src dst m = copy_bytes n (i + 1) src dst (write m (dst + i) (m (src + i)))

pub gpu_memcpy : ℕ → ℕ → ℕ → ℕ → Memory → Memory
gpu_memcpy vmem dest src n m = copy_bytes n 0 src (to_host vmem dest) m
