-- ===== src/X86/Gpu/Tests.antt =====
-- A block that two edges of the screen cut, and one at a negative place.
use openperf_abstract_machin.Prelude.{
  ℕ, ◌+◌, ◌*◌, ◌≡◌, refl, arith, Option, none, some, Memory, ◌>>=◌,
}
use openperf_abstract_machin.Prelude.Int.{pos, negsuc, ◌+ℤ◌, ◌-ℤ◌, ◌*ℤ◌}
use openperf_abstract_machin.X86.Gpu.{
  Display, GpuFbdraw, as_int, draw_from, draw_visible_row, draw_line, draw_lines, gpu_fbdraw,
}
use openperf_abstract_machin.X86.Gpu.Lines.{Placed, colour}
use openperf_abstract_machin.X86.Gpu.Ints.{to_ints}
use openperf_abstract_machin.X86.Gpu.Draw.{Drawn, gpu_fbdraw-Drawn}

abbrev small_screen : Display
small_screen = record { w = 4; h = 3 }

-- Three columns and two rows, of which two columns and one row are on the screen.
abbrev corner_block : Placed
corner_block = record { x = 2; y = 2; pixels = λ i. 0x10203 * (i + 1); w = 3; h = 2 }

abbrev black : Memory
black = λ a. 0

-- The colour of a pixel after a block has been drawn.
abbrev colour_after : GpuFbdraw → ℕ → Option ℕ
colour_after draw px = gpu_fbdraw small_screen draw black >>= λ fb. some (colour fb px)

fbdraw_run :
    (colour_after (to_ints corner_block) 10 ≡ some 0x10203)
    × (colour_after (to_ints corner_block) 11 ≡ some 0x20406)
    × (colour_after (to_ints corner_block) 12 ≡ some 0)
unfolding gpu_fbdraw draw_lines draw_visible_row draw_from draw_line as_int ◌+ℤ◌ ◌-ℤ◌ ◌*ℤ◌
fbdraw_run = (refl, refl, refl)

-- One row of three columns, the first of which is left of the screen.
abbrev left_block : GpuFbdraw
left_block = record {
  x = negsuc 0;
  y = pos 1;
  pixels = λ i. 0x10203 * (i + 1);
  w = pos 3;
  h = pos 1;
}

-- The first column is drawn at the end of the row above.
left_run : colour_after left_block 3 ≡ some 0x10203
unfolding gpu_fbdraw draw_lines draw_visible_row draw_from draw_line as_int ◌+ℤ◌ ◌-ℤ◌ ◌*ℤ◌
left_run = refl

-- In the first row it is before the array.
above_run : gpu_fbdraw small_screen (record left_block { y = pos 0 }) black ≡ none
unfolding gpu_fbdraw draw_lines draw_visible_row draw_from draw_line as_int ◌+ℤ◌ ◌-ℤ◌ ◌*ℤ◌
above_run = refl

gpu_fbdraw-Drawn_example :
    (fb' : Memory) × (gpu_fbdraw small_screen (to_ints corner_block) black ≡ some fb')
    × Drawn small_screen corner_block black fb'
gpu_fbdraw-Drawn_example = gpu_fbdraw-Drawn small_screen corner_block black (record {
  width = omega arith;
  height = omega arith;
  index = omega arith;
  screen = omega arith;
})
