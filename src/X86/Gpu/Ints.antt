-- ===== src/X86/Gpu/Ints.antt =====
-- gpu_fbdraw of am/src/x86/qemu/ioe.c on a block whose place and size are not negative: its integers
-- are numbers.
use native.Mathlib.Decide.{dec_lt}
use native.Mathlib.Nat.{mul-le-mul_right}
use openperf_abstract_machin.Prelude.{
  ℕ, zero, suc, ◌+◌, ◌-◌, ◌*◌, ◌^◌, ◌≤◌, ◌<◌, ◌≡◌, ◌⊎◌, refl, ap, arith, some, Memory, ltb, leb,
  lt→ltb, lt_false, if◌then◌else◌,
}
use openperf_abstract_machin.Prelude.Int.{pos, pos_part, ltb_ℤ, ◌+ℤ◌, ◌-ℤ◌, ◌*ℤ◌}
use openperf_abstract_machin.X86.Gpu.{
  Display, GpuFbdraw, as_int, draw_line, draw_from, draw_visible_row, draw_lines, gpu_fbdraw,
}
use openperf_abstract_machin.X86.Gpu.Lines.{Placed, place_lines, drawn_row}

abbrev pub to_ints : Placed → GpuFbdraw
to_ints draw = record {
  x = pos draw.x;
  y = pos draw.y;
  pixels = draw.pixels;
  w = pos draw.w;
  h = pos draw.h;
}

-- How much of a row is left of the right edge.
abbrev pub visible : Display → Placed → ℕ
visible display draw = if leb display.w (draw.x + draw.w) then display.w - draw.x else draw.w

-- The sums and products of gpu_fbdraw are ints.
pub record Fits (display : Display) (draw : Placed) : Type 0 where
  pub width : draw.x + draw.w < 2 ^ 31
  pub height : draw.y + draw.h ≤ 2 ^ 31
  pub index : draw.x + display.h * display.w < 2 ^ 31
  pub screen : display.w < 2 ^ 31

as_int-pos : (n : ℕ) → n < 2 ^ 31 → as_int (pos n) ≡ some (pos n)
unfolding as_int
as_int-pos n l = ground arith

add_pos : (a b : ℕ) → pos a +ℤ pos b ≡ pos (a + b)
unfolding ◌+ℤ◌
add_pos a b = ground arith

mul_pos : (a b : ℕ) → pos a *ℤ pos b ≡ pos (a * b)
unfolding ◌*ℤ◌
mul_pos a b = ground arith

as_int-sub : (a b : ℕ) → a < 2 ^ 31 → b < 2 ^ 31 → as_int (pos a -ℤ pos b) ≡ some (pos a -ℤ pos b)
unfolding as_int ◌-ℤ◌
as_int-sub a b l l' = ground arith

pos_part-sub : (a b : ℕ) → pos_part (pos a -ℤ pos b) ≡ a - b
unfolding ◌-ℤ◌
pos_part-sub a b = ground arith

ltb_ℤ-pos : (a b : ℕ) → ltb_ℤ (pos a) (pos b) ≡ ltb a b
ltb_ℤ-pos a b = ground arith

draw_from-pos :
    (n i px : ℕ) (pixels : ℕ → ℕ) (fb : Memory)
    → draw_from n i (pos px) pixels fb ≡ some (draw_line n i px pixels fb)
unfolding draw_from draw_line
draw_from-pos zero i px pixels fb = refl
draw_from-pos (suc n) i px pixels fb = refl

module _ (display : Display) (draw : Placed) (fits : Fits display draw) where
  draw_visible_row-drawn_row :
      (j at len : ℕ) (fb : Memory) (inside : (len ≡ 0) ⊎ (draw.x + len ≤ display.w))
      → j < draw.h
      → draw_visible_row j at len display (to_ints draw) fb
        ≡ some (drawn_row len display draw inside j at fb)
  unfolding draw_visible_row
  draw_visible_row-drawn_row j at len fb inside l = elim (dec_lt (draw.y + j) display.h) [
    | yes on ↦
        let at_most : (draw.y + j) * display.w ≤ display.h * display.w =
          mul-le-mul_right display.w (omega arith) in
        let row_int = as_int-pos (draw.y + j) (omega (arith, fits.height)) in
        let offset_int = as_int-pos ((draw.y + j) * display.w) (omega (arith, fits.index)) in
        let start_int =
          as_int-pos (draw.x + (draw.y + j) * display.w) (omega (arith, fits.index)) in
        let same : draw.x + (draw.y + j) * display.w ≡ draw.x + (j + draw.y) * display.w =
          ap (λ r. draw.x + r * display.w) (omega arith) in
        rw
          (
            add_pos draw.y j,
            row_int,
            mul_pos (draw.y + j) display.w,
            offset_int,
            add_pos draw.x ((draw.y + j) * display.w),
            start_int,
            ltb_ℤ-pos (draw.y + j) display.h,
            lt→ltb (draw.y + j) display.h on,
            draw_from-pos len at (draw.x + (draw.y + j) * display.w) draw.pixels fb,
            same,
          )
          refl
    | no off ↦
        let row_int = as_int-pos (draw.y + j) (omega (arith, fits.height)) in
        rw
          (
            add_pos draw.y j,
            row_int,
            ltb_ℤ-pos (draw.y + j) display.h,
            lt_false {a = draw.y + j} {b = display.h} (omega (arith, off)),
          )
          refl
  ]

  draw_lines-place_lines :
      (n j at len : ℕ) (fb : Memory) (inside : (len ≡ 0) ⊎ (draw.x + len ≤ display.w))
      → j + n ≤ draw.h
      → draw_lines n j at len display (to_ints draw) fb
        ≡ some (place_lines n j at len display draw fb)
  unfolding draw_lines place_lines
  draw_lines-place_lines zero j at len fb inside l = refl
  draw_lines-place_lines (suc n) j at len fb inside l =
      rw (draw_visible_row-drawn_row j at len fb inside (omega arith)) (
        draw_lines-place_lines n (j + 1) (at + draw.w) len
          (drawn_row len display draw inside j at fb) inside (omega arith))

pub gpu_fbdraw-place_lines :
    (display : Display) (draw : Placed) (fb : Memory)
    → Fits display draw
    → gpu_fbdraw display (to_ints draw) fb
      ≡ some (place_lines draw.h 0 0 (visible display draw) display draw fb)
unfolding gpu_fbdraw
gpu_fbdraw-place_lines display draw fb fits =
    let end_int = as_int-pos (draw.x + draw.w) fits.width in
    let runs = λ (len : ℕ) (inside : (len ≡ 0) ⊎ (draw.x + len ≤ display.w)).
      draw_lines-place_lines display draw fits draw.h 0 0 len fb inside (omega arith) in
    elim (dec_lt (draw.x + draw.w) display.w) [
      | yes l ↦
          let whole : visible display draw ≡ draw.w = ground arith in
          rw
            (
              add_pos draw.x draw.w,
              end_int,
              ltb_ℤ-pos (draw.x + draw.w) display.w,
              lt→ltb (draw.x + draw.w) display.w l,
              whole,
            )
            (runs draw.w (omega arith))
      | no nl ↦
          let cut : visible display draw ≡ display.w - draw.x = ground arith in
          let len_int = as_int-sub display.w draw.x fits.screen (omega (arith, fits.width)) in
          rw
            (
              add_pos draw.x draw.w,
              end_int,
              ltb_ℤ-pos (draw.x + draw.w) display.w,
              lt_false {a = draw.x + draw.w} {b = display.w} (omega (arith, nl)),
              len_int,
              pos_part-sub display.w draw.x,
              cut,
            )
            (runs (display.w - draw.x) (omega arith))
    ]
