-- ===== src/X86/Gpu/Draw.antt =====
-- gpu_fbdraw of am/src/x86/qemu/ioe.c draws the part of a block that is on the screen.
use native.Mathlib.Decide.{ℕ_discrete, dec_lt}
use openperf_abstract_machin.Prelude.{
  ℕ, ◌+◌, ◌-◌, ◌*◌, ◌%◌, ◌^◌, ◌≤◌, ◌<◌, ◌≡◌, ◌⊎◌, inl, inr, ap, sym, ◌∙◌, arith, some, Memory,
}
use openperf_abstract_machin.Prelude.Grid.{row_before}
use openperf_abstract_machin.X86.Gpu.{Display, gpu_fbdraw}
use openperf_abstract_machin.X86.Gpu.Ints.{to_ints, visible, Fits, gpu_fbdraw-place_lines}
use openperf_abstract_machin.X86.Gpu.Lines.{
  Placed, place_lines, colour, colour_kept, row_start, Block, place_lines_lem,
}

-- The part of the screen that a block covers.
abbrev pub Covered : Placed → ℕ → ℕ → Type 0
Covered draw x y = (draw.x ≤ x) × (x < draw.x + draw.w) × (draw.y ≤ y) × (y < draw.y + draw.h)

pub record Drawn (display : Display) (draw : Placed) (fb fb' : Memory) : Type 0 where
  pub covered :
      (x y : ℕ)
      → x < display.w
      → y < display.h
      → Covered draw x y
      → colour fb' (x + y * display.w) ≡ draw.pixels ((y - draw.y) * draw.w + (x - draw.x)) % 2 ^ 24
  pub uncovered :
      (x y : ℕ)
      → x < display.w
      → y < display.h
      → ¬ Covered draw x y
      → colour fb' (x + y * display.w) ≡ colour fb (x + y * display.w)
  pub off_screen : (a : ℕ) → 3 * (display.h * display.w) ≤ a → fb' a ≡ fb a

-- A row of the block ends before the rows below it start.
row_end :
    (len : ℕ) (display : Display) (draw : Placed) (r s : ℕ)
    → (len ≡ 0) ⊎ (draw.x + len ≤ display.w)
    → r < s
    → (len ≡ 0) ⊎ (draw.x + r * display.w + len ≤ s * display.w)
row_end len display draw r s fits l = elim (ℕ_discrete len 0) [
  | yes e ↦ inl e
  | no ne ↦ let before = row_before s display.w r (draw.x + len - 1) l (omega arith) in omega arith
]

Block-Drawn :
    (len : ℕ) (display : Display) (draw : Placed) (fits : (len ≡ 0) ⊎ (draw.x + len ≤ display.w))
    (fb fb' : Memory)
    → ((display.w ≤ draw.x + draw.w) × (len ≡ display.w - draw.x))
      ⊎ ((draw.x + draw.w < display.w) × (len ≡ draw.w))
    → Block len display draw fits draw.h 0 0 fb fb'
    → Drawn display draw fb fb'
Block-Drawn len display draw fits fb fb' part block = record {
  covered = λ x y lx ly c.
      let (x0, x1, y0, y1) = c in
      let row : 0 + (y - draw.y) + draw.y ≡ y = omega arith in
      let at : draw.x + (0 + (y - draw.y) + draw.y) * display.w + (x - draw.x) ≡ x + y * display.w =
        ap (λ r. draw.x + r * display.w + (x - draw.x)) row ∙ omega arith in
      let from : 0 + (y - draw.y) * draw.w + (x - draw.x) ≡ (y - draw.y) * draw.w + (x - draw.x) =
        omega arith in
      ap (colour fb') (sym at)
      ∙ block.drawn (y - draw.y) (x - draw.x) (omega arith) (omega arith) (omega arith)
      ∙ ap (λ q. draw.pixels q % 2 ^ 24) from;
  uncovered = λ x y lx ly n.
      colour_kept (x + y * display.w) fb fb' (λ a lo hi. block.kept a (outside x y lx n a lo hi));
  off_screen = λ a l. block.kept a (λ k lk on.
      let before = row_end len display draw (0 + k + draw.y) display.h fits (omega arith) in
      omega arith);
}
  where
    same_row :
        (x y r : ℕ)
        → ¬ Covered draw x y
        → r < draw.y + draw.h
        → draw.y ≤ r
        → y ≡ r
        → (x < draw.x) ⊎ (draw.x + draw.w ≤ x)
    same_row x y r n up lo e = elim (dec_lt x draw.x) [
      | yes l ↦ inl l
      | no nl ↦ elim (dec_lt x (draw.x + draw.w)) [
        | yes l ↦ absurd (n (omega arith, l, omega arith, omega arith))
        | no nl' ↦ inr (omega arith)
      ]
    ]

    outside :
        (x y : ℕ)
        → x < display.w
        → ¬ Covered draw x y
        → (a : ℕ) → 3 * (x + y * display.w) ≤ a
        → a < 3 * (x + y * display.w) + 3
        → (k : ℕ) → k < draw.h
        → draw.y + (0 + k) < display.h
        → (a < 3 * row_start len display draw fits (0 + k))
          ⊎ (3 * (row_start len display draw fits (0 + k) + len) ≤ a)
    outside x y lx n a lo hi k lk on = elim (ℕ_discrete y (0 + k + draw.y)) [
      | yes e ↦
          let side = same_row x y (0 + k + draw.y) n (omega arith) (omega arith) e in
          let row = ap (λ r. r * display.w) e in omega arith
      | no ne ↦ elim (dec_lt y (0 + k + draw.y)) [
        | yes l ↦ let before = row_before (0 + k + draw.y) display.w y x l lx in omega arith
        | no nl ↦
            let before = row_end len display draw (0 + k + draw.y) y fits (omega arith) in
            omega arith
      ]
    ]

place_lines-Drawn :
    (display : Display) (draw : Placed) (fb : Memory)
    → Drawn display draw fb (place_lines draw.h 0 0 (visible display draw) display draw fb)
place_lines-Drawn display draw fb =
    Block-Drawn len display draw (omega (arith, part)) fb _ part
      (place_lines_lem len display draw (omega (arith, part)) draw.h 0 0 fb)
  where
    len : ℕ
    len = visible display draw

    part :
        ((display.w ≤ draw.x + draw.w) × (len ≡ display.w - draw.x))
        ⊎ ((draw.x + draw.w < display.w) × (len ≡ draw.w))
    part = ground arith

-- On a block whose place and size are not negative, with sums that an `int` holds, gpu_fbdraw
-- returns, and shows on each pixel of the screen that the block covers the colour that the block has
-- there, in 24 bits; it leaves each other pixel of the screen, and everything behind the last pixel,
-- as it was, also where the block reaches over the right or lower edge.
pub gpu_fbdraw-Drawn :
    (display : Display) (draw : Placed) (fb : Memory)
    → Fits display draw
    → (fb' : Memory) × (gpu_fbdraw display (to_ints draw) fb ≡ some fb') × Drawn display draw fb fb'
gpu_fbdraw-Drawn display draw fb fits = (
  place_lines draw.h 0 0 (visible display draw) display draw fb,
  gpu_fbdraw-place_lines display draw fb fits,
  place_lines-Drawn display draw fb,
)
