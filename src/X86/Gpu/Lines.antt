-- ===== src/X86/Gpu/Lines.antt =====
-- What the loops of gpu_fbdraw of am/src/x86/qemu/ioe.c draw.
use mathlib.Core.Path.{subst}
use native.Mathlib.Nat.{suc-mul, add-mul}
use native.Mathlib.Decide.{ℕ_discrete, dec_lt}
use openperf_abstract_machin.Prelude.{
  ℕ, zero, suc, ◌+◌, ◌-◌, ◌*◌, ◌%◌, ◌^◌, ◌≤◌, ◌<◌, ◌≡◌, ◌⊎◌, inl, refl, ap, ◌∙◌, arith, Memory, ltb,
  lt→ltb, lt_false, if◌then◌else◌,
}
use openperf_abstract_machin.X86.Gpu.{Display, draw_line, put_pixel}

-- A block at a place that is not negative.
pub record Placed : Type 0 where
  pub x : ℕ
  pub y : ℕ
  pub pixels : ℕ → ℕ
  pub w : ℕ
  pub h : ℕ

-- The rows of such a block that are not below the screen.
unfoldable pub place_lines : ℕ → ℕ → ℕ → ℕ → Display → Placed → Memory → Memory
place_lines zero j at len display draw fb = fb
place_lines (suc n) j at len display draw fb =
    let drawn : Memory = draw_line len at (draw.x + (j + draw.y) * display.w) draw.pixels fb in
    place_lines n (j + 1) (at + draw.w) len display draw
      (if ltb (draw.y + j) display.h then drawn else fb)

-- The colour of a pixel in 24 bits.
abbrev pub colour : Memory → ℕ → ℕ
colour fb px = fb (3 * px) + 2 ^ 8 * fb (3 * px + 1) + 2 ^ 16 * fb (3 * px + 2)

-- What a line writes.
pub record Line (n i px : ℕ) (pixels : ℕ → ℕ) (fb fb' : Memory) : Type 0 where
  pub drawn : (k : ℕ) → k < n → colour fb' (px + k) ≡ pixels (i + k) % 2 ^ 24
  pub kept : (a : ℕ) → (a < 3 * px) ⊎ (3 * (px + n) ≤ a) → fb' a ≡ fb a

pub colour_put : (px p : ℕ) (fb : Memory) → colour (put_pixel px p fb) px ≡ p % 2 ^ 24
colour_put px p fb = ground arith

pub colour_kept :
    (q : ℕ) (fb fb' : Memory)
    → ((a : ℕ) → 3 * q ≤ a → a < 3 * q + 3 → fb' a ≡ fb a)
    → colour fb' q ≡ colour fb q
colour_kept q fb fb' h = omega (
  arith,
  h (3 * q) (omega arith) (omega arith),
  h (3 * q + 1) (omega arith) (omega arith),
  h (3 * q + 2) (omega arith) (omega arith),
)

pub draw_line_lem :
    (n i px : ℕ) (pixels : ℕ → ℕ) (fb : Memory) → Line n i px pixels fb (draw_line n i px pixels fb)
unfolding draw_line
draw_line_lem zero i px pixels fb = record {
  drawn = λ k l. absurd (omega arith);
  kept = λ a o. refl;
}
draw_line_lem (suc n) i px pixels fb =
    let fb1 = put_pixel px (pixels i) fb in
    let fb2 = draw_line n (i + 1) (px + 1) pixels fb1 in
    let ih = draw_line_lem n (i + 1) (px + 1) pixels fb1 in
    record {
      drawn = λ k l. elim (ℕ_discrete k 0) [
        | yes e ↦
            let here : px + k ≡ px = omega arith in
            let from : i ≡ i + k = omega arith in
            ap (colour fb2) here
            ∙ colour_kept px fb1 fb2 (λ a lo hi. ih.kept a (omega arith))
            ∙ colour_put px (pixels i) fb
            ∙ ap (λ j. pixels j % 2 ^ 24) from
        | no ne ↦
            let at : px + k ≡ px + 1 + (k - 1) = omega arith in
            let from : i + 1 + (k - 1) ≡ i + k = omega arith in
            ap (colour fb2) at ∙ ih.drawn (k - 1) (omega arith) ∙ ap (λ j. pixels j % 2 ^ 24) from
      ];
      kept = λ a o. ih.kept a (omega arith) ∙ ground arith;
    }

module _ (len : ℕ) (display : Display) (draw : Placed)
    (fits : (len ≡ 0) ⊎ (draw.x + len ≤ display.w)) where
  -- The first pixel of row `j` of the block.
  abbrev pub row_start : ℕ → ℕ
  row_start j = draw.x + (j + draw.y) * display.w

  -- What `n` rows from row `j` on write.
  pub record Block (n j at : ℕ) (fb fb' : Memory) : Type 0 where
    pub drawn :
        (k i : ℕ)
        → k < n
        → i < len
        → draw.y + (j + k) < display.h
        → colour fb' (row_start (j + k) + i) ≡ draw.pixels (at + k * draw.w + i) % 2 ^ 24
    pub kept :
        (a : ℕ)
        → ((k : ℕ)
            → k < n
            → draw.y + (j + k) < display.h
            → (a < 3 * row_start (j + k)) ⊎ (3 * (row_start (j + k) + len) ≤ a))
        → fb' a ≡ fb a

  -- The row that the loop draws, when it is on the screen.
  abbrev pub drawn_row : ℕ → ℕ → Memory → Memory
  drawn_row j at fb =
      if ltb (draw.y + j) display.h then draw_line len at (row_start j) draw.pixels fb else fb

  pub record First (j at : ℕ) (fb fb' : Memory) : Type 0 where
    pub first_drawn :
        (i : ℕ)
        → i < len
        → draw.y + j < display.h
        → colour fb' (row_start j + i) ≡ draw.pixels (at + i) % 2 ^ 24
    pub first_kept :
        (a : ℕ)
        → (draw.y + j < display.h → (a < 3 * row_start j) ⊎ (3 * (row_start j + len) ≤ a))
        → fb' a ≡ fb a

  pub first_lem : (j at : ℕ) (fb : Memory) → First j at fb (drawn_row j at fb)
  first_lem j at fb = elim (dec_lt (draw.y + j) display.h) [
    | yes l ↦
        let line = draw_line_lem len at (row_start j) draw.pixels fb in
        rw (lt→ltb (draw.y + j) display.h l) (record {
          first_drawn = λ i li on. line.drawn i li;
          first_kept = λ a o. line.kept a (o l);
        })
    | no nl ↦
        rw (lt_false {a = draw.y + j} {b = display.h} (omega (arith, nl)))
          (record { first_drawn = λ i li on. absurd (nl on); first_kept = λ a o. refl })
  ]

  pub Block-suc :
      (n j at : ℕ) (fb fb1 fb' : Memory)
      → First j at fb fb1
      → Block n (j + 1) (at + draw.w) fb1 fb'
      → Block (suc n) j at fb fb'
  Block-suc n j at fb fb1 fb' first rest = record {
    drawn = drawn_rows;
    kept = λ a h.
        rest.kept a (λ k l on.
          let same : j + suc k ≡ j + 1 + k = omega arith in
          subst (λ r. (a < 3 * row_start r) ⊎ (3 * (row_start r + len) ≤ a)) same
            (h (suc k) (omega arith) (omega arith)))
        ∙ first.first_kept a (λ on.
          let same : j + 0 ≡ j = omega arith in
          subst (λ r. (a < 3 * row_start r) ⊎ (3 * (row_start r + len) ≤ a)) same
            (h 0 (omega arith) (omega arith)));
  }
    where
      apart : (k i : ℕ) → i < len → 3 * (row_start j + len) ≤ 3 * (row_start (j + 1 + k) + i)
      apart k i l =
          let more : (j + 1 + k + draw.y) * display.w
              ≡ (j + draw.y) * display.w + suc k * display.w =
            ap (λ r. r * display.w) (omega arith) ∙ add-mul (j + draw.y) (suc k) display.w in
          omega (arith, more, suc-mul k display.w, fits)

      drawn_rows :
          (k i : ℕ)
          → k < suc n
          → i < len
          → draw.y + (j + k) < display.h
          → colour fb' (row_start (j + k) + i) ≡ draw.pixels (at + k * draw.w + i) % 2 ^ 24
      drawn_rows zero i lk li on =
          let same : row_start (j + 0) + i ≡ row_start j + i =
            ap (λ r. row_start r + i) (omega arith) in
          let from : at + i ≡ at + 0 * draw.w + i = omega arith in
          ap (colour fb') same
          ∙ colour_kept (row_start j + i) fb1 fb'
              (λ a lo hi. rest.kept a (λ k l on'. inl (omega (arith, apart k 0 (omega arith)))))
          ∙ first.first_drawn i li (omega arith)
          ∙ ap (λ q. draw.pixels q % 2 ^ 24) from
      drawn_rows (suc k) i lk li on =
          let same : row_start (j + suc k) + i ≡ row_start (j + 1 + k) + i =
            ap (λ r. row_start r + i) (omega arith) in
          let from : at + draw.w + k * draw.w + i ≡ at + suc k * draw.w + i =
            omega (arith, suc-mul k draw.w) in
          ap (colour fb') same
          ∙ rest.drawn k i (omega arith) li (omega arith)
          ∙ ap (λ q. draw.pixels q % 2 ^ 24) from

  pub place_lines_lem :
      (n j at : ℕ) (fb : Memory) → Block n j at fb (place_lines n j at len display draw fb)
  unfolding place_lines
  place_lines_lem zero j at fb = record {
    drawn = λ k i l. absurd (omega arith);
    kept = λ a h. refl;
  }
  place_lines_lem (suc n) j at fb =
      Block-suc n j at fb (drawn_row j at fb) (place_lines (suc n) j at len display draw fb)
        (first_lem j at fb) (place_lines_lem n (j + 1) (at + draw.w) (drawn_row j at fb))
