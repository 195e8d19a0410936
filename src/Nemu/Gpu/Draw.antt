-- ===== src/Nemu/Gpu/Draw.antt =====
-- gpu_fbdraw of am/src/platform/nemu/ioe/gpu.c puts a block of pixels where it belongs.
use native.Mathlib.Decide.{ℕ_discrete}
use openperf_abstract_machin.Prelude.{
  ℕ, zero, suc, ◌+◌, ◌-◌, ◌*◌, ◌^◌, ◌≤◌, ◌<◌, ◌≡◌, ◌≢◌, ◌⊎◌, refl, ap, sym, ◌∙◌, arith, Memory,
  write, size, if◌then◌else◌,
}
use openperf_abstract_machin.Nemu.Gpu.{fb_addr, sync_addr, Cursor, draw_row, GpuConfig, GpuFbdraw}

-- The address of the pixel with number `b` on the screen.
abbrev pub pixel_addr : ℕ → ℕ
pixel_addr b = fb_addr + 4 * b

-- The `n` pixels of the screen have addresses, and the source lies outside of them.
abbrev pub Apart : ℕ → ℕ → ℕ → Type 0
Apart n pixels k = (pixels + 4 * k ≤ fb_addr) ⊎ (pixel_addr n ≤ pixels)

-- What a row writes.
pub record Row (n pixels p b : ℕ) (m : Memory) (s : Cursor) : Type 0 where
  pub next_pixel : s.pixel_idx ≡ p + n
  pub next_buffer : s.buffer_idx ≡ b + n
  pub drawn : (j : ℕ) → j < n → s.words (pixel_addr (b + j)) ≡ m (pixels + 4 * (p + j))
  pub kept : (a : ℕ) → (a < pixel_addr b) ⊎ (pixel_addr (b + n) ≤ a) → s.words a ≡ m a

pub draw_row_lem :
    (n pixels p b screen : ℕ) (m : Memory)
    → pixel_addr screen ≤ 2 ^ 32
    → b + n ≤ screen
    → p + n < 2 ^ 32
    → Apart screen pixels (p + n)
    → Row n pixels p b m (draw_row n pixels (record { pixel_idx = p; buffer_idx = b; words = m }))
unfolding draw_row
draw_row_lem zero pixels p b screen m fit room small apart = record {
  next_pixel = omega arith;
  next_buffer = omega arith;
  drawn = λ j l. absurd (omega arith);
  kept = λ a h. refl;
}
draw_row_lem (suc n) pixels p b screen m fit room small apart =
    let m' = write m (pixel_addr b) (m (pixels + 4 * p)) in
    let ih =
      draw_row_lem n pixels (p + 1) (b + 1) screen m' fit (omega arith) (omega arith)
        (omega arith) in
    let e1 : size (p + 1) ≡ p + 1 = omega arith in
    let e2 : size (b + 1) ≡ b + 1 = omega arith in
    let e3 : size (pixel_addr b) ≡ pixel_addr b = omega arith in
    rw (e1, e2, e3)
      (record {
        next_pixel = omega (arith, ih.next_pixel);
        next_buffer = omega (arith, ih.next_buffer);
        drawn = λ j l. elim (ℕ_discrete j 0) [
          | yes e ↦ ih.kept (pixel_addr (b + j)) (omega arith) ∙ ground arith
          | no ne ↦
              let at : b + 1 + (j - 1) ≡ b + j = omega arith in
              let from : p + 1 + (j - 1) ≡ p + j = omega arith in
              ap
                (λ i.
                  (draw_row n pixels
                      (record { pixel_idx = p + 1; buffer_idx = b + 1; words = m' })).words
                    (pixel_addr i))
                (sym at)
              ∙ ih.drawn (j - 1) (omega arith)
              ∙ ap (λ i. m' (pixels + 4 * i)) from
              ∙ ground arith
        ];
        kept = λ a h. ih.kept a (omega arith) ∙ ground arith;
      })

-- What `n` rows write.
record Rows (n width w pixels p b : ℕ) (m v : Memory) : Type 0 where
  drawn :
      (i j : ℕ)
      → i < n
      → j < w
      → v (pixel_addr (b + i * width + j)) ≡ m (pixels + 4 * (p + i * w + j))
  kept :
      (a : ℕ)
      → ((i : ℕ) → i < n → (a < pixel_addr (b + i * width)) ⊎ (pixel_addr (b + i * width + w) ≤ a))
      → v a ≡ m a

-- The block lies on a screen of the configured width and height, which is small enough for the
-- part of the address space behind `fb_addr`, and apart from the pixels that are drawn.
pub record IsBlock (cfg : GpuConfig) (ctl : GpuFbdraw) : Type 0 where
  pub width_fits : cfg.width < 2 ^ 16
  pub screen_fits : pixel_addr (cfg.height * cfg.width) ≤ 2 ^ 32
  pub right : ctl.x + ctl.w ≤ cfg.width
  pub below : ctl.y + ctl.h ≤ cfg.height
  pub source_fits : ctl.h * ctl.w < 2 ^ 32
  pub apart : Apart (cfg.height * cfg.width) ctl.pixels (ctl.h * ctl.w)

-- Each pixel of the block is at its place on the screen, and the rest of the memory is as before,
-- but for the word that starts the synchronization, where that is asked for.
pub record Drawn (cfg : GpuConfig) (ctl : GpuFbdraw) (m v : Memory) : Type 0 where
  pub pixels :
      (i j : ℕ)
      → i < ctl.h
      → j < ctl.w
      → v (pixel_addr ((ctl.y + i) * cfg.width + (ctl.x + j)))
        ≡ m (ctl.pixels + 4 * (i * ctl.w + j))
  pub rest :
      (a : ℕ)
      → a ≢ sync_addr
      → ((i : ℕ)
          → i < ctl.h
          → (a < pixel_addr ((ctl.y + i) * cfg.width + ctl.x))
            ⊎ (pixel_addr ((ctl.y + i) * cfg.width + (ctl.x + ctl.w)) ≤ a))
      → v a ≡ m a
  pub synced : v sync_addr ≡ (if ctl.sync then 1 else m sync_addr)
