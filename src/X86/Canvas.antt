-- ===== src/X86/Canvas.antt =====
-- The texture canvas of am/src/x86/qemu/ioe.c. All arrays are in one memory of bytes; `vmem` and
-- `vbuf` are their addresses. A panic is `none`, and so is a tree that is deeper or wider than the
-- fuel. The products of sizes fit into `int`; the bound of a loop is read once, at its start.
mod Tests
use openperf_abstract_machin.Prelude.{
  ℕ, zero, suc, ◌+◌, ◌*◌, ◌/◌, ◌^◌, Bool, Option, none, some, Memory, write, ltb, ◌==◌,
  if◌then◌else◌, ◌>>=◌,
}
use openperf_abstract_machin.X86.Ports.{load_word}
use openperf_abstract_machin.X86.Boot.{load_half}
use openperf_abstract_machin.X86.Gpu.{vmem_size, to_host}

abbrev pub gpu_texture : ℕ
gpu_texture = 1

abbrev pub gpu_subtree : ℕ
gpu_subtree = 2

-- The memory, and `vbuf_head`.
pub record Canvas : Type 0 where
  pub bytes : Memory
  pub vbuf_head : ℕ

-- The loop of vbuf_alloc, with the number of bytes left.
pub clear_bytes : ℕ → ℕ → ℕ → Memory → Memory
clear_bytes zero i ret m = m
clear_bytes (suc n) i ret m = clear_bytes n (i + 1) ret (write m (ret + i) 0)

pub vbuf_alloc : ℕ → ℕ → Canvas → Option (ℕ × Canvas)
vbuf_alloc vbuf n s =
    let ret = s.vbuf_head in
    if ltb (vbuf + vmem_size) (ret + n)
    then none
    else some (ret, record { bytes = clear_bytes n 0 ret s.bytes; vbuf_head = ret + n })

-- The assignment of a `struct pixel`.
pub copy_pixel : ℕ → ℕ → Memory → Memory
copy_pixel dst src m =
    write (write (write m dst (m src)) (dst + 1) (m (src + 1))) (dst + 2) (m (src + 2))

-- A node at `cv` is drawn from its own pixels, `w` by `h` of them.
module _ (cv w h px_local width px : ℕ) where
  -- The loop over `j`, with the number of rounds left.
  pub draw_cells : ℕ → ℕ → ℕ → Memory → Memory
  draw_cells zero i j m = m
  draw_cells (suc n) i j m =
      let x = load_half m (cv + 6) + i in
      let y = load_half m (cv + 8) + j in
      let row = j * h / load_half m (cv + 12) in
      let column = i * w / load_half m (cv + 10) in
      draw_cells n i (j + 1)
        (copy_pixel (px + 3 * (width * y + x)) (px_local + 3 * (w * row + column)) m)

  -- The loop over `i`, with the number of rounds left.
  pub draw_columns : ℕ → ℕ → Memory → Memory
  draw_columns zero i m = m
  draw_columns (suc n) i m = draw_columns n (i + 1) (draw_cells (load_half m (cv + 12)) i 0 m)

-- The loop over the children, where `draw` renders one.
pub render_children : ℕ → ℕ → (ℕ → Canvas → Option Canvas) → ℕ → Canvas → Option Canvas
render_children zero vmem draw ch s = none
render_children (suc fuel) vmem draw ch s =
    let rest : Option Canvas =
      (draw ch s >>= λ s'.
      render_children fuel vmem draw (to_host vmem (load_word s'.bytes (ch + 14))) s') in
    if ch == 0 then some s else rest

-- `struct gpu_canvas` is packed: type, w, h, x1, y1, w1 and h1, then sibling at 14 and child at 18,
-- where the texture has w, h and pixels. `width` is the width of the parent.
pub render : ℕ → ℕ → ℕ → ℕ → ℕ → ℕ → Canvas → Option Canvas
render zero vmem vbuf cv width px s = none
render (suc fuel) vmem vbuf cv width px s =
    let m = s.bytes in
    let kind = load_half m cv in
    let draw_node : ℕ → ℕ → ℕ → Canvas → Canvas = λ w h px_local s'. record s' {
      bytes = draw_columns cv w h px_local width px (load_half s'.bytes (cv + 10)) 0 s'.bytes;
    } in
    let w = load_half m (cv + 2) in
    let h = load_half m (cv + 4) in
    let subtree : Option Canvas = (do
      (px_local, s1) ← vbuf_alloc vbuf (w * h * 3) s
      s2 ←
          render_children fuel vmem (λ ch s'. render fuel vmem vbuf ch w px_local s')
            (to_host vmem (load_word s1.bytes (cv + 18))) s1
      some (draw_node w h px_local s2)) in
    if kind == gpu_texture
    then some (
        draw_node (load_half m (cv + 18)) (load_half m (cv + 20))
          (to_host vmem (load_word m (cv + 22))) s)
    else if kind == gpu_subtree
    then subtree
    else none

pub gpu_render : ℕ → ℕ → ℕ → ℕ → ℕ → ℕ → Memory → Option Memory
gpu_render fuel vmem vbuf fb width root m = do
  s ← render fuel vmem vbuf (to_host vmem root) width fb (record { bytes = m; vbuf_head = vbuf })
  some s.bytes
