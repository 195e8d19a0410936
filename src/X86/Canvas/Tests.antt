-- ===== src/X86/Canvas/Tests.antt =====
-- A subtree of two by two pixels with one texture.
use openperf_abstract_machin.Prelude.{
  ℕ, ◌+◌, ◌*◌, ◌^◌, ◌≡◌, refl, some, Memory, List, [], ◌∷◌, ◌==◌, if◌then◌else◌, ◌>>=◌,
}
use openperf_abstract_machin.X86.Canvas.{
  clear_bytes, vbuf_alloc, copy_pixel, draw_cells, draw_columns, render_children, render,
  gpu_render,
}

-- Some bytes, and nines elsewhere.
bytes_from : List (ℕ × ℕ) → Memory
bytes_from [] a = 9
bytes_from ((at, v) ∷ rest) a = if a == at then v else bytes_from rest a

-- The root is at 0 of `vmem`, which is at 0x1000, its child at 0x20, and the child's pixel at 0x40.
abbrev tree : List (ℕ × ℕ)
tree =
    (0x1000, 2)
    ∷ (0x1001, 0)
    ∷ (0x1002, 2)
    ∷ (0x1003, 0)
    ∷ (0x1004, 2)
    ∷ (0x1005, 0)
    ∷ (0x1006, 0)
    ∷ (0x1007, 0)
    ∷ (0x1008, 0)
    ∷ (0x1009, 0)
    ∷ (0x100a, 2)
    ∷ (0x100b, 0)
    ∷ (0x100c, 2)
    ∷ (0x100d, 0)
    ∷ (0x1012, 0x20)
    ∷ (0x1013, 0)
    ∷ (0x1014, 0)
    ∷ (0x1015, 0)
    ∷ (0x1020, 1)
    ∷ (0x1021, 0)
    ∷ (0x1026, 1)
    ∷ (0x1027, 0)
    ∷ (0x1028, 0)
    ∷ (0x1029, 0)
    ∷ (0x102a, 1)
    ∷ (0x102b, 0)
    ∷ (0x102c, 1)
    ∷ (0x102d, 0)
    ∷ (0x102e, 255)
    ∷ (0x102f, 255)
    ∷ (0x1030, 255)
    ∷ (0x1031, 255)
    ∷ (0x1032, 1)
    ∷ (0x1033, 0)
    ∷ (0x1034, 1)
    ∷ (0x1035, 0)
    ∷ (0x1036, 0x40)
    ∷ (0x1037, 0)
    ∷ (0x1038, 0)
    ∷ (0x1039, 0)
    ∷ (0x1040, 77)
    ∷ []

render_run :
    (gpu_render 3 0x1000 0x9_0000 0x20_0000 4 0 (bytes_from tree) >>= λ m.
    some (m 0x20_0000 + 2 ^ 8 * m 0x20_0003 + 2 ^ 16 * m 0x20_0006))
    ≡ some (2 ^ 8 * 77 + 2 ^ 16 * 9)
unfolding gpu_render render render_children vbuf_alloc clear_bytes draw_columns draw_cells
    copy_pixel bytes_from
render_run = refl
