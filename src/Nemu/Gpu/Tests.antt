-- ===== src/Nemu/Gpu/Tests.antt =====
-- A block of two by two pixels on a screen of four by three, and the theorems at it.
use openperf_abstract_machin.Prelude.{
  ℕ, ◌≡◌, inl, inr, refl, arith, true, false, Memory, List, [], ◌∷◌,
}
use openperf_abstract_machin.Nemu.Gpu.{
  cfg_zero, GpuConfig, GpuFbdraw, gpu_config, draw_row, draw_rows, gpu_fbdraw,
}
use openperf_abstract_machin.Nemu.Gpu.Draw.{pixel_addr}
use openperf_abstract_machin.Nemu.Gpu.Width.{gpu_fbdraw-cfg_zero}

abbrev screen : GpuConfig
screen = record { present = true; has_accel = false; width = 4; height = 3; vmemsz = 12 }

abbrev block : GpuFbdraw
block = record { x = 1; y = 1; pixels = 0x1000; w = 2; h = 2; sync = true }

-- Each word holds its own address.
abbrev addresses : Memory
addresses = λ a. a

config_run :
    gpu_config (λ a. 0x0190_012c)
    ≡ record { present = true; has_accel = false; width = 400; height = 300; vmemsz = 120000 }
unfolding gpu_config
config_run = refl

abbrev four_pixels : Memory → List ℕ
four_pixels m = m (pixel_addr 5) ∷ m (pixel_addr 6) ∷ m (pixel_addr 9) ∷ m (pixel_addr 10) ∷ []

draw_run : four_pixels (gpu_fbdraw screen block addresses) ≡ 0x1000 ∷ 0x1004 ∷ 0x1008 ∷ 0x100c ∷ []
unfolding gpu_fbdraw draw_rows draw_row
draw_run = refl

gpu_fbdraw-cfg_zero_run : gpu_fbdraw cfg_zero block addresses (pixel_addr 5) ≡ pixel_addr 5
gpu_fbdraw-cfg_zero_run =
    gpu_fbdraw-cfg_zero block 12 addresses (pixel_addr 5) (omega arith) (omega arith) (omega arith)
      (inl (omega arith)) (omega arith) (inr (omega arith))
