-- ===== src/X86/Ioe/Tests.antt =====
-- Two presses of a key.
use openperf_abstract_machin.Prelude.{ℕ, ◌≡◌, ◌≢◌, refl, arith, ◌==◌, if◌then◌else◌, false}
use openperf_abstract_machin.X86.Ports.{Ports}
use openperf_abstract_machin.X86.Ioe.{input_keybrd, lookup_last}
use openperf_abstract_machin.X86.Ioe.Keys.{input_keybrd-distinct}

-- The state is the byte that waits.
abbrev one_byte : Ports ℕ
one_byte = record {
  inb = λ p d. (if p == 0x64 then 0x1d else d, d);
  inl = λ p d. (0, d);
  outb = λ p v d. d;
  outw = λ p v d. d;
  outl = λ p v d. d;
}

-- The release of A.
release_run : (input_keybrd one_byte 0x9e).0 ≡ record { keydown = false; keycode = 43 }
unfolding input_keybrd lookup_last
release_run = refl

input_keybrd-distinct_run : (input_keybrd one_byte 0x1e).0 ≢ (input_keybrd one_byte 0x9e).0
unfolding input_keybrd lookup_last
input_keybrd-distinct_run =
    input_keybrd-distinct one_byte 0x1e 0x9e 0x1e 0x9e refl refl refl refl (omega arith)
      (omega arith) (omega arith) (omega arith)
