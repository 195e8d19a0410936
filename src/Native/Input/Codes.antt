-- ===== src/Native/Input/Codes.antt =====
-- What the keyboard register of am/src/native/ioe/input.c shows of a key code.
use Prim.Native.Nat.{bit_and, bit_or, ◌/◌, ◌%◌}
use openperf_abstract_machin.Prelude.{ℕ, ◌+◌, ◌*◌, ◌^◌, ◌<◌, ◌≡◌, Bool, true, false, arith}
use openperf_abstract_machin.Prelude.Bits.{
  bit_and_field, bit_and_split, bit_and_low, bit_or_fields_right, bit_or-zero,
}
use openperf_abstract_machin.Native.Input.{am_code, decode}

down_bit : (k : ℕ) → bit_and k 0x8000 ≡ k / 2 ^ 15 % 2 * 2 ^ 15
down_bit k = bit_and_field 15 1 k

code_bits : (k : ℕ) → k < 2 ^ 16 → bit_and k 0xffff_7fff ≡ k % 2 ^ 15
code_bits k h = omega (
  arith,
  bit_and_split 16 0xffff 0x7fff k (omega arith),
  bit_and_low 16 (k / 2 ^ 16),
  bit_and_low 15 (k % 2 ^ 16),
)

-- For a key code below 2 ^ 15 the register shows the key and the direction, up or down, that the
-- event had.
pub decode-am_code :
    (key : ℕ) (keydown : Bool)
    → key < 2 ^ 15
    → decode (am_code key keydown) ≡ record { keydown = keydown; keycode = key }
unfolding decode am_code
decode-am_code key true h =
    let k : bit_or key 0x8000 ≡ 0x8000 + key = omega (arith, bit_or_fields_right 15 1 key h) in
    rw k (ground (arith, down_bit (0x8000 + key), code_bits (0x8000 + key)))
decode-am_code key false h =
    let k : bit_or key 0 ≡ key = bit_or-zero key in
    rw k (ground (arith, down_bit key, code_bits key))
