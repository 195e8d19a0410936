-- ===== src/X86/Ioe.antt =====
-- The serial port and the keyboard of am/src/x86/qemu/ioe.c.
pub mod Keys
mod Tests
use Prim.Native.Nat.{bit_and}
use openperf_abstract_machin.Prelude.{
  ℕ, zero, suc, ◌+◌, ◌-◌, ◌*◌, ◌/◌, ◌%◌, ◌^◌, Bool, true, false, List, [], ◌∷◌, ltb, ◌==◌,
  if◌then◌else◌,
}
use openperf_abstract_machin.X86.Ports.{Ports}

-- COM1
abbrev pub serial : ℕ
serial = 0x3f8

-- AM_INPUT_KEYBRD_T
pub record KeyEvent : Type 0 where
  pub keydown : Bool
  pub keycode : ℕ

-- The scan codes and the values of AM_KEYS in amdev.h, in the order of the source.
abbrev pub keylut : List (ℕ × ℕ)
keylut =
    (0x01, 1)
    ∷ (0x02, 15)
    ∷ (0x03, 16)
    ∷ (0x04, 17)
    ∷ (0x05, 18)
    ∷ (0x06, 19)
    ∷ (0x07, 20)
    ∷ (0x08, 21)
    ∷ (0x09, 22)
    ∷ (0x0a, 23)
    ∷ (0x0b, 24)
    ∷ (0x0c, 25)
    ∷ (0x0d, 26)
    ∷ (0x0e, 27)
    ∷ (0x0f, 28)
    ∷ (0x10, 29)
    ∷ (0x11, 30)
    ∷ (0x12, 31)
    ∷ (0x13, 32)
    ∷ (0x14, 33)
    ∷ (0x15, 34)
    ∷ (0x16, 35)
    ∷ (0x17, 36)
    ∷ (0x18, 37)
    ∷ (0x19, 38)
    ∷ (0x1a, 39)
    ∷ (0x1b, 40)
    ∷ (0x1c, 54)
    ∷ (0x1d, 67)
    ∷ (0x1e, 43)
    ∷ (0x1f, 44)
    ∷ (0x20, 45)
    ∷ (0x21, 46)
    ∷ (0x22, 47)
    ∷ (0x23, 48)
    ∷ (0x24, 49)
    ∷ (0x25, 50)
    ∷ (0x26, 51)
    ∷ (0x27, 52)
    ∷ (0x28, 53)
    ∷ (0x29, 14)
    ∷ (0x2a, 55)
    ∷ (0x2b, 41)
    ∷ (0x2c, 56)
    ∷ (0x2d, 57)
    ∷ (0x2e, 58)
    ∷ (0x2f, 59)
    ∷ (0x30, 60)
    ∷ (0x31, 61)
    ∷ (0x32, 62)
    ∷ (0x33, 63)
    ∷ (0x34, 64)
    ∷ (0x35, 65)
    ∷ (0x36, 66)
    ∷ (0x38, 69)
    ∷ (0x38, 71)
    ∷ (0x39, 70)
    ∷ (0x3a, 42)
    ∷ (0x3b, 2)
    ∷ (0x3c, 3)
    ∷ (0x3d, 4)
    ∷ (0x3e, 5)
    ∷ (0x3f, 6)
    ∷ (0x40, 7)
    ∷ (0x41, 8)
    ∷ (0x42, 9)
    ∷ (0x43, 10)
    ∷ (0x44, 11)
    ∷ (0x48, 77)
    ∷ (0x4b, 79)
    ∷ (0x4d, 80)
    ∷ (0x50, 78)
    ∷ (0x57, 12)
    ∷ (0x58, 13)
    ∷ (0x5b, 68)
    ∷ []

-- An initializer of a table with a default of 0: a later one replaces an earlier one.
pub lookup_last : ℕ → List (ℕ × ℕ) → ℕ → ℕ
lookup_last code [] found = found
lookup_last code ((c, key) ∷ entries) found =
    lookup_last code entries (if c == code then key else found)

module _ {D : Type 0} (ports : Ports D) where
  pub uart_init : D → D
  uart_init d =
      let d1 = ports.outb (serial + 2) 0 d in
      let d2 = ports.outb (serial + 3) 0x80 d1 in
      let d3 = ports.outb (serial + 0) (115200 / 9600) d2 in
      let d4 = ports.outb (serial + 1) 0 d3 in
      let d5 = ports.outb (serial + 3) 0x03 d4 in
      let d6 = ports.outb (serial + 4) 0 d5 in
      let d7 = ports.outb (serial + 1) 0x01 d6 in
      (ports.inb (serial + 0) (ports.inb (serial + 2) d7).1).1

  pub uart_tx : ℕ → D → D
  uart_tx send d = ports.outb serial send d

  -- A byte; -1 is 0xff in a `char`.
  pub uart_rx : D → ℕ × D
  uart_rx d =
      let status = ports.inb (serial + 5) d in
      if bit_and status.0 0x1 == 0 then (0xff, status.1) else ports.inb serial status.1

  pub input_keybrd : D → KeyEvent × D
  input_keybrd d =
      let status = ports.inb 0x64 d in
      let got = ports.inb 0x60 status.1 in
      let code = bit_and got.0 0xff in
      if bit_and status.0 0x1 == 0 then (record { keydown = false; keycode = 0 }, status.1) else (
        record { keydown = ltb code 128; keycode = lookup_last (bit_and code 0x7f) keylut 0 },
        got.1,
      )
