-- ===== src/X86/Ioe/Keys.antt =====
-- input_keybrd of am/src/x86/qemu/ioe.c: the event of a key.
use Prim.Native.Nat.{bit_and}
use native.Mathlib.Decide.{ℕ_discrete}
use openperf_abstract_machin.Prelude.{
  ℕ, zero, suc, ◌%◌, ◌^◌, ◌<◌, ◌≡◌, ◌≢◌, refl, ap, sym, ◌∙◌, arith, Bool, true, ltb, ◌==◌, ◌&&◌,
  ◌||◌, not,
}
use openperf_abstract_machin.Prelude.Bits.{bit_and_field}
use openperf_abstract_machin.X86.Ports.{Ports}
use openperf_abstract_machin.X86.Ioe.{keylut, lookup_last, input_keybrd, KeyEvent}

-- No two arguments below a bound have the same value, unless it is 0.
abbrev distinct_from : (ℕ → ℕ) → ℕ → ℕ → Bool
distinct_from f zero k = true
distinct_from f (suc n) k = (n == k || f n == 0 || not (f n == f k)) && distinct_from f n k

abbrev distinct_below : (ℕ → ℕ) → ℕ → ℕ → Bool
distinct_below f n zero = true
distinct_below f n (suc k) = distinct_from f n k && distinct_below f n k

distinct_from_lem :
    (f : ℕ → ℕ) (n i k : ℕ) → distinct_from f n k ≡ true → i < n → f i ≢ 0 → f i ≡ f k → i ≡ k
distinct_from_lem f zero i k all l key same = absurd (omega arith)
distinct_from_lem f (suc n) i k all l key same = elim (ℕ_discrete i n) [
  | yes e ↦ let here : f i ≡ f n = ap f e in ground arith
  | no ne ↦ distinct_from_lem f n i k (ground arith) (omega arith) key same
]

distinct_below_lem :
    (f : ℕ → ℕ) (n m i k : ℕ)
    → distinct_below f n m ≡ true
    → i < n
    → k < m
    → f i ≢ 0
    → f i ≡ f k
    → i ≡ k
distinct_below_lem f n zero i k all l l' key same = absurd (omega arith)
distinct_below_lem f n (suc m) i k all l l' key same = elim (ℕ_discrete k m) [
  | yes e ↦
      let here : f i ≡ f m = same ∙ ap f e in
      distinct_from_lem f n i m (ground arith) l key here ∙ sym e
  | no ne ↦ distinct_below_lem f n m i k (ground arith) l (omega arith) key same
]

-- The key of a scan code.
abbrev pub key_of : ℕ → ℕ
key_of code = lookup_last code keylut 0

keylut-distinct : distinct_below key_of 128 128 ≡ true
unfolding lookup_last
keylut-distinct = refl

-- The event of a byte from the keyboard.
abbrev pub event_of_byte : ℕ → KeyEvent
event_of_byte code = record { keydown = ltb code 128; keycode = key_of (code % 128) }

input_keybrd_run :
    {D : Type 0} (ports : Ports D) (d : D) (code : ℕ)
    → bit_and (ports.inb 0x64 d).0 1 ≡ 1
    → (ports.inb 0x60 (ports.inb 0x64 d).1).0 ≡ code
    → code < 2 ^ 8
    → (input_keybrd ports d).0 ≡ event_of_byte code
unfolding input_keybrd
input_keybrd_run ports d code full got small =
    let whole : bit_and code 0xff ≡ code = omega (arith, bit_and_field 0 8 code) in
    let low : bit_and code 0x7f ≡ code % 128 = omega (arith, bit_and_field 0 7 code) in
    rw (full, got, whole, low) refl

-- Two different bytes from the keyboard give two different events, if the first has a key.
pub input_keybrd-distinct :
    {D : Type 0} (ports : Ports D) (d d' : D) (code code' : ℕ)
    → bit_and (ports.inb 0x64 d).0 1 ≡ 1
    → bit_and (ports.inb 0x64 d').0 1 ≡ 1
    → (ports.inb 0x60 (ports.inb 0x64 d).1).0 ≡ code
    → (ports.inb 0x60 (ports.inb 0x64 d').1).0 ≡ code'
    → code < 2 ^ 8
    → code' < 2 ^ 8
    → code ≢ code'
    → (input_keybrd ports d).0.keycode ≢ 0
    → (input_keybrd ports d).0 ≢ (input_keybrd ports d').0
input_keybrd-distinct ports d d' code code' full full' got got' small small' differ key same =
    let e = input_keybrd_run ports d code full got small in
    let e' = input_keybrd_run ports d' code' full' got' small' in
    let one : event_of_byte code ≡ event_of_byte code' = sym e ∙ same ∙ e' in
    let down : ltb code 128 ≡ ltb code' 128 = ap (λ ev. ev.keydown) one in
    let keys : key_of (code % 128) ≡ key_of (code' % 128) = ap (λ ev. ev.keycode) one in
    let some_key : key_of (code % 128) ≢ 0 = λ z. key (ap (λ ev. ev.keycode) e ∙ z) in
    let low : code % 128 ≡ code' % 128 =
      distinct_below_lem key_of 128 128 (code % 128) (code' % 128) keylut-distinct (omega arith)
        (omega arith) some_key keys in
    differ (same_half code code' down low small small')
  where
    same_half :
        (a b : ℕ) → ltb a 128 ≡ ltb b 128 → a % 128 ≡ b % 128 → a < 2 ^ 8 → b < 2 ^ 8 → a ≡ b
    same_half a b e low l l' = ground arith
