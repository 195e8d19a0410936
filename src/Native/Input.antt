-- ===== src/Native/Input.antt =====
-- am/src/native/ioe/input.c: the queue between the event thread and the keyboard register.
-- The table from SDL's scancodes to AM's key codes is an argument, since the scancodes are SDL's.
-- The mutex makes each operation one step.
mod Tests
pub mod Refine
pub mod Codes
use Prim.Native.Nat.{bit_and, bit_or}
use openperf_abstract_machin.Prelude.{
  ℕ, ◌+◌, ◌-◌, ◌%◌, Bool, true, false, not, write, ◌==◌, if◌then◌else◌,
}

abbrev pub keydown_mask : ℕ
keydown_mask = 0x8000

abbrev pub key_queue_len : ℕ
key_queue_len = 1024

-- AM_KEY_NONE
abbrev pub key_none : ℕ
key_none = 0

-- `key_queue`, `key_f` and `key_r`.
pub record KeyQueue : Type 0 where
  pub cells : ℕ → ℕ
  pub front : ℕ
  pub rear : ℕ

pub empty_queue : KeyQueue
empty_queue = record { cells = λ i. 0; front = 0; rear = 0 }

pub am_code : ℕ → Bool → ℕ
am_code key keydown = bit_or key (if keydown then keydown_mask else 0)

pub push : KeyQueue → ℕ → KeyQueue
push q code = record q { cells = write q.cells q.rear code; rear = (q.rear + 1) % key_queue_len }

-- SDL_KEYDOWN and SDL_KEYUP in the event thread; the result says whether an interrupt is sent.
pub key_event : (ℕ → ℕ) → KeyQueue → ℕ → Bool → KeyQueue × Bool
key_event keymap q scancode keydown =
    if keymap scancode == 0 then (q, false) else (push q (am_code (keymap scancode) keydown), true)

-- The critical section of `__am_input_keybrd`.
pub pop : KeyQueue → ℕ × KeyQueue
pop q =
    if q.front == q.rear
    then (key_none, q)
    else (q.cells q.front, record q { front = (q.front + 1) % key_queue_len })

-- AM_INPUT_KEYBRD_T
pub record Keybrd : Type 0 where
  pub keydown : Bool
  pub keycode : ℕ

pub decode : ℕ → Keybrd
decode k = record {
  keydown = not (bit_and k keydown_mask == 0);
  keycode = bit_and k (0xffff_ffff - keydown_mask);
}

-- `__am_input_keybrd`
pub input_keybrd : KeyQueue → Keybrd × KeyQueue
unfolding decode pop
input_keybrd q = let (k, q') = pop q in (decode k, q')
