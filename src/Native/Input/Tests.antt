-- ===== src/Native/Input/Tests.antt =====
-- Runs of the key queue, and its theorems at such inputs.
use openperf_abstract_machin.Prelude.{◌≡◌, refl, true, [], ◌∷◌, arith, write}
use openperf_abstract_machin.Native.Input.{
  KeyQueue, empty_queue, am_code, push, pop, key_event, decode, input_keybrd,
}
use openperf_abstract_machin.Native.Input.Refine.{
  IsValid, contents, push-contents, push-full, pop-contents,
}
use openperf_abstract_machin.Native.Input.Codes.{decode-am_code}

-- Two codes round the end of the array.
abbrev waiting : KeyQueue
waiting = record { cells = write (write (λ i. 0) 1023 5) 0 6; front = 1023; rear = 1 }

abbrev nearly_full : KeyQueue
nearly_full = record { cells = λ i. i; front = 1; rear = 0 }

contents-waiting : contents waiting ≡ 5 ∷ 6 ∷ []
contents-waiting = refl

press_run :
    (input_keybrd (key_event (λ s. 43) empty_queue 4 true).0).0
    ≡ record { keydown = true; keycode = 43 }
unfolding input_keybrd key_event push am_code empty_queue
press_run = refl

push-contents_example : IsValid (push waiting 7) × (contents (push waiting 7) ≡ 5 ∷ 6 ∷ 7 ∷ [])
push-contents_example = push-contents waiting 7 (omega arith) (omega arith)

push-full_run : contents (push nearly_full 7) ≡ []
push-full_run = push-full nearly_full 7 (omega arith) refl

pop-contents_example :
    IsValid (pop waiting).1 × ((pop waiting).0 ≡ 5) × (contents (pop waiting).1 ≡ 6 ∷ [])
pop-contents_example = pop-contents waiting (omega arith)

decode-am_code_run : decode (am_code 43 true) ≡ record { keydown = true; keycode = 43 }
decode-am_code_run = decode-am_code 43 true (omega arith)
