-- ===== src/Native/Input/Refine.antt =====
-- The key queue of am/src/native/ioe/input.c as a first-in first-out queue.
use mathlib.Core.Path.{ap₂}
use native.Mathlib.Decide.{ℕ_discrete}
use openperf_abstract_machin.Prelude.{
  ℕ, zero, suc, ◌+◌, ◌-◌, ◌%◌, ◌<◌, ◌≡◌, refl, ap, List, [], ◌∷◌, ◌++◌, write, eq_true, eq_false,
  arith,
}
use openperf_abstract_machin.Native.Input.{KeyQueue, key_none, push, pop}

pub record IsValid (q : KeyQueue) : Type 0 where
  pub front_in : q.front < 1024
  pub rear_in : q.rear < 1024

abbrev pub size_of : KeyQueue → ℕ
size_of q = (q.rear + 1024 - q.front) % 1024

-- The `n` codes from index `i` on, round the end of the array.
abbrev pub window : (ℕ → ℕ) → ℕ → ℕ → List ℕ
window cells i zero = []
window cells i (suc n) = cells i ∷ window cells ((i + 1) % 1024) n

abbrev pub contents : KeyQueue → List ℕ
contents q = window q.cells q.front (size_of q)

-- A write behind the window adds to it.
window-write :
    (cells : ℕ → ℕ) (i n j c : ℕ)
    → i < 1024
    → n < 1024
    → j ≡ (i + n) % 1024
    → window (write cells j c) i (suc n) ≡ window cells i n ++ (c ∷ [])
window-write cells i zero j c hi hn e = ap (λ x. x ∷ []) (ground arith)
window-write cells i (suc n) j c hi hn e =
    ap₂ ◌∷◌ (ground arith)
      (window-write cells ((i + 1) % 1024) n j c (omega arith) (omega arith) (omega arith))

-- On a valid key queue with less than 1023 codes waiting, an event appends its code behind those
-- waiting, and the queue stays valid.
pub push-contents :
    (q : KeyQueue) (c : ℕ)
    → IsValid q
    → size_of q < 1023
    → IsValid (push q c) × (contents (push q c) ≡ contents q ++ (c ∷ []))
unfolding push
push-contents q c v room =
    let more : size_of (push q c) ≡ suc (size_of q) = omega arith in
    (
      omega arith,
      rw more (
          window-write q.cells q.front (size_of q) q.rear c v.front_in (omega arith) (omega arith)),
    )

-- On a valid key queue with 1023 codes waiting, one more event loses all of them and itself.
pub push-full : (q : KeyQueue) (c : ℕ) → IsValid q → size_of q ≡ 1023 → contents (push q c) ≡ []
unfolding push
push-full q c v full = let none : size_of (push q c) ≡ 0 = omega arith in rw none refl

-- The first of the waiting codes and the others.
abbrev pub first : List ℕ → ℕ
first [] = key_none
first (c ∷ cs) = c

abbrev pub rest : List ℕ → List ℕ
rest [] = []
rest (c ∷ cs) = cs

-- On a valid key queue a read of the register takes the code that has waited longest and leaves
-- the others in order, or gives AM_KEY_NONE if none waits; the queue stays valid.
pub pop-contents :
    (q : KeyQueue)
    → IsValid q
    → IsValid (pop q).1
      × ((pop q).0 ≡ first (contents q))
      × (contents (pop q).1 ≡ rest (contents q))
unfolding pop
pop-contents q v = elim (ℕ_discrete q.front q.rear) [
  | yes e ↦ let none : size_of q ≡ 0 = omega arith in rw (eq_true e, none) (v, refl, refl)
  | no ne ↦
      let q' : KeyQueue = record q { front = (q.front + 1) % 1024 } in
      let more : size_of q ≡ suc (size_of q') = omega arith in
      rw (eq_false ne, more) (omega arith, refl, refl)
]
