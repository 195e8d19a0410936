-- ===== src/Klib/Stdio/Bounds.antt =====
-- vsnprintf of klib/src/stdio.c stays inside its buffer.
use openperf_abstract_machin.Prelude.{
  ℕ, zero, suc, ◌+◌, ◌-◌, ◌%◌, ◌^◌, ◌≤◌, ◌<◌, ◌≡◌, ◌⊎◌, inl, inr, Bool, true, false, Option, none,
  some, ◌&&◌, ◌||◌, not, List, [], ◌∷◌, Memory, write, sub_size, ltb, ◌==◌, if◌then◌else◌,
  Bool-cases, refl, ◌∙◌, arith,
}
use openperf_abstract_machin.Prelude.Int.{ℤ, pos, negsuc}
use openperf_abstract_machin.Klib.Stdlib.{int_max}
use openperf_abstract_machin.Klib.Str.{stpncpy}
use openperf_abstract_machin.Klib.Str.Pad.{stpncpy_frame}
use openperf_abstract_machin.Klib.Stdio.{
  emit, emit_negative, digits, int2str, Printer, copy_text, to_int, printed, directive, round,
  vsnprintf_loop, vsnprintf,
}

-- The result of a writer at `p`: at most `n` characters, all of them from `p` on, and nothing else
-- changed.
pub record Wrote (p n : ℕ) (m : Memory) (r : ℕ × Memory) : Type 0 where
  pub fits : r.0 ≤ n
  pub frame : (a : ℕ) → (a < p) ⊎ (p + n ≤ a) → r.1 a ≡ m a

emit-Wrote : (cs : List ℕ) (p n : ℕ) (m : Memory) → Wrote p n m (emit cs p n m)
unfolding emit
emit-Wrote [] p n m = record { fits = omega arith; frame = λ a h. refl }
emit-Wrote (c ∷ cs) p zero m = record { fits = omega arith; frame = λ a h. refl }
emit-Wrote (c ∷ cs) p (suc n) m =
    let ih = emit-Wrote cs (p + 1) n (write m p c) in
    record { fits = omega (arith, ih.fits); frame = λ a h. ground (arith, ih.frame a) }

emit_negative-Wrote :
    (cs : List ℕ) (p n : ℕ) (m : Memory) → Wrote p (suc n) m (emit_negative cs p (suc n) m)
unfolding emit_negative
emit_negative-Wrote cs p n m =
    let ih = emit-Wrote cs (p + 1) n (write m p b'-') in ground (arith, ih.fits, ih.frame)

copy_text-Wrote : (room p out : ℕ) (m : Memory) → Wrote out room m (copy_text room p out m)
unfolding copy_text
copy_text-Wrote zero p out m = record { fits = omega arith; frame = λ a h. refl }
copy_text-Wrote (suc room) p out m =
    let ih = copy_text-Wrote room (p + 1) (out + 1) (write m out (m p)) in
    record { fits = ground (arith, ih.fits); frame = λ a h. ground (arith, ih.frame a) }

Wrote-if :
    (b : Bool) {p n : ℕ} {m : Memory} {r r' : ℕ × Memory}
    → Wrote p n m r
    → Wrote p n m r'
    → Wrote p n m (if b then r else r')
Wrote-if true w w' = w
Wrote-if false w w' = w'

Wrote-nothing : (p n : ℕ) (m : Memory) → Wrote p n m (0, m)
Wrote-nothing p n m = record { fits = omega arith; frame = λ a h. refl }

Wrote-one : (p n c : ℕ) (m : Memory) → 0 < n → Wrote p n m (1, write m p c)
Wrote-one p n c m h = record { fits = omega arith; frame = λ a out. ground arith }

Wrote-text : (p s n : ℕ) (m : Memory) → let (q, m') = stpncpy p s n m in Wrote p n m (q - p, m')
Wrote-text p s n m =
    let (lo, hi, frame) = stpncpy_frame p s n m in record { fits = omega arith; frame = frame }

module _ (text : ℕ) where
  int2str-Wrote : (p : ℕ) (v : ℤ) (n : ℕ) (m : Memory) → Wrote p n m (int2str text p v n m)
  unfolding int2str
  int2str-Wrote p v zero m = Wrote-nothing p 0 m
  int2str-Wrote p (pos zero) (suc n) m =
      Wrote-if (p == 0) (Wrote-nothing p (suc n) m) (Wrote-one p (suc n) b'0' m (omega arith))
  int2str-Wrote p (pos (suc v)) (suc n) m =
      Wrote-if (p == 0) (Wrote-nothing p (suc n) m) (emit-Wrote (digits (suc v)) p (suc n) m)
  int2str-Wrote p (negsuc v) (suc n) m = Wrote-if (p == 0) (Wrote-nothing p (suc n) m) (
      Wrote-if (v == int_max) (Wrote-text p text (suc n) m)
        (emit_negative-Wrote (digits (suc v)) p n m))

-- For a limit `limit` on the characters before the NUL and an address `a` outside of the `limit`
-- bytes of the buffer.
module _ (text limit start a : ℕ) (m : Memory)
    (outside : (a < start) ⊎ (start + limit + 1 ≤ a)) where
  -- `out` is `count` behind the start, `count` is within the limit, and `a` keeps its byte.
  pub record Inside (s : Printer) : Type 0 where
    pub at : s.out ≡ start + s.count
    pub within : s.count ≤ limit
    pub keeps : s.mem a ≡ m a

  abbrev pub AllInside : Option Printer → Type 0
  AllInside none = Unit {0}
  AllInside (some s) = Inside s

  AllInside-if :
      (b : Bool) (o o' : Option Printer)
      → AllInside o
      → AllInside o'
      → AllInside (if b then o else o')
  AllInside-if true o o' h h' = h
  AllInside-if false o o' h h' = h'

  printed-Inside :
      {s : Printer} (args : List ℕ) {r : ℕ × Memory}
      → Inside s
      → Wrote s.out (limit - s.count) s.mem r
      → Inside (printed s args r)
  printed-Inside {s} args {r} i w = record {
    at = omega (arith, i.at);
    within = omega (arith, i.within, w.fits);
    keeps = w.frame a (omega (arith, i.at, i.within, outside)) ∙ i.keeps;
  }

  one :
      (c : ℕ) {s : Printer}
      → Inside s
      → s.count < limit
      → Wrote s.out (limit - s.count) s.mem (1, write s.mem s.out c)
  one c {s} i h = Wrote-one s.out (limit - s.count) c s.mem (omega arith)

  directive-Inside :
      (c : ℕ) (args : List ℕ) {s : Printer}
      → Inside s
      → s.count < limit
      → AllInside (directive text limit c args s)
  unfolding directive
  directive-Inside c [] {s} i h = AllInside-if (c == b'%') _ _ (printed-Inside [] i (one c i h)) (
      AllInside-if (c == b's' || c == b'd' || c == b'c') _ _ tt
        (printed-Inside [] i (Wrote-nothing s.out (limit - s.count) s.mem)))
  directive-Inside c (w ∷ args) {s} i h =
      AllInside-if (c == b'%') _ _ (printed-Inside (w ∷ args) i (one c i h)) (
        AllInside-if (c == b's') _ _
          (printed-Inside args i (copy_text-Wrote (limit - s.count) w s.out s.mem))
          (AllInside-if (c == b'd') _ _
            (printed-Inside args i (int2str-Wrote text s.out (to_int w) (limit - s.count) s.mem))
            (AllInside-if (c == b'c') _ _ (printed-Inside args i (one (w % 256) i h))
              (printed-Inside (w ∷ args) i (Wrote-nothing s.out (limit - s.count) s.mem)))))

  pub round-Inside : {s : Printer} → Inside s → s.count < limit → AllInside (round text limit s)
  unfolding round
  round-Inside {s} i h =
      AllInside-if (s.mem s.fmt == b'%') _ _ (directive-Inside (s.mem (s.fmt + 1)) s.args i h)
        (record {
          at = omega (arith, i.at);
          within = omega arith;
          keeps =
              (one (s.mem s.fmt) i h).frame a (omega (arith, i.at, i.within, outside)) ∙ i.keeps;
        })

  -- What the loop returns: a count within the limit, a NUL behind the characters, and `a` as it was.
  abbrev Returned : Option (ℕ × Memory) → Type 0
  Returned none = Unit {0}
  Returned (some (n, m')) = (n ≤ limit) × (m' (start + n) ≡ 0) × (m' a ≡ m a)

  Returned-elim :
      (fuel : ℕ)
      → ((s : Printer) → Inside s → Returned (vsnprintf_loop text fuel limit s))
      → (o : Option Printer) → AllInside o
      → Returned (elim o [ none ↦ none | some s' ↦ vsnprintf_loop text fuel limit s' ])
  Returned-elim fuel ih none h = tt
  Returned-elim fuel ih (some s) h = ih s h

  Returned-done : {s : Printer} → Inside s → Returned (some (s.count, write s.mem s.out 0))
  Returned-done {s} i = (i.within, ground (arith, i.at), ground (arith, i.at, i.within, i.keeps))

  vsnprintf_loop-Returned :
      (fuel : ℕ) (s : Printer) → Inside s → Returned (vsnprintf_loop text fuel limit s)
  unfolding vsnprintf_loop
  vsnprintf_loop-Returned zero s i = tt
  vsnprintf_loop-Returned (suc fuel) s i =
      elim (Bool-cases (ltb s.count limit && not (s.mem s.fmt == 0))) [
        | inl more ↦ rw more (
            Returned-elim fuel (vsnprintf_loop-Returned fuel) (round text limit s)
              (round-Inside i (ground arith)))
        | inr stop ↦ rw stop (Returned-done i)
      ]

-- For a size from 1 to 2 ^ 32 - 1, where vsnprintf returns with the arguments and the fuel given,
-- it has returned less than the size, it has put a NUL behind the characters it counts, and it has
-- changed nothing outside of the `n` bytes from `out` on.
pub vsnprintf_bounds :
    (text fuel out n fmt : ℕ) (args : List ℕ) (m : Memory) {count : ℕ} {m' : Memory}
    → 0 < n
    → n ≤ 2 ^ 32 - 1
    → vsnprintf text fuel out n fmt args m ≡ some (count, m')
    → (count < n) × (m' (out + count) ≡ 0) × ((a : ℕ) → (a < out) ⊎ (out + n ≤ a) → m' a ≡ m a)
unfolding vsnprintf
vsnprintf_bounds text fuel out n fmt args m {count} {m'} pos_n fits e = (
  omega (arith, (facts (out + n) (inr (omega arith))).0),
  (facts (out + n) (inr (omega arith))).1,
  λ a h. (facts a h).2,
)
  where
    start : Printer
    start = record { fmt = fmt; args = args; out = out; count = 0; mem = m }

    facts :
        (a : ℕ)
        → (a < out) ⊎ (out + n ≤ a)
        → (count ≤ sub_size n 1) × (m' (out + count) ≡ 0) × (m' a ≡ m a)
    facts a h =
        let outside : (a < out) ⊎ (out + sub_size n 1 + 1 ≤ a) = omega arith in
        rw e at (
          vsnprintf_loop-Returned text (sub_size n 1) out a m outside fuel start
            (record { at = omega arith; within = omega arith; keeps = refl }))
