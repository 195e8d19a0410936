-- ===== src/Klib/Stdio/Total.antt =====
-- vsnprintf of klib/src/stdio.c returns, given enough rounds and arguments.
use native.Mathlib.Decide.{ℕ_discrete}
use openperf_abstract_machin.Prelude.{
  ℕ, zero, suc, ◌+◌, ◌-◌, ◌^◌, ◌≤◌, ◌<◌, ◌≡◌, sym, ◌≢◌, ◌⊎◌, inl, inr, true, none, some, ◌&&◌, not,
  List, [], ◌∷◌, length, Memory, IsString, write, sub_size, ltb, ◌==◌, Bool-cases, eq_true,
  Option-cases, refl, ◌∙◌, arith,
}
use openperf_abstract_machin.Klib.Stdio.{
  Printer, printed, directive, round, vsnprintf_loop, vsnprintf,
}
use openperf_abstract_machin.Klib.Stdio.Bounds.{Inside, round-Inside}

module _ (text limit : ℕ) where
  directive-ne-none :
      (c a : ℕ) (args : List ℕ) (s : Printer) → directive text limit c (a ∷ args) s ≢ none
  unfolding directive
  directive-ne-none c a args s = ground arith

  directive-some :
      (c a : ℕ) (args : List ℕ) (s : Printer) {s' : Printer}
      → directive text limit c (a ∷ args) s ≡ some s'
      → (s'.fmt ≡ s.fmt + 2) × (length args ≤ length s'.args)
  unfolding directive
  directive-some c a args s e = ground arith

  directive_total :
      (c : ℕ) (args : List ℕ) (s : Printer)
      → 0 < length args
      → (s' : Printer) × (directive text limit c args s ≡ some s')
        × (s'.fmt ≡ s.fmt + 2)
        × (length args ≤ length s'.args + 1)
  directive_total c [] s h = absurd (omega arith)
  directive_total c (a ∷ args) s h = elim (Option-cases (directive text limit c (a ∷ args) s)) [
    | inl e ↦ absurd (directive-ne-none c a args s e)
    | inr (s', e) ↦ let (f, l) = directive-some c a args s e in (s', e, f, omega arith)
  ]

  -- What a round does to the format and the arguments: it passes an ordinary character, or a '%'
  -- with the character behind it and at most one argument.
  record Passes (s s' : Printer) : Type 0 where
    step : round text limit s ≡ some s'
    moves :
        ((s.mem s.fmt ≢ b'%') × (s'.fmt ≡ s.fmt + 1))
        ⊎ ((s.mem s.fmt ≡ b'%') × (s'.fmt ≡ s.fmt + 2))
    uses : length s.args ≤ length s'.args + 1

  round_total : (s : Printer) → 0 < length s.args → (s' : Printer) × Passes s s'
  unfolding round
  round_total s h = elim (ℕ_discrete (s.mem s.fmt) b'%') [
    | yes e ↦
        let (s', f, p, u) = directive_total (s.mem (s.fmt + 1)) s.args s h in
        (s', record { step = ground arith; moves = inr (e, p); uses = u })
    | no ne ↦
        let s' : Printer = record s {
          fmt = s.fmt + 1;
          out = s.out + 1;
          count = s.count + 1;
          mem = write s.mem s.out (s.mem s.fmt);
        } in
        (s', record { step = ground arith; moves = inl (ne, refl); uses = omega arith })
  ]

-- The format text at `fmt`: a string of length `k` in which no '%' stands before the NUL.
pub record IsFormat (m : Memory) (fmt k : ℕ) : Type 0 where
  pub text : IsString m fmt k
  pub no_last : (j : ℕ) → j + 1 ≡ k → m (fmt + j) ≢ b'%'

module _ (text limit start f k : ℕ) (m : Memory) (format : IsFormat m f k)
    (apart : (f + k + 1 ≤ start) ⊎ (start + limit + 1 ≤ f)) where
  -- The loop inside its buffer, at character `i` of the format.
  record Going (i : ℕ) (s : Printer) : Type 0 where
    safe :
        (a : ℕ) (outside : (a < start) ⊎ (start + limit + 1 ≤ a))
        → Inside text limit start a m outside s
    position : s.fmt ≡ f + i
    before : i ≤ k
    supplied : k - i ≤ length s.args

  same_char : {i : ℕ} {s : Printer} → Going i s → s.mem s.fmt ≡ m (f + i)
  same_char {i} {s} g =
      let kept = (g.safe (f + i) (omega (arith, g.before))).keeps in
      ground (arith, kept, g.position)

  Going-round :
      {i : ℕ} {s s' : Printer}
      → Going i s
      → s.count < limit
      → i < k
      → Passes text limit s s'
      → (j : ℕ) × (i < j) × Going j s'
  Going-round {i} {s} {s'} g room more p =
      let safe' : (a : ℕ) (outside : (a < start) ⊎ (start + limit + 1 ≤ a))
          → Inside text limit start a m outside s' =
        λ a outside.
          rw p.step at (round-Inside text limit start a m outside (g.safe a outside) room) in
      elim p.moves [
        | inl (ne, e) ↦ (
          i + 1,
          omega arith,
          record {
            safe = safe';
            position = omega (arith, g.position);
            before = omega arith;
            supplied = omega (arith, g.supplied, p.uses);
          },
        )
        | inr (is, e) ↦
            let not_last : i + 1 ≢ k = λ l. format.no_last i l (sym (same_char g) ∙ is) in
            (
              i + 2,
              omega arith,
              record {
                safe = safe';
                position = omega (arith, g.position);
                before = omega (arith, not_last);
                supplied = omega (arith, g.supplied, p.uses);
              },
            )
      ]

  test_true :
      {i : ℕ} {s : Printer}
      → Going i s
      → (ltb s.count limit && not (s.mem s.fmt == 0)) ≡ true
      → (s.count < limit) × (i < k)
  test_true {i} {s} g h =
      let not_end : i ≢ k = λ e. ground (arith, same_char g, format.text.ends) in
      (ground arith, omega (arith, not_end, g.before))

  loop_total :
      (fuel i : ℕ) (s : Printer)
      → Going i s
      → k - i < fuel
      → (r : ℕ × Memory) × (vsnprintf_loop text fuel limit s ≡ some r)
  unfolding vsnprintf_loop
  loop_total zero i s g h = absurd (omega arith)
  loop_total (suc fuel) i s g h = elim (Bool-cases (ltb s.count limit && not (s.mem s.fmt == 0))) [
    | inr stop ↦ ((s.count, write s.mem s.out 0), rw stop refl)
    | inl more ↦
        let (room, inside) = test_true g more in
        let (s', p) = round_total text limit s (omega (arith, g.supplied)) in
        let (j, further, g') = Going-round g room inside p in
        let (r, e) = loop_total fuel j s' g' (omega (arith, g'.before)) in (r, rw (more, p.step) e)
  ]

-- vsnprintf returns, for a size from 1 to 2 ^ 32 - 1 and a format string that shares no byte with
-- the buffer and has no `%` as its last character, if there are at least as many arguments as the
-- format has characters and the fuel exceeds that number.
pub vsnprintf_total :
    (text fuel out n fmt k : ℕ) (args : List ℕ) (m : Memory)
    → 0 < n
    → n ≤ 2 ^ 32 - 1
    → IsFormat m fmt k
    → (fmt + k + 1 ≤ out) ⊎ (out + n ≤ fmt)
    → k ≤ length args
    → k < fuel
    → (r : ℕ × Memory) × (vsnprintf text fuel out n fmt args m ≡ some r)
unfolding vsnprintf
vsnprintf_total text fuel out n fmt k args m pos_n fits format apart supplied h =
    loop_total text (sub_size n 1) out fmt k m format (omega arith) fuel 0
      (record { fmt = fmt; args = args; out = out; count = 0; mem = m })
      (record {
        safe = λ a outside. record { at = omega arith; within = omega arith; keeps = refl };
        position = omega arith;
        before = omega arith;
        supplied = omega arith;
      })
      (omega arith)

directive-other :
    (text limit : ℕ) (args : List ℕ) (s : Printer)
    → directive text limit 0 args s ≡ some (printed s args (0, s.mem))
unfolding directive
directive-other text limit [] s = refl
directive-other text limit (a ∷ args) s = refl

round-percent_end :
    (text limit : ℕ) (s : Printer)
    → s.mem s.fmt ≡ b'%'
    → s.mem (s.fmt + 1) ≡ 0
    → round text limit s ≡ some (printed s s.args (0, s.mem))
unfolding round
round-percent_end text limit s percent end =
    rw (eq_true percent, end) (directive-other text limit s.args s)

-- With room left, a `%` before the NUL of the format lets the loop of vsnprintf go on behind the
-- NUL, with nothing written.
pub vsnprintf_loop-percent_end :
    (text fuel limit : ℕ) (s : Printer)
    → s.count < limit
    → s.mem s.fmt ≡ b'%'
    → s.mem (s.fmt + 1) ≡ 0
    → vsnprintf_loop text (suc fuel) limit s
      ≡ vsnprintf_loop text fuel limit (printed s s.args (0, s.mem))
unfolding vsnprintf_loop
vsnprintf_loop-percent_end text fuel limit s room percent end =
    let test : (ltb s.count limit && not (s.mem s.fmt == 0)) ≡ true = ground arith in
    rw (test, round-percent_end text limit s percent end)
