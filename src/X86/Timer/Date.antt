-- ===== src/X86/Timer/Date.antt =====
-- timer_rtc of am/src/x86/qemu/ioe.c: of which times the fields of its date are.
use native.Mathlib.Decide.{ℕ_discrete}
use openperf_abstract_machin.Prelude.{
  ℕ, zero, suc, ◌+◌, ◌≤◌, ◌<◌, ◌≡◌, ◌≢◌, refl, ap, ◌∙◌, arith, true, some, List, [], ◌∷◌, ◌++◌,
  length, length-append, Memory, eq_true, eq_false,
}
use openperf_abstract_machin.X86.Ports.{Ports}
use openperf_abstract_machin.X86.Timer.{Rtc, to_rtc, asked, read_values, read_rtc_async, timer_rtc}
use openperf_abstract_machin.X86.Timer.Reads.{
  clock_register, All, All-append, IsOrder, field_of-to_rtc, asked_all, asked_all-append, Clock,
  IsOf, read_rtc_lem, forward_all, Read, read_values_lem, Read-between, Read-at, Read-append,
}

module _ {D : Type 0} (ports : Ports D) (clock : Clock ports) (before after : List ℕ)
    (is_order : IsOrder (before ++ (0 ∷ after))) where
  abbrev order : List ℕ
  order = before ++ (0 ∷ after)

  -- The device behind the reads before the seconds, behind the seconds, behind the date, and
  -- behind the round.
  abbrev start : D → D
  start d = asked_all ports before d

  abbrev seconds_read : D → D
  seconds_read d = asked ports 0 (start d)

  abbrev date_read : D → D
  date_read d = asked_all ports after (seconds_read d)

  abbrev round_end : D → D
  round_end d = asked ports 0 (date_read d)

  abbrev values : D → Memory
  values d = (read_values ports order (λ reg. 0) d).0

  read_rtc_async_lem : (d : D) → read_rtc_async ports order d ≡ (to_rtc (values d), date_read d)
  unfolding read_rtc_async
  read_rtc_async_lem d =
      let (behind, reads) =
        read_values_lem ports clock order (λ reg. 0) d is_order.distinct is_order.registers in
      ap (λ e. (to_rtc (values d), e)) (behind ∙ asked_all-append ports before (0 ∷ after) d)

  values-reads :
      (d : D)
      → Read ports clock before d (values d) × Read ports clock (0 ∷ after) (start d) (values d)
  values-reads d =
      let (behind, reads) =
        read_values_lem ports clock order (λ reg. 0) d is_order.distinct is_order.registers in
      Read-append ports clock before (0 ∷ after) d (values d) reads

  -- The time of the seconds and that of the end of a round.
  record Times (d : D) : Type 0 where
    called : clock.now d ≤ clock.now (start d)
    first : clock.now (start d) ≤ clock.now (seconds_read d)
    others : clock.now (seconds_read d) ≤ clock.now (date_read d)
    last : clock.now (date_read d) ≤ clock.now (round_end d)

  times : (d : D) → Times d
  times d = record {
    called = forward_all ports clock before d;
    first = clock.forward 0 (start d);
    others = forward_all ports clock after (seconds_read d);
    last = clock.forward 0 (date_read d);
  }

  round_regs : List ℕ
  round_regs = order ++ (0 ∷ [])

  asked_all-round : (d : D) → asked_all ports round_regs d ≡ round_end d
  unfolding round_regs
  asked_all-round d =
      asked_all-append ports order (0 ∷ []) d
      ∙ ap (asked ports 0) (asked_all-append ports before (0 ∷ after) d)

  -- Two rounds take less than a second.
  two_rounds : (d : D) → clock.now (round_end (round_end d)) ≤ clock.now d + 1
  unfolding round_regs
  two_rounds d =
      let twice : asked_all ports (round_regs ++ round_regs) d ≡ round_end (round_end d) =
        asked_all-append ports round_regs round_regs d
        ∙ asked_all-round (asked_all ports round_regs d)
        ∙ ap round_end (asked_all-round d) in
      let many : length (round_regs ++ round_regs) ≤ 14 = omega (
        arith,
        length-append {0} round_regs round_regs,
        length-append {0} order (0 ∷ []),
        is_order.six,
      ) in
      let short = clock.fast (round_regs ++ round_regs) d many in
      omega (arith, short, ap clock.now twice)

  -- A round in which the seconds do not change behind their read.
  timer_rtc-settled :
      (fuel : ℕ) (d : D)
      → clock.now (seconds_read d) ≡ clock.now (round_end d)
      → timer_rtc ports order (suc fuel) d ≡ some (to_rtc (values d), round_end d)
  unfolding timer_rtc
  timer_rtc-settled fuel d same =
      let value : values d 0 ≡ clock.field 0 (clock.now (round_end d)) =
        (values-reads d).1.0 ∙ ap (clock.field 0) same in
      rw
        (
          read_rtc_async_lem d,
          read_rtc_lem ports clock 0 (date_read d) refl,
          value,
          eq_true {a = clock.field 0 (clock.now (round_end d))} refl,
        )
        refl

  -- A round in which they do is tried again.
  timer_rtc-again :
      (fuel : ℕ) (d : D)
      → clock.now (round_end d) ≡ clock.now (seconds_read d) + 1
      → timer_rtc ports order (suc fuel) d ≡ timer_rtc ports order fuel (round_end d)
  unfolding timer_rtc
  timer_rtc-again fuel d moved =
      let then_ = clock.now (seconds_read d) in
      let end = clock.now (round_end d) in
      let differ : clock.field 0 end ≢ values d 0 =
        omega (arith, clock.seconds then_, clock.seconds end, moved, (values-reads d).1.0) in
      rw (read_rtc_async_lem d, read_rtc_lem ports clock 0 (date_read d) refl, eq_false differ) refl

  -- What a call at `d` that returns the date `r` at `d'` gives.
  pub record Returned (d : D) (r : Rtc) (d' : D) : Type 0 where
    pub forwards : clock.now d ≤ clock.now d'
    pub soon : clock.now d' ≤ clock.now d + 1
    pub whole : All (IsOf ports clock r (clock.now d')) (0 ∷ after)
    pub earlier :
        All
          (λ reg. (t : ℕ) × (clock.now d ≤ t) × (t ≤ clock.now d') × IsOf ports clock r t reg)
          before

  -- The date of a round that settles, for a call at `d0`.
  settled-Returned :
      (d0 d : D)
      → clock.now d0 ≤ clock.now d
      → clock.now (round_end d) ≤ clock.now d0 + 1
      → clock.now (seconds_read d) ≡ clock.now (round_end d)
      → Returned d0 (to_rtc (values d)) (round_end d)
  settled-Returned d0 d from soon same =
      let t = times d in
      let end = clock.now (round_end d) in
      let reads = values-reads d in
      let (are, are_after) =
        All-append (λ reg. clock_register reg ≡ true) before (0 ∷ after) is_order.registers in
      record {
        forwards = omega (arith, t.called, t.first, t.others, t.last);
        soon = soon;
        whole = (
          field_of-to_rtc 0 (values d) (λ r. clock.field r end) refl
              (reads.1.0 ∙ ap (clock.field 0) same),
          Read-at ports clock after (seconds_read d) (values d) end are_after.1
              (omega (arith, same)) (omega (arith, t.last)) reads.1.1,
        );
        earlier =
            Read-between ports clock before d (values d) (clock.now d0) end are from
              (omega (arith, t.first, t.others, t.last)) reads.0;
      }

  -- On a clock that counts in seconds and gives decimal digits, and of which 14 reads take less
  -- than a second, timer_rtc returns within two rounds, at most a second after the call, in
  -- whatever order the compiler evaluates the initializers of the date: the seconds and the fields
  -- that are read behind them are those of one time, the time of the last read, and each field that
  -- is read before the seconds is that of a time between the call and the return.
  pub timer_rtc_lem :
      (fuel : ℕ) (d : D)
      → 1 < fuel
      → (r : Rtc) × (d' : D) × (timer_rtc ports (before ++ (0 ∷ after)) fuel d ≡ some (r, d'))
        × Returned d r d'
  timer_rtc_lem zero d l = absurd (omega arith)
  timer_rtc_lem (suc zero) d l = absurd (omega arith)
  timer_rtc_lem (suc (suc fuel)) d l =
      let d7 = round_end d in
      let t = times d in
      let t' = times d7 in
      let short = two_rounds d in
      elim (ℕ_discrete (clock.now (seconds_read d)) (clock.now d7)) [
        | yes same ↦ (
          to_rtc (values d),
          d7,
          timer_rtc-settled (suc fuel) d same,
          settled-Returned d d (omega arith)
              (omega (arith, t'.called, t'.first, t'.others, t'.last)) same,
        )
        | no moved ↦
            let tick : clock.now d7 ≡ clock.now (seconds_read d) + 1 = omega (
              arith, t.called, t.first, t.others, t.last, t'.called, t'.first, t'.others, t'.last,
            ) in
            let same : clock.now (seconds_read d7) ≡ clock.now (round_end d7) = omega (
              arith, t.called, t.first, t.others, t.last, t'.called, t'.first, t'.others, t'.last,
            ) in
            (
              to_rtc (values d7),
              round_end d7,
              timer_rtc-again (suc fuel) d tick ∙ timer_rtc-settled fuel d7 same,
              settled-Returned d d7 (omega (arith, t.called, t.first, t.others, t.last)) short same,
            )
      ]
