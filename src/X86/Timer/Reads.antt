-- ===== src/X86/Timer/Reads.antt =====
-- The reads of the clock's registers in am/src/x86/qemu/ioe.c, each at its own time.
use Prim.Native.Nat.{bit_and}
use openperf_abstract_machin.Prelude.{
  ℕ, ◌+◌, ◌*◌, ◌/◌, ◌%◌, ◌^◌, ◌≤◌, ◌<◌, ◌≡◌, ◌≢◌, refl, ap, ◌∙◌, arith, Bool, true, ◌||◌, ◌==◌,
  List, [], ◌∷◌, ◌++◌, length, Memory, write, eq_true, eq_false, if◌then◌else◌,
}
use openperf_abstract_machin.Prelude.Bits.{bit_and_field}
use openperf_abstract_machin.X86.Ports.{Ports}
use openperf_abstract_machin.X86.Timer.{Rtc, to_rtc, asked, read_rtc, read_values}

-- A number below 100 as the clock gives it: a digit in each half of a byte.
abbrev pub bcd : ℕ → ℕ
bcd n = n / 10 * 2 ^ 4 + n % 10

-- The registers of the seconds, minutes, hours, days, months and years.
abbrev pub clock_register : ℕ → Bool
clock_register reg = reg == 0 || reg == 2 || reg == 4 || reg == 7 || reg == 8 || reg == 9

abbrev pub All : (ℕ → Type 0) → List ℕ → Type 0
All P [] = Unit
All P (x ∷ xs) = P x × All P xs

abbrev pub Distinct : List ℕ → Type 0
Distinct [] = Unit
Distinct (x ∷ xs) = All (λ y. y ≢ x) xs × Distinct xs

pub All-append : (P : ℕ → Type 0) (xs ys : List ℕ) → All P (xs ++ ys) → All P xs × All P ys
All-append P [] ys all = (tt, all)
All-append P (x ∷ xs) ys (here, all) =
    let (left, right) = All-append P xs ys all in ((here, left), right)

-- An order of the six reads of a date.
pub record IsOrder (regs : List ℕ) : Type 0 where
  pub distinct : Distinct regs
  pub registers : All (λ reg. clock_register reg ≡ true) regs
  pub six : length regs ≡ 6

-- The field of a date that comes from a register.
abbrev pub field_of : ℕ → Rtc → ℕ
field_of reg r =
    if reg == 0
    then r.second
    else if reg == 2
    then r.minute
    else if reg == 4
    then r.hour
    else if reg == 7
    then r.day
    else if reg == 8
    then r.month
    else r.year

pub field_of-to_rtc :
    (reg : ℕ) (v w : Memory)
    → clock_register reg ≡ true
    → v reg ≡ w reg
    → field_of reg (to_rtc v) ≡ field_of reg (to_rtc w)
field_of-to_rtc reg v w is same = ground arith

module _ {D : Type 0} (ports : Ports D) where
  -- The device after some registers have been read.
  abbrev pub asked_all : List ℕ → D → D
  asked_all [] d = d
  asked_all (reg ∷ regs) d = asked_all regs (asked ports reg d)

  pub asked_all-append :
      (xs ys : List ℕ) (d : D) → asked_all (xs ++ ys) d ≡ asked_all ys (asked_all xs d)
  asked_all-append [] ys d = refl
  asked_all-append (x ∷ xs) ys d = asked_all-append xs ys (asked ports x d)

  -- A clock in the mode that timer_rtc expects. `now` is in seconds, and `field` is what a register
  -- shows at a time. Two rounds of reads take less than a second.
  pub record Clock : Type 0 where
    pub now : D → ℕ
    pub field : ℕ → ℕ → ℕ
    pub seconds : (t : ℕ) → field 0 t ≡ t % 60
    pub shown : (reg t : ℕ) → clock_register reg ≡ true → field reg t < 100
    pub asked_value :
        (reg : ℕ) (d : D)
        → clock_register reg ≡ true
        → (ports.inb 0x71 (ports.outb 0x70 reg d)).0 ≡ bcd (field reg (now (asked ports reg d)))
    pub forward : (reg : ℕ) (d : D) → now d ≤ now (asked ports reg d)
    pub fast : (regs : List ℕ) (d : D) → length regs ≤ 14 → now (asked_all regs d) ≤ now d + 1

  module _ (clock : Clock) where
    -- The date at a time.
    abbrev pub date : ℕ → Rtc
    date t = record {
      second = clock.field 0 t;
      minute = clock.field 2 t;
      hour = clock.field 4 t;
      day = clock.field 7 t;
      month = clock.field 8 t;
      year = clock.field 9 t + 2000;
    }

    -- The field of a register is that of a time.
    abbrev pub IsOf : Rtc → ℕ → ℕ → Type 0
    IsOf r t reg = field_of reg r ≡ field_of reg (date t)

    pub read_rtc_lem :
        (reg : ℕ) (d : D)
        → clock_register reg ≡ true
        → read_rtc ports reg d
          ≡ (clock.field reg (clock.now (asked ports reg d)), asked ports reg d)
    unfolding read_rtc
    read_rtc_lem reg d is =
        let t = clock.now (asked ports reg d) in
        let low : bit_and (bcd (clock.field reg t)) 0xf ≡ clock.field reg t % 10 =
          omega (arith, bit_and_field 0 4 (bcd (clock.field reg t)), clock.shown reg t is) in
        rw (clock.asked_value reg d is, low)
          (ap (λ v. (v, asked ports reg d)) (omega (arith, clock.shown reg t is)))

    pub forward_all : (regs : List ℕ) (d : D) → clock.now d ≤ clock.now (asked_all regs d)
    forward_all [] d = omega arith
    forward_all (reg ∷ regs) d =
        omega (arith, clock.forward reg d, forward_all regs (asked ports reg d))

    -- Each value is that of the time of its read.
    abbrev pub Read : List ℕ → D → Memory → Type 0
    Read [] d v = Unit
    Read (reg ∷ regs) d v =
        (v reg ≡ clock.field reg (clock.now (asked ports reg d))) × Read regs (asked ports reg d) v

    -- A register that is not read keeps its value.
    read_values-other :
        (regs : List ℕ) (v : Memory) (d : D) (reg : ℕ)
        → All (λ r. r ≢ reg) regs
        → (read_values ports regs v d).0 reg ≡ v reg
    unfolding read_values
    read_values-other [] v d reg apart = refl
    read_values-other (r ∷ regs) v d reg (ne, apart) =
        read_values-other regs (write v r (read_rtc ports r d).0) (read_rtc ports r d).1 reg apart
        ∙ rw (eq_false ne) refl

    read_values-step :
        (reg : ℕ) (regs : List ℕ) (v : Memory) (d : D)
        → clock_register reg ≡ true
        → read_values ports (reg ∷ regs) v d
          ≡ read_values ports regs
              (write v reg (clock.field reg (clock.now (asked ports reg d))))
              (asked ports reg d)
    unfolding read_values
    read_values-step reg regs v d is = rw (read_rtc_lem reg d is) refl

    pub read_values_lem :
        (regs : List ℕ) (v : Memory) (d : D)
        → Distinct regs
        → All (λ reg. clock_register reg ≡ true) regs
        → ((read_values ports regs v d).1 ≡ asked_all regs d)
          × Read regs d (read_values ports regs v d).0
    read_values_lem [] v d distinct are = (unfold read_values in refl, tt)
    read_values_lem (reg ∷ regs) v d (apart, distinct) (is, are) =
        let value = clock.field reg (clock.now (asked ports reg d)) in
        let v1 : Memory = write v reg value in
        let d1 = asked ports reg d in
        let (after, values) = read_values_lem regs v1 d1 distinct are in
        rw (read_values-step reg regs v d is) (
          after,
          (read_values-other regs v1 d1 reg apart ∙ rw (eq_true {a = reg} refl) refl, values),
        )

    -- Reads between two times.
    pub Read-between :
        (regs : List ℕ) (d : D) (v : Memory) (lo hi : ℕ)
        → All (λ reg. clock_register reg ≡ true) regs
        → lo ≤ clock.now d
        → clock.now (asked_all regs d) ≤ hi
        → Read regs d v
        → All (λ reg. (t : ℕ) × (lo ≤ t) × (t ≤ hi) × IsOf (to_rtc v) t reg) regs
    Read-between [] d v lo hi are from to reads = tt
    Read-between (reg ∷ regs) d v lo hi (is, are) from to (here, reads) =
        let d1 = asked ports reg d in
        let t = clock.now d1 in
        (
          (
            t,
            omega (arith, clock.forward reg d),
            omega (arith, forward_all regs d1),
            field_of-to_rtc reg v (λ r. clock.field r t) is here,
          ),
          Read-between regs d1 v lo hi are (omega (arith, clock.forward reg d)) to reads,
        )

    -- Reads within one second.
    pub Read-at :
        (regs : List ℕ) (d : D) (v : Memory) (t : ℕ)
        → All (λ reg. clock_register reg ≡ true) regs
        → t ≤ clock.now d
        → clock.now (asked_all regs d) ≤ t
        → Read regs d v
        → All (IsOf (to_rtc v) t) regs
    Read-at [] d v t are from to reads = tt
    Read-at (reg ∷ regs) d v t (is, are) from to (here, reads) =
        let d1 = asked ports reg d in
        let same : clock.now d1 ≡ t = omega (arith, clock.forward reg d, forward_all regs d1) in
        (
          field_of-to_rtc reg v (λ r. clock.field r t) is (here ∙ ap (clock.field reg) same),
          Read-at regs d1 v t are (omega (arith, clock.forward reg d)) to reads,
        )

    pub Read-append :
        (xs ys : List ℕ) (d : D) (v : Memory)
        → Read (xs ++ ys) d v
        → Read xs d v × Read ys (asked_all xs d) v
    Read-append [] ys d v reads = (tt, reads)
    Read-append (x ∷ xs) ys d v (here, reads) =
        let (left, right) = Read-append xs ys (asked ports x d) v reads in ((here, left), right)
