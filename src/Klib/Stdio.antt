-- ===== src/Klib/Stdio.antt =====
-- klib/src/stdio.c: int2str, vsnprintf and the printing functions above it.
-- The arguments of a call are a list of 32-bit words, as va_arg takes them one after the other.
mod Tests
pub mod Bounds
pub mod Total
pub mod RoundTrip
use openperf_abstract_machin.Prelude.{
  ℕ, zero, suc, ◌+◌, ◌-◌, ◌*◌, ◌/◌, ◌%◌, ◌^◌, Bool, true, false, Option, none, some, ◌&&◌, ◌||◌,
  not, List, [], ◌∷◌, Memory, write, sub_size, ltb, ◌==◌, if◌then◌else◌,
}
use openperf_abstract_machin.Prelude.Int.{ℤ, pos, negsuc}
use openperf_abstract_machin.Klib.Stdlib.{int_max}
use openperf_abstract_machin.Klib.Str.{stpncpy}

-- `while (tmp != 0) { buf[idx] = tmp % 10 + '0'; tmp /= 10; idx++; }`: the list holds `buf` from
-- the last index down to 0.
pub collect : ℕ → ℕ → List ℕ → List ℕ
collect zero tmp buf = buf
collect (suc fuel) tmp buf =
    let rest = collect fuel (tmp / 10) ((tmp % 10 + b'0') ∷ buf) in if tmp == 0 then buf else rest

-- `while (idx >= 0 && n > 0) { *p = buf[idx]; p++; idx--; n--; }`; returns how far `p` has moved.
pub emit : List ℕ → ℕ → ℕ → Memory → ℕ × Memory
emit [] p n m = (0, m)
emit (c ∷ cs) p zero m = (0, m)
emit (c ∷ cs) p (suc n) m = let (k, m') = emit cs (p + 1) n (write m p c) in (suc k, m')

-- The sign goes first, if there is room.
pub emit_negative : List ℕ → ℕ → ℕ → Memory → ℕ × Memory
emit_negative cs p n m = let (k, m') = emit cs (p + 1) (n - 1) (write m p b'-') in (suc k, m')

-- The digits of a number below 2 ^ 31 are ten at most.
abbrev pub digits : ℕ → List ℕ
digits v = collect 11 v []

-- The variables of vsnprintf: `fmt`, `ap`, `out`, `count` and the memory.
pub record Printer : Type 0 where
  pub fmt : ℕ
  pub args : List ℕ
  pub out : ℕ
  pub count : ℕ
  pub mem : Memory

-- An `int` from its bit pattern.
abbrev pub to_int : ℕ → ℤ
to_int w = if ltb int_max w then negsuc (2 ^ 32 - w - 1) else pos w

-- `while (count < n - 1 && *p) { *out = *p; out++; count++; p++; }`, with the room left.
pub copy_text : ℕ → ℕ → ℕ → Memory → ℕ × Memory
copy_text zero p out m = (0, m)
copy_text (suc room) p out m = elim (m p == 0) [
  | true ↦ (0, m)
  | false ↦ let (k, m') = copy_text room (p + 1) (out + 1) (write m out (m p)) in (suc k, m')
]

-- The state after `k` characters have been written and the directive has been passed.
abbrev pub printed : Printer → List ℕ → ℕ × Memory → Printer
printed s args (k, m) = record {
  fmt = s.fmt + 2;
  args = args;
  out = s.out + k;
  count = s.count + k;
  mem = m;
}

-- The characters that printf hands to putch.
pub put_out : ℕ → ℕ → Memory → List ℕ
put_out zero buf m = []
put_out (suc n) buf m = m buf ∷ put_out n (buf + 1) m

module _ (int_min_text : ℕ) where
  -- `int2str(p, v, n)`, with the address of the literal "-2147483648".
  pub int2str : ℕ → ℤ → ℕ → Memory → ℕ × Memory
  unfolding emit_negative
  int2str p v zero m = (0, m)
  int2str p (pos zero) (suc n) m = if p == 0 then (0, m) else (1, write m p b'0')
  int2str p (pos (suc v)) (suc n) m = if p == 0 then (0, m) else emit (digits (suc v)) p (suc n) m
  int2str p (negsuc v) (suc n) m =
      if p == 0
      then (0, m)
      else if v == int_max
      then (let (q, m') = stpncpy p int_min_text (suc n) m in (q - p, m'))
      else emit_negative (digits (suc v)) p (suc n) m

  -- The branches behind a '%'; `none` says that an argument is missing.
  pub directive : ℕ → ℕ → List ℕ → Printer → Option Printer
  directive limit c [] s =
      if c == b'%'
      then some (printed s [] (1, write s.mem s.out c))
      else if c == b's' || c == b'd' || c == b'c'
      then none
      else some (printed s [] (0, s.mem))
  directive limit c (a ∷ args) s =
      if c == b'%'
      then some (printed s (a ∷ args) (1, write s.mem s.out c))
      else if c == b's'
      then some (printed s args (copy_text (limit - s.count) a s.out s.mem))
      else if c == b'd'
      then some (printed s args (int2str s.out (to_int a) (limit - s.count) s.mem))
      else if c == b'c'
      then some (printed s args (1, write s.mem s.out (a % 256)))
      else some (printed s (a ∷ args) (0, s.mem))

  -- One round of the loop of vsnprintf.
  pub round : ℕ → Printer → Option Printer
  round limit s =
      if s.mem s.fmt == b'%'
      then directive limit (s.mem (s.fmt + 1)) s.args s
      else some (record s {
        fmt = s.fmt + 1;
        out = s.out + 1;
        count = s.count + 1;
        mem = write s.mem s.out (s.mem s.fmt);
      })

  pub vsnprintf_loop : ℕ → ℕ → Printer → Option (ℕ × Memory)
  vsnprintf_loop zero limit s = none
  vsnprintf_loop (suc fuel) limit s =
      let done = some (s.count, write s.mem s.out 0) in
      let rest : Option (ℕ × Memory) = elim (round limit s) [
        | none ↦ none
        | some s' ↦ vsnprintf_loop fuel limit s'
      ] in
      if ltb s.count limit && not (s.mem s.fmt == 0) then rest else done

  -- `n - 1` is computed in `size_t`.
  pub vsnprintf : ℕ → ℕ → ℕ → ℕ → List ℕ → Memory → Option (ℕ × Memory)
  unfolding vsnprintf_loop round
  vsnprintf fuel out n fmt args m =
      vsnprintf_loop fuel (sub_size n 1)
        (record { fmt = fmt; args = args; out = out; count = 0; mem = m })

  pub snprintf : ℕ → ℕ → ℕ → ℕ → List ℕ → Memory → Option (ℕ × Memory)
  unfolding vsnprintf
  snprintf fuel out n fmt args m = vsnprintf fuel out n fmt args m

  -- The bound is `(size_t) -1`.
  pub vsprintf : ℕ → ℕ → ℕ → List ℕ → Memory → Option (ℕ × Memory)
  unfolding vsnprintf
  vsprintf fuel out fmt args m = vsnprintf fuel out (2 ^ 32 - 1) fmt args m

  pub sprintf : ℕ → ℕ → ℕ → List ℕ → Memory → Option (ℕ × Memory)
  unfolding vsprintf
  sprintf fuel out fmt args m = vsprintf fuel out fmt args m

  -- printf formats into its own buffer `buf` of 1024 bytes, and puts out the `n` characters of it.
  pub printf : ℕ → ℕ → ℕ → List ℕ → Memory → Option (ℕ × List ℕ)
  unfolding vsnprintf put_out
  printf fuel buf fmt args m = elim (vsnprintf fuel buf 1024 fmt args m) [
    | none ↦ none
    | some (n, m') ↦ some (n, put_out n buf m')
  ]
