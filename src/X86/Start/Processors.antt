-- ===== src/X86/Start/Processors.antt =====
-- lapic_init of am/src/x86/qemu/trm.c finds the processors.
use native.Mathlib.Decide.{ℕ_discrete}
use openperf_abstract_machin.Prelude.{
  ℕ, zero, suc, ◌+◌, ◌-◌, ◌*◌, ◌^◌, ◌≤◌, ◌<◌, ◌≡◌, ◌≢◌, refl, ap, ◌∙◌, arith, some, List, [], ◌∷◌,
  Memory, eq_true, eq_false, lt→ltb, lt_false,
}
use openperf_abstract_machin.X86.Ports.{load_word}
use openperf_abstract_machin.X86.Start.{max_cpu, count_cpus, read_conf, find_table, lapic_init}

-- An entry of a configuration table: a processor takes 20 bytes, everything else 8.
pub data MpEntry : Type 0 where
  processor : MpEntry
  other : MpEntry

abbrev pub processors : List MpEntry → ℕ
processors [] = 0
processors (processor ∷ es) = suc (processors es)
processors (other ∷ es) = processors es

-- The entries lie between two addresses; the first byte of a processor is 0.
abbrev pub LaidOut : List MpEntry → ℕ → ℕ → Memory → Type 0
LaidOut [] ptr limit m = ptr ≡ limit
LaidOut (processor ∷ es) ptr limit m = (m ptr ≡ 0) × LaidOut es (ptr + 20) limit m
LaidOut (other ∷ es) ptr limit m = (m ptr ≢ 0) × LaidOut es (ptr + 8) limit m

LaidOut-up : (es : List MpEntry) (ptr limit : ℕ) (m : Memory) → LaidOut es ptr limit m → ptr ≤ limit
LaidOut-up [] ptr limit m h = omega (arith, h)
LaidOut-up (processor ∷ es) ptr limit m h = omega (arith, LaidOut-up es (ptr + 20) limit m h.1)
LaidOut-up (other ∷ es) ptr limit m h = omega (arith, LaidOut-up es (ptr + 8) limit m h.1)

count_cpus_lem :
    (es : List MpEntry) (fuel ptr limit ncpu : ℕ) (m : Memory)
    → LaidOut es ptr limit m
    → ncpu + processors es ≤ max_cpu
    → limit < ptr + fuel
    → count_cpus fuel ptr limit ncpu m ≡ some (ncpu + processors es)
unfolding count_cpus
count_cpus_lem es zero ptr limit ncpu m h few l =
    absurd (omega (arith, LaidOut-up es ptr limit m h))
count_cpus_lem [] (suc fuel) ptr limit ncpu m h few l =
    rw (lt_false {a = ptr} {b = limit} (omega (arith, h))) (ap some (omega arith))
count_cpus_lem (processor ∷ es) (suc fuel) ptr limit ncpu m h few l =
    let up = LaidOut-up es (ptr + 20) limit m h.1 in
    let at : ptr + 12 + 8 ≡ ptr + 20 = omega arith in
    rw
      (
        lt→ltb ptr limit (omega arith),
        eq_true h.0,
        lt_false {a = max_cpu} {b = ncpu + 1} (omega arith),
        at,
      )
      (count_cpus_lem es fuel (ptr + 20) limit (ncpu + 1) m h.1 (omega arith) (omega arith)
        ∙ ap some (omega arith))
count_cpus_lem (other ∷ es) (suc fuel) ptr limit ncpu m h few l =
    let up = LaidOut-up es (ptr + 8) limit m h.1 in
    rw (lt→ltb ptr limit (omega arith), eq_false h.0)
      (count_cpus_lem es fuel (ptr + 8) limit ncpu m h.1 few (omega arith))

-- The configuration table that the floating structure at `st` leads to.
pub record MpTable (es : List MpEntry) (st lapic : ℕ) (m : Memory) : Type 0 where
  pub magic : load_word m st ≡ 0x5f50_4d5f
  pub apic : load_word m (load_word m (st + 4) + 36) ≡ lapic
  pub entries :
      LaidOut es
        (load_word m (st + 4) + 44)
        (load_word m (st + 4)
          + (m (load_word m (st + 4) + 4) + 2 ^ 8 * m (load_word m (st + 4) + 5)))
        m

find_table_lem :
    (n a st lapic : ℕ) (es : List MpEntry) (m : Memory)
    → a ≤ st
    → st < a + n
    → ((b : ℕ) → a ≤ b → b < st → load_word m b ≢ 0x5f50_4d5f)
    → MpTable es st lapic m
    → processors es ≤ max_cpu
    → find_table n a m ≡ some (lapic, processors es)
unfolding find_table read_conf
find_table_lem zero a st lapic es m lo hi first t few = absurd (omega arith)
find_table_lem (suc n) a st lapic es m lo hi first t few = elim (ℕ_discrete a st) [
  | yes e ↦
      let conf = load_word m (st + 4) in
      let length = m (conf + 4) + 2 ^ 8 * m (conf + 5) in
      let up = LaidOut-up es (conf + 44) (conf + length) m t.entries in
      let count : count_cpus (length + 1) (conf + 44) (conf + length) 0 m ≡ some (processors es) =
        count_cpus_lem es (length + 1) (conf + 44) (conf + length) 0 m t.entries
          (omega (arith, few)) (omega arith)
        ∙ ap some (omega arith) in
      rw (e, eq_true t.magic, count, t.apic) refl
  | no ne ↦ rw (eq_false (first a (omega arith) (omega arith))) (
      find_table_lem n (a + 1) st lapic es m (omega arith) (omega arith)
        (λ b lo' hi'. first b (omega arith) hi') t few)
]

-- If the first word with the magic number in the area that lapic_init searches leads to a
-- configuration table of processor entries and other entries, at most eight of them for
-- processors, lapic_init finds the address of the local controller and the number of processor
-- entries.
pub lapic_init_lem :
    (st lapic : ℕ) (es : List MpEntry) (m : Memory)
    → 0xf_0000 ≤ st
    → st < 0xff_ffff
    → ((b : ℕ) → 0xf_0000 ≤ b → b < st → load_word m b ≢ 0x5f50_4d5f)
    → MpTable es st lapic m
    → processors es ≤ max_cpu
    → lapic_init m ≡ some (lapic, processors es)
unfolding lapic_init
lapic_init_lem st lapic es m lo hi first t few =
    find_table_lem (0xff_ffff - 0xf_0000) 0xf_0000 st lapic es m lo (omega arith) first t few
