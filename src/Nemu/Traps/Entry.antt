-- ===== src/Nemu/Traps/Entry.antt =====
-- What the processor does with the entries of am/src/x86/nemu/cte.c and am/src/mips/nemu/cte.c.
use Prim.Native.Nat.{bit_and, bit_or}
use native.Mathlib.Decide.{ℕ_discrete}
use openperf_abstract_machin.Prelude.{
  ℕ, ◌+◌, ◌*◌, ◌/◌, ◌%◌, ◌^◌, ◌≤◌, ◌<◌, ◌≡◌, ◌≢◌, refl, arith, Memory, eq_true, eq_false,
}
use openperf_abstract_machin.Prelude.Bits.{bit_and_low, bit_or_fields}
use openperf_abstract_machin.X86.Desc.{GateDesc32, gate32}
use openperf_abstract_machin.X86.Desc.Decode.{offset_of, offset_of-gate32}
use openperf_abstract_machin.Nemu.Traps.{NemuVectors, nemu_idt, j_instr, mips_cte_init}

-- The jump of MIPS at an address: the operation is 2, and the rest is the target in words, in the
-- region of 256 MiB of the next instruction.
pub record JumpsTo (instr pc target : ℕ) : Type 0 where
  pub operation : instr / 2 ^ 26 ≡ 2
  pub lands : (pc + 4) / 2 ^ 28 * 2 ^ 28 + instr % 2 ^ 26 * 4 ≡ target

j_instr-JumpsTo :
    (asm_trap pc : ℕ)
    → asm_trap % 4 ≡ 0
    → asm_trap / 2 ^ 28 ≡ (pc + 4) / 2 ^ 28
    → JumpsTo (j_instr asm_trap) pc asm_trap
unfolding j_instr
j_instr-JumpsTo asm_trap pc whole region =
    let low : bit_and (asm_trap / 2 ^ 2) 0x3ff_ffff ≡ asm_trap / 2 ^ 2 % 2 ^ 26 =
      bit_and_low 26 (asm_trap / 2 ^ 2) in
    let value : bit_or 0x800_0000 (asm_trap / 2 ^ 2 % 2 ^ 26)
        ≡ 2 * 2 ^ 26 + asm_trap / 2 ^ 2 % 2 ^ 26 =
      bit_or_fields 26 2 (asm_trap / 2 ^ 2 % 2 ^ 26) (omega arith) in
    rw (low, value) (record { operation = omega arith; lands = omega arith })

-- For a trap handler at a multiple of 4 in the region from 0x80000000 to below 0x90000000, the words
-- that cte_init writes for MIPS at both exception entries, 0x80000180 and 0x80000000, are jumps to
-- it, with nothing to do in their delay slots, and no other word is changed.
pub mips_cte_init-JumpsTo :
    (asm_trap : ℕ) (m : Memory)
    → asm_trap % 4 ≡ 0
    → 0x8000_0000 ≤ asm_trap
    → asm_trap < 0x9000_0000
    → JumpsTo (mips_cte_init asm_trap m 0x8000_0180) 0x8000_0180 asm_trap
      × JumpsTo (mips_cte_init asm_trap m 0x8000_0000) 0x8000_0000 asm_trap
      × (mips_cte_init asm_trap m 0x8000_0184 ≡ 0)
      × (mips_cte_init asm_trap m 0x8000_0004 ≡ 0)
      × ((a : ℕ)
          → a ≢ 0x8000_0180
          → a ≢ 0x8000_0184
          → a ≢ 0x8000_0000
          → a ≢ 0x8000_0004
          → mips_cte_init asm_trap m a ≡ m a)
unfolding mips_cte_init
mips_cte_init-JumpsTo asm_trap m whole low high = (
  j_instr-JumpsTo asm_trap 0x8000_0180 whole (omega arith),
  j_instr-JumpsTo asm_trap 0x8000_0000 whole (omega arith),
  refl,
  refl,
  λ a n1 n2 n3 n4. ground arith,
)

-- A gate of the table: present, in the kernel's code segment, with its entry, level and kind.
pub record Gate (d : GateDesc32) (kind entry dpl : ℕ) : Type 0 where
  pub present : d.p ≡ 1
  pub segment : d.cs ≡ 8
  pub leads : offset_of d ≡ entry
  pub level : d.dpl ≡ dpl
  pub kind_of : d.kind ≡ kind

-- What the vectors are for: the clock, whose gate keeps further interrupts out, the system call, which
-- user code may use, and the yield of the kernel; all others go to vecnull.
pub data NemuGate (v : NemuVectors) (i : ℕ) (d : GateDesc32) : Type 0 where
  clock : i ≡ 32 → Gate d 14 v.irq0 0 → NemuGate v i d
  syscall : i ≡ 128 → Gate d 15 v.vecsys 3 → NemuGate v i d
  yields : i ≡ 129 → Gate d 15 v.vectrap 0 → NemuGate v i d
  other : i ≢ 32 → i ≢ 128 → i ≢ 129 → Gate d 15 v.vecnull 0 → NemuGate v i d

gate32-Gate :
    (kind entry dpl : ℕ)
    → entry < 2 ^ 32
    → dpl < 4
    → kind < 16
    → Gate (gate32 kind 8 entry dpl) kind entry dpl
unfolding gate32
gate32-Gate kind entry dpl bound low small = record {
  present = refl;
  segment = refl;
  leads = offset_of-gate32 kind 8 entry dpl bound;
  level = omega arith;
  kind_of = omega arith;
}

-- If the four entry points have addresses of 32 bits, each gate of the table that cte_init fills in
-- under NEMU on x86 is one that its number is for.
pub nemu_idt-NemuGate :
    (v : NemuVectors) (i : ℕ)
    → v.irq0 < 2 ^ 32
    → v.vecsys < 2 ^ 32
    → v.vectrap < 2 ^ 32
    → v.vecnull < 2 ^ 32
    → NemuGate v i (nemu_idt v i)
unfolding nemu_idt
nemu_idt-NemuGate v i b0 b1 b2 b3 = elim (ℕ_discrete i 129) [
  | yes e ↦ rw (eq_true e) (yields e (gate32-Gate 15 v.vectrap 0 b2 (omega arith) (omega arith)))
  | no n129 ↦ elim (ℕ_discrete i 128) [
    | yes e ↦
        rw (eq_false n129, eq_true e)
          (syscall e (gate32-Gate 15 v.vecsys 3 b1 (omega arith) (omega arith)))
    | no n128 ↦ elim (ℕ_discrete i 32) [
      | yes e ↦
          rw (eq_false n129, eq_false n128, eq_true e)
            (clock e (gate32-Gate 14 v.irq0 0 b0 (omega arith) (omega arith)))
      | no n32 ↦
          rw (eq_false n129, eq_false n128, eq_false n32)
            (other n32 n128 n129 (gate32-Gate 15 v.vecnull 0 b3 (omega arith) (omega arith)))
    ]
  ]
]
