-- ===== src/Nemu/Traps.antt =====
-- cte_init of am/src/x86/nemu/cte.c and am/src/mips/nemu/cte.c: where the traps lead to under NEMU. The
-- entry points in assembly are parameters. On both, as on LoongArch, __am_irq_handle reports an error
-- for each trap.
pub mod Entry
mod Tests
use Prim.Native.Nat.{bit_and, bit_or}
use openperf_abstract_machin.Prelude.{
  ℕ, ◌+◌, ◌/◌, ◌^◌, Memory, write, Option, none, some, ◌==◌, if◌then◌else◌, ◌>>=◌,
}
use openperf_abstract_machin.Am.{event_error, EventInfo}
use openperf_abstract_machin.X86.Desc.{
  sts_tg, seg_kcode, ksel, dpl_kern, dpl_user, GateDesc32, gate32,
}

abbrev pub sts_ig : ℕ
sts_ig = 0xe

-- __am_irq0, __am_vecsys, __am_vectrap and __am_vecnull.
pub record NemuVectors : Type 0 where
  pub irq0 : ℕ
  pub vecsys : ℕ
  pub vectrap : ℕ
  pub vecnull : ℕ

-- The loop, and the three writes after it.
pub nemu_idt : NemuVectors → ℕ → GateDesc32
nemu_idt v i =
    if i == 0x81
    then gate32 sts_tg (ksel seg_kcode) v.vectrap dpl_kern
    else if i == 0x80
    then gate32 sts_tg (ksel seg_kcode) v.vecsys dpl_user
    else if i == 32
    then gate32 sts_ig (ksel seg_kcode) v.irq0 dpl_kern
    else gate32 sts_tg (ksel seg_kcode) v.vecnull dpl_kern

-- `j_opcode | ((__am_asm_trap >> 2) & 0x3ffffff)`
pub j_instr : ℕ → ℕ
j_instr asm_trap = bit_or 0x800_0000 (bit_and (asm_trap / 2 ^ 2) 0x3ff_ffff)

-- The writes to memory, as words at their byte address.
pub mips_cte_init : ℕ → Memory → Memory
mips_cte_init asm_trap m =
    let m1 = write m 0x8000_0180 (j_instr asm_trap) in
    let m2 = write m1 0x8000_0184 0 in
    let m3 = write m2 0x8000_0000 (j_instr asm_trap) in write m3 0x8000_0004 0

-- `__am_irq_handle`, where `none` as the handler is none that cte_init has been given; NULL as a
-- result fails the assertion.
pub skeleton_irq_handle : {C : Type 0} → Option (EventInfo → C → Option C) → C → Option C
skeleton_irq_handle none c = some c
skeleton_irq_handle (some handler) c =
    handler (record { event = event_error; cause = 0; ref = 0 }) c
