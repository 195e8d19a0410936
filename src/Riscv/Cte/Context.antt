-- ===== src/Riscv/Cte/Context.antt =====
-- kcontext of am/src/riscv/nemu/cte.c.
use native.Mathlib.Decide.{ℕ_discrete}
use openperf_abstract_machin.Prelude.{
  ℕ, zero, suc, ◌+◌, ◌*◌, ◌^◌, ◌≡◌, ◌≢◌, ◌≤◌, ◌<◌, ◌⊎◌, inl, ◌∙◌, refl, arith, Memory, write,
  sub_size,
}
use openperf_abstract_machin.Riscv.Cte.{gpr, mcause, mstatus, mepc, pdir, clear_registers, kcontext}

clear_registers_frame :
    (n i stack : ℕ) (m : Memory) (a : ℕ)
    → (a < stack + 4 * i) ⊎ (stack + 4 * (i + n) ≤ a)
    → clear_registers n i stack m a ≡ m a
unfolding clear_registers
clear_registers_frame zero i stack m a h = refl
clear_registers_frame (suc n) i stack m a h =
    clear_registers_frame n (i + 1) stack (write m (stack + 4 * i) 0) a (omega arith) ∙ ground arith

clear_registers_zero :
    (n i stack : ℕ) (m : Memory) (j : ℕ)
    → i ≤ j
    → j < i + n
    → clear_registers n i stack m (stack + 4 * j) ≡ 0
unfolding clear_registers
clear_registers_zero zero i stack m j h l = absurd (omega arith)
clear_registers_zero (suc n) i stack m j h l = elim (ℕ_discrete i j) [
  | yes e ↦
      clear_registers_frame n (i + 1) stack (write m (stack + 4 * i) 0) (stack + 4 * j)
        (inl (omega arith))
      ∙ ground arith
  | no ne ↦
      clear_registers_zero n (i + 1) stack (write m (stack + 4 * i) 0) j (omega arith) (omega arith)
]

-- A context at `c` that starts `entry` with the argument `arg`, known to the word at `start`.
pub record Starts (start c entry arg : ℕ) (m v : Memory) : Type 0 where
  pub argument : v (gpr c 10) ≡ arg
  pub registers : (i : ℕ) → i < 32 → i ≢ 10 → v (gpr c i) ≡ 0
  pub cause : v (mcause c) ≡ 11
  pub status : v (mstatus c) ≡ 0x1800
  pub counter : v (mepc c) ≡ entry
  pub space : v (pdir c) ≡ 0
  pub known : v start ≡ c
  pub others : (a : ℕ) → a ≢ start → (a < c) ⊎ (c + 144 ≤ a) → v a ≡ m a

-- On an area below 2 ^ 32 that has room for the word at its start and a context, kcontext returns
-- the context at the top of the area, which starts the given entry with the given argument, both
-- of 32 bits, in a0, with the other registers 0, cause 11 and status 0x1800; it stores the address
-- of the context at the start of the area and changes nothing else.
pub kcontext_lem :
    (start limit entry arg : ℕ) (m : Memory)
    → start + 4 + 144 ≤ limit
    → limit < 2 ^ 32
    → entry < 2 ^ 32
    → arg < 2 ^ 32
    → let (c, v) = kcontext start limit entry arg m in
      (c + 144 ≡ limit) × Starts start c entry arg m v
unfolding kcontext
kcontext_lem start limit entry arg m room high small fits = (
  omega arith,
  record {
    argument = ground arith;
    registers = λ i l ne.
        let zeroed =
          clear_registers_zero 32 0 (sub_size limit (4 * (32 + 4))) m i (omega arith)
            (omega arith) in
        ground arith;
    cause = ground arith;
    status = ground arith;
    counter = ground arith;
    space = ground arith;
    known = ground arith;
    others = λ a ne out.
        let kept = clear_registers_frame 32 0 (sub_size limit (4 * (32 + 4))) m a (omega arith) in
        ground arith;
  },
)
