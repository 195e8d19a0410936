-- ===== src/Nemu.antt =====
-- The devices of am/src/platform/nemu on RISC-V, the clocks of two boards, and the traps of x86 and
-- MIPS under NEMU.
pub mod Gpu
pub mod Traps
pub mod Audio
pub mod Clock
