-- ===== src/Riscv.antt =====
-- am/src/riscv: the RISC-V machine under NEMU, and the serial ports of two boards.
pub mod Cte
pub mod Uart
pub mod Vme
