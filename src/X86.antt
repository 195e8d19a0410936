-- ===== src/X86.antt =====
-- am/src/x86: the x86 machine under QEMU, as compiled for 32 bits.
pub mod Vme
pub mod Desc
pub mod Cte
pub mod Ports
pub mod Disk
pub mod Boot
pub mod Gpu
pub mod Canvas
pub mod Timer
pub mod Ioe
pub mod Apic
pub mod Start
pub mod Mpe
