-- ===== src/Native.antt =====
-- am/src/native, the abstract machine on a Linux process.
pub mod Audio
pub mod Cte
pub mod Disk
pub mod Input
pub mod Mpe
pub mod Vme
