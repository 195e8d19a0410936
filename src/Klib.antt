-- ===== src/Klib.antt =====
-- klib, the C library of the abstract machine.
pub mod Mem
pub mod Str
pub mod Stdlib
pub mod Stdio
pub mod Sample
