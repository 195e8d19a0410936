-- ===== src/X86/Disk.antt =====
-- The ATA disk driver: disk_blkio of am/src/x86/qemu/ioe.c, whose helpers am/src/x86/qemu/boot/main.c
-- repeats. Memory is bytes, and words go to it with the lowest byte first.
pub mod Sector
pub mod Blocks
pub mod Plain
mod Tests
use Prim.Native.Nat.{bit_and, bit_or}
use openperf_abstract_machin.Prelude.{
  ℕ, zero, suc, ◌+◌, ◌-◌, ◌*◌, ◌/◌, ◌%◌, ◌^◌, Bool, true, false, Option, none, some, Memory, size,
  ◌==◌, if◌then◌else◌, ◌>>=◌,
}
use openperf_abstract_machin.X86.Ports.{Ports, load_word, store_word}

abbrev pub blksz : ℕ
blksz = 512

module _ {D : Type 0} (ports : Ports D) where
  -- `while ((inb(0x1f7) & 0xc0) != 0x40);`
  pub wait_disk : ℕ → D → Option D
  wait_disk zero d = none
  wait_disk (suc fuel) d =
      let (status, d') = ports.inb 0x1f7 d in
      let rest = wait_disk fuel d' in if bit_and status 0xc0 == 0x40 then some d' else rest

  -- The writes that start the transfer of one sector; `outb` takes a byte.
  pub start_transfer : ℕ → ℕ → D → D
  start_transfer command blkno d =
      let d2 = ports.outb 0x1f2 1 d in
      let d3 = ports.outb 0x1f3 (blkno % 256) d2 in
      let d4 = ports.outb 0x1f4 (blkno / 2 ^ 8 % 256) d3 in
      let d5 = ports.outb 0x1f5 (blkno / 2 ^ 16 % 256) d4 in
      let d6 = ports.outb 0x1f6 (bit_or (blkno / 2 ^ 24) 0xe0 % 256) d5 in
      ports.outb 0x1f7 command d6

  -- `*ptr++ = inl(0x1f0)` and `outl(0x1f0, *ptr++)`, with the number of words left.
  pub read_words : ℕ → ℕ → Memory → D → Memory × D
  read_words zero ptr m d = (m, d)
  read_words (suc n) ptr m d =
      let (v, d') = ports.inl 0x1f0 d in read_words n (ptr + 4) (store_word m ptr v) d'

  pub write_words : ℕ → ℕ → Memory → D → D
  write_words zero ptr m d = d
  write_words (suc n) ptr m d = write_words n (ptr + 4) m (ports.outl 0x1f0 (load_word m ptr) d)

  -- The loop of disk_blkio, with the number of blocks left; `polls` is the fuel of wait_disk.
  pub blkio_loop : ℕ → Bool → ℕ → ℕ → ℕ → Memory → D → Option (Memory × D)
  blkio_loop polls is_write zero blkno ptr m d = some (m, d)
  blkio_loop polls is_write (suc remain) blkno ptr m d = do
    d1 ← wait_disk polls d
    d2 ← wait_disk polls (start_transfer (if is_write then 0x30 else 0x20) blkno d1)
    let (m', d') =
        if is_write then (m, write_words (blksz / 4) ptr m d2) else read_words (blksz / 4) ptr m d2
    blkio_loop polls is_write remain (size (blkno + 1)) (ptr + blksz) m' d'

  pub disk_blkio : ℕ → Bool → ℕ → ℕ → ℕ → Memory → D → Option (Memory × D)
  disk_blkio polls is_write buf blkno blkcnt m d = blkio_loop polls is_write blkcnt blkno buf m d
