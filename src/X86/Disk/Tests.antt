-- ===== src/X86/Disk/Tests.antt =====
-- Blocks on a disk that meets the laws.
use openperf_abstract_machin.Prelude.{
  ℕ, ◌+◌, ◌/◌, ◌%◌, ◌≤◌, ◌<◌, ◌≡◌, ◌⊎◌, refl, arith, true, false, some, Memory, ◌>>=◌,
}
use openperf_abstract_machin.X86.Disk.{
  wait_disk, start_transfer, read_words, blkio_loop, disk_blkio,
}
use openperf_abstract_machin.X86.Disk.Plain.{PlainDisk, plain_ports, plain_disk}
use openperf_abstract_machin.X86.Disk.Blocks.{disk_blkio-disk_blkio}

-- Each byte of the memory is the low byte of its address.
abbrev low_bytes : Memory
low_bytes = λ a. a % 256

abbrev empty_disk : PlainDisk
empty_disk = record {
  registers = λ p. 0;
  code = 0;
  sector = 0;
  position = 0;
  stored = λ a. 0;
  waits = false;
}

read_run :
    (disk_blkio plain_ports 3 false 0x1000 5 1 low_bytes
        (record empty_disk { stored = λ a. a / 256 })
      >>= λ r. some (r.0 0x1000))
    ≡ some 10
unfolding disk_blkio blkio_loop wait_disk start_transfer read_words
read_run = refl

disk_blkio-disk_blkio_example :
    (d' d'' : PlainDisk) × (m' : Memory) × (disk_blkio plain_ports 3 true 0x1010 7 2 low_bytes
        empty_disk
      ≡ some (low_bytes, d'))
    × (disk_blkio plain_ports 3 false 0x8000 7 2 low_bytes d' ≡ some (m', d''))
    × ((k : ℕ) → k < 1024 → m' (0x8000 + k) ≡ low_bytes (0x1010 + k))
    × ((a : ℕ) → (a < 0x8000) ⊎ (0x8400 ≤ a) → m' a ≡ low_bytes a)
disk_blkio-disk_blkio_example =
    disk_blkio-disk_blkio plain_ports plain_disk 3 (omega arith) 0x1010 0x8000 7 2 low_bytes
      empty_disk (omega arith) (λ a. omega arith)
