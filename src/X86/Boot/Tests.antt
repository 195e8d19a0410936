-- ===== src/X86/Boot/Tests.antt =====
-- A segment that a disk which meets the laws holds.
use openperf_abstract_machin.Prelude.{◌+◌, ◌≡◌, arith, false, some, Memory}
use openperf_abstract_machin.X86.Disk.Plain.{PlainDisk, plain_ports, plain_disk}
use openperf_abstract_machin.X86.Boot.{load_program}
use openperf_abstract_machin.X86.Boot.Load.{Segment, load_program_lem}

-- Each byte that is stored is the low byte of its address plus 1.
abbrev file_disk : PlainDisk
file_disk = record {
  registers = λ p. 0;
  code = 0;
  sector = 0;
  position = 0;
  stored = λ a. a + 1;
  waits = false;
}

abbrev nines : Memory
nines = λ a. 9

load_program_lem_example :
    (m' : Memory) × (d' : PlainDisk) × (load_program plain_ports 3 8 20 24 0x10_0010 0x1010 nines
        file_disk
      ≡ some (m', d'))
    × Segment plain_ports plain_disk 3 (omega arith) 20 24 0x10_0010 0x1010 nines file_disk m'
load_program_lem_example =
    load_program_lem plain_ports plain_disk 3 (omega arith) 8 20 24 0x10_0010 0x1010 nines file_disk
      (omega arith) (omega arith) (omega arith) (omega arith) (omega arith) (omega arith)
