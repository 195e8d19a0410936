-- ===== src/X86/Boot.antt =====
-- am/src/x86/qemu/boot/main.c: the boot loader, which reads the arguments and an ELF file from the
-- disk. Loops over memory take fuel where their bounds are computed in `uint32_t`.
pub mod Load
mod Tests
use Prim.Native.Nat.{bit_and}
use openperf_abstract_machin.Prelude.{
  ℕ, zero, suc, ◌+◌, ◌-◌, ◌*◌, ◌/◌, ◌%◌, ◌^◌, Bool, true, false, Option, none, some, Memory, write,
  size, ltb, ◌==◌, if◌then◌else◌, ◌>>=◌,
}
use openperf_abstract_machin.Prelude.Int.{ℤ, pos, negsuc}
use openperf_abstract_machin.Klib.Stdio.{to_int}
use openperf_abstract_machin.X86.Ports.{Ports, load_word}
use openperf_abstract_machin.X86.Disk.{wait_disk, start_transfer, read_words}

abbrev pub sectsize : ℕ
sectsize = 512

abbrev pub argsize : ℕ
argsize = 1024

abbrev pub mainarg_addr : ℕ
mainarg_addr = 0x1_0000

-- EM_X86_64 of elf.h.
abbrev pub em_x86_64 : ℕ
em_x86_64 = 62

-- `(disk_offset / SECTSIZE) + (ARGSIZE / SECTSIZE) + 1` in `uint32_t`; `/` drops the fraction.
pub first_sector : ℤ → ℕ
first_sector (pos n) = size (n / sectsize + argsize / sectsize + 1)
first_sector (negsuc n) = size (2 ^ 32 - (n + 1) / sectsize + argsize / sectsize + 1)

-- The loop that sets the bytes behind the file's part to 0, from `i` up to `memsz`.
pub clear_bss : ℕ → ℕ → ℕ → ℕ → Memory → Option Memory
clear_bss zero i memsz bss m = none
clear_bss (suc fuel) i memsz bss m =
    let rest : Option Memory =
      clear_bss fuel (size (i + 1)) memsz (size (bss + 1)) (write m bss 0) in
    if i == memsz then some m else rest

-- The 16 bits at an address.
abbrev pub load_half : Memory → ℕ → ℕ
load_half m a = m a + 2 ^ 8 * m (a + 1)

module _ {D : Type 0} (ports : Ports D) (polls : ℕ) where
  pub read_disk : ℕ → ℕ → Memory → D → Option (Memory × D)
  read_disk buf sect m d = do
    d1 ← wait_disk ports polls d
    d2 ← wait_disk ports polls (start_transfer ports 0x20 sect d1)
    some (read_words ports (sectsize / 4) buf m d2)

  -- The loop of copy_from_disk.
  pub copy_sectors : ℕ → ℕ → ℕ → ℕ → Memory → D → Option (Memory × D)
  copy_sectors zero cur ed sect m d = none
  copy_sectors (suc fuel) cur ed sect m d =
      let rest : Option (Memory × D) =
        (read_disk cur sect m d >>= λ r.
        copy_sectors fuel (size (cur + sectsize)) ed (size (sect + 1)) r.0 r.1) in
      if ltb cur ed then rest else some (m, d)

  pub copy_from_disk : ℕ → ℕ → ℕ → ℤ → Memory → D → Option (Memory × D)
  copy_from_disk fuel buf nbytes disk_offset m d =
      copy_sectors fuel (bit_and buf (2 ^ 32 - sectsize)) (size (buf + nbytes))
        (first_sector disk_offset) m d

  pub load_program : ℕ → ℕ → ℕ → ℕ → ℕ → Memory → D → Option (Memory × D)
  load_program fuel filesz memsz paddr offset m d = do
    (m1, d1) ← copy_from_disk fuel paddr filesz (to_int offset) m d
    m2 ← clear_bss fuel filesz memsz (size (paddr + filesz)) m1
    some (m2, d1)

  -- The loop over the program headers, with the number of headers left; the offsets are those of
  -- the fields p_filesz, p_memsz, p_paddr and p_offset, and the size of a header.
  pub load_headers : ℕ → ℕ → ℕ → (ℕ × ℕ × ℕ × ℕ) → ℕ → Memory → D → Option (Memory × D)
  load_headers fuel zero ph fields step m d = some (m, d)
  load_headers fuel (suc n) ph fields step m d = do
    (m', d') ←
        load_program fuel (load_word m (ph + fields.0)) (load_word m (ph + fields.1))
          (load_word m (ph + fields.2)) (load_word m (ph + fields.3)) m d
    load_headers fuel n (size (ph + step)) fields step m' d'

  -- The layouts of elf.h: e_phoff and e_phnum of the file header, then the program headers. A
  -- 64-bit field is cut to its lower half.
  pub load_elf32 : ℕ → ℕ → Memory → D → Option (Memory × D)
  load_elf32 fuel elf m d =
      load_headers fuel (load_half m (elf + 44)) (size (elf + load_word m (elf + 28)))
        (16, 20, 12, 4) 32 m d

  pub load_elf64 : ℕ → ℕ → Memory → D → Option (Memory × D)
  load_elf64 fuel elf m d =
      load_headers fuel (load_half m (elf + 56)) (size (elf + load_word m (elf + 32)))
        (32, 40, 24, 8) 56 m d

  -- The result has the address that is jumped to. `is_ap` is the word of the boot record.
  pub load_kernel : ℕ → Bool → Memory → D → Option (ℕ × Memory × D)
  load_kernel fuel is_ap m d =
      let elf : ℕ = 0x8000 in
      (if is_ap then some (m, d) else (do
        (m1, d1) ← copy_from_disk fuel mainarg_addr 1024 (negsuc 1023) m d
        (m2, d2) ← copy_from_disk fuel elf 4096 (pos 0) m1 d1
        if load_half m2 (elf + 18) == em_x86_64
            then load_elf64 fuel elf m2 d2
            else load_elf32 fuel elf m2 d2))
      >>= λ r. some (load_word r.0 (elf + 24), r.0, r.1)
