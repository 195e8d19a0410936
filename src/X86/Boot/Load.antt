-- ===== src/X86/Boot/Load.antt =====
-- What load_program of am/src/x86/qemu/boot/main.c puts into memory.
use Prim.Native.Nat.{bit_and}
use native.Mathlib.Decide.{ℕ_discrete}
use openperf_abstract_machin.Prelude.{
  ℕ, zero, suc, ◌+◌, ◌-◌, ◌*◌, ◌/◌, ◌%◌, ◌^◌, ◌≤◌, ◌<◌, ◌≡◌, ◌≢◌, ◌⊎◌, inl, ◌∙◌, refl, ap, sym,
  arith, some, Memory, write, size, eq_true, eq_false, lt_false, lt→ltb,
}
use openperf_abstract_machin.Prelude.Bits.{bit_and_field}
use openperf_abstract_machin.Prelude.Int.{pos}
use openperf_abstract_machin.Klib.Stdio.{to_int}
use openperf_abstract_machin.X86.Ports.{Ports, Ata}
use openperf_abstract_machin.X86.Disk.{wait_disk, start_transfer, read_words}
use openperf_abstract_machin.X86.Disk.Sector.{ReadIn, read_words_lem}
use openperf_abstract_machin.X86.Disk.Blocks.{ready_lem, Loaded, Loaded-suc}
use openperf_abstract_machin.X86.Boot.{
  first_sector, clear_bss, read_disk, copy_sectors, copy_from_disk, load_program,
}

-- Zeros from `bss` on.
clear_bss_lem :
    (n fuel i memsz bss : ℕ) (m : Memory)
    → memsz ≡ i + n
    → memsz < 2 ^ 32
    → bss + n < 2 ^ 32
    → n < fuel
    → (m' : Memory) × (clear_bss fuel i memsz bss m ≡ some m')
      × ((k : ℕ) → k < n → m' (bss + k) ≡ 0)
      × ((a : ℕ) → (a < bss) ⊎ (bss + n ≤ a) → m' a ≡ m a)
unfolding clear_bss
clear_bss_lem n zero i memsz bss m e small fits l = absurd (omega arith)
clear_bss_lem zero (suc fuel) i memsz bss m e small fits l =
    let done : i ≡ memsz = omega arith in
    (m, rw (eq_true done) refl, (λ k lk. absurd (omega arith)), λ a o. refl)
clear_bss_lem (suc n) (suc fuel) i memsz bss m e small fits l =
    let more : i ≢ memsz = omega arith in
    let i1 : size (i + 1) ≡ i + 1 = omega arith in
    let b1 : size (bss + 1) ≡ bss + 1 = omega arith in
    let step : clear_bss (suc fuel) i memsz bss m
        ≡ clear_bss fuel (i + 1) memsz (bss + 1) (write m bss 0) =
      rw (eq_false more, i1, b1) refl in
    let (m', runs, zeros, rest) =
      clear_bss_lem n fuel (i + 1) memsz (bss + 1) (write m bss 0) (omega arith) small (omega arith)
        (omega arith) in
    (
      m',
      step ∙ runs,
      (λ k lk. elim (ℕ_discrete k 0) [
        | yes z ↦ rest (bss + k) (omega arith) ∙ ground arith
        | no nz ↦
            let at : bss + 1 + (k - 1) ≡ bss + k = omega arith in
            ap m' (sym at) ∙ zeros (k - 1) (omega arith)
      ]),
      λ a o. rest a (omega arith) ∙ ground arith,
    )

module _ {D : Type 0} (ports : Ports D) (ata : Ata ports) (polls : ℕ)
    (enough : ata.patience < polls) where
  read_disk_run :
      (buf sect : ℕ) (m : Memory) (d d1 d2 : D)
      → wait_disk ports polls d ≡ some d1
      → wait_disk ports polls (start_transfer ports 0x20 sect d1) ≡ some d2
      → read_disk ports polls buf sect m d ≡ some (read_words ports 128 buf m d2)
  unfolding read_disk
  read_disk_run buf sect m d d1 d2 run1 run2 = rw (run1, run2) refl

  copy_sectors_step :
      (fuel cur ed sect : ℕ) (m : Memory) (d d2 : D)
      → cur < ed
      → cur + 512 < 2 ^ 32
      → sect + 1 < 2 ^ 32
      → read_disk ports polls cur sect m d ≡ some (read_words ports 128 cur m d2)
      → copy_sectors ports polls (suc fuel) cur ed sect m d
        ≡ copy_sectors ports polls fuel
            (cur + 512)
            ed
            (sect + 1)
            (read_words ports 128 cur m d2).0
            (read_words ports 128 cur m d2).1
  unfolding copy_sectors
  copy_sectors_step fuel cur ed sect m d d2 l fits small run =
      let c1 : size (cur + 512) ≡ cur + 512 = omega arith in
      let s1 : size (sect + 1) ≡ sect + 1 = omega arith in rw (lt→ltb cur ed l, run, c1, s1) refl

  copy_sectors_lem :
      (n fuel cur ed sect : ℕ) (m : Memory) (d : D)
      → ed ≤ cur + 512 * n
      → cur + 512 * n < ed + 512
      → cur + 512 * n < 2 ^ 32
      → sect + n ≤ 2 ^ 28
      → n < fuel
      → (m' : Memory) × (d' : D) × (copy_sectors ports polls fuel cur ed sect m d ≡ some (m', d'))
        × Loaded ports ata polls enough n sect cur m d m' d'
  unfolding copy_sectors
  copy_sectors_lem n zero cur ed sect m d up low fits small l = absurd (omega arith)
  copy_sectors_lem zero (suc fuel) cur ed sect m d up low fits small l = (
    m,
    d,
    rw (lt_false {a = cur} {b = ed} (omega arith)) refl,
    record { inside = λ k lk. absurd (omega arith); outside = λ a o. refl; same_stored = refl },
  )
  copy_sectors_lem (suc n) (suc fuel) cur ed sect m d up low fits small l =
      let (d1, d2, run1, run2, rd) =
        ready_lem ports ata polls enough 0x20 sect d (inl refl) (omega arith) in
      let run : read_disk ports polls cur sect m d ≡ some (read_words ports 128 cur m d2) =
        read_disk_run cur sect m d d1 d2 run1 run2 in
      let m1 = (read_words ports 128 cur m d2).0 in
      let d3 = (read_words ports 128 cur m d2).1 in
      let words : ReadIn ports ata 128 cur m d2 m1 d3 =
        read_words_lem ports ata 128 cur m d2 (omega (arith, rd.start)) (λ _. rd.free) rd.code in
      let (m', d', runs, rest) =
        copy_sectors_lem n fuel (cur + 512) ed (sect + 1) m1 d3 (omega arith) (omega arith)
          (omega arith) (omega arith) (omega arith) in
      (
        m',
        d',
        copy_sectors_step fuel cur ed sect m d d2 (omega arith) (omega arith) (omega arith) run
            ∙ runs,
        Loaded-suc ports ata polls enough n sect cur m m1 m' d d2 d3 d' rd words rest,
      )

  -- The sectors that hold `nbytes` bytes at `buf`.
  abbrev pub sectors : ℕ → ℕ → ℕ
  sectors buf nbytes = (buf % 512 + nbytes + 511) / 512

  copy_from_disk_lem :
      (fuel buf nbytes offset : ℕ) (m : Memory) (d : D)
      → buf + nbytes + 512 < 2 ^ 32
      → offset + nbytes < 2 ^ 31
      → buf % 512 ≡ offset % 512
      → sectors buf nbytes < fuel
      → (m' : Memory) × (d' : D) × (copy_from_disk ports polls fuel buf nbytes (pos offset) m d
          ≡ some (m', d'))
        × Loaded ports ata polls enough
            (sectors buf nbytes)
            (offset / 512 + 3)
            (buf / 512 * 512)
            m
            d
            m'
            d'
  unfolding copy_from_disk first_sector
  copy_from_disk_lem fuel buf nbytes offset m d fits small congruent l =
      let cur : bit_and buf (2 ^ 32 - 512) ≡ buf / 512 * 512 =
        omega (arith, bit_and_field 9 23 buf) in
      let ed : size (buf + nbytes) ≡ buf + nbytes = omega arith in
      let sect : size (offset / 512 + 1024 / 512 + 1) ≡ offset / 512 + 3 = omega arith in
      let (m', d', runs, loaded) =
        copy_sectors_lem (sectors buf nbytes) fuel (buf / 512 * 512) (buf + nbytes)
          (offset / 512 + 3) m d (omega arith) (omega arith) (omega arith) (omega arith) l in
      let step : copy_from_disk ports polls fuel buf nbytes (pos offset) m d
          ≡ copy_sectors ports polls fuel (buf / 512 * 512) (buf + nbytes) (offset / 512 + 3) m d =
        rw (cur, ed, sect) refl in
      (m', d', step ∙ runs, loaded)

  -- A segment in memory: the file's bytes, which start three sectors behind those of the disk, then
  -- zeros. The rest of the sectors that hold the file's bytes is overwritten, too, up to the end of
  -- the last one.
  pub record Segment (filesz memsz paddr offset : ℕ) (m : Memory) (d : D) (m' : Memory)
      : Type 0 where
    pub file : (k : ℕ) → k < filesz → m' (paddr + k) ≡ (ata.view d).stored (offset + 1536 + k)
    pub zeros : (k : ℕ) → filesz ≤ k → k < memsz → m' (paddr + k) ≡ 0
    pub rest :
        (a : ℕ)
        → (a < paddr / 512 * 512) ⊎ (((paddr + filesz + 511) / 512 * 512 ≤ a) × (paddr + memsz ≤ a))
        → m' a ≡ m a

  load_program_run :
      (fuel filesz memsz paddr offset : ℕ) (m m1 m2 : Memory) (d d1 : D)
      → to_int offset ≡ pos offset
      → size (paddr + filesz) ≡ paddr + filesz
      → copy_from_disk ports polls fuel paddr filesz (pos offset) m d ≡ some (m1, d1)
      → clear_bss fuel filesz memsz (paddr + filesz) m1 ≡ some m2
      → load_program ports polls fuel filesz memsz paddr offset m d ≡ some (m2, d1)
  unfolding load_program
  load_program_run fuel filesz memsz paddr offset m m1 m2 d d1 signed behind run1 run2 =
      rw (signed, behind, run1, run2) refl

  -- On a disk that meets the ATA laws, with enough polls and fuel, for a segment whose file part is
  -- no larger than the segment, whose address and offset agree modulo 512, that ends 512 below 2 ^
  -- 32 in memory and below 2 ^ 31 in the file, load_program succeeds: the file part holds the bytes
  -- that the disk has behind its first three sectors, the rest of the segment is zero, and no byte
  -- is changed that is outside of the segment and outside of the 512-byte units of memory from that
  -- of its address up to the end of the file part.
  pub load_program_lem :
      (fuel filesz memsz paddr offset : ℕ) (m : Memory) (d : D)
      → filesz ≤ memsz
      → paddr + memsz + 512 < 2 ^ 32
      → offset + filesz < 2 ^ 31
      → paddr % 512 ≡ offset % 512
      → sectors paddr filesz < fuel
      → memsz - filesz < fuel
      → (m' : Memory) × (d' : D) × (load_program ports polls fuel filesz memsz paddr offset m d
          ≡ some (m', d'))
        × Segment filesz memsz paddr offset m d m'
  load_program_lem fuel filesz memsz paddr offset m d part fits small congruent l l' =
      let (m1, d1, run1, loaded) =
        copy_from_disk_lem fuel paddr filesz offset m d (omega arith) (omega arith) congruent l in
      let behind : size (paddr + filesz) ≡ paddr + filesz = omega arith in
      let (m2, run2, zeros, kept) =
        clear_bss_lem (memsz - filesz) fuel filesz memsz (paddr + filesz) m1 (omega arith)
          (omega arith) (omega arith) l' in
      let signed : to_int offset ≡ pos offset = ground arith in
      (
        m2,
        d1,
        load_program_run fuel filesz memsz paddr offset m m1 m2 d d1 signed behind run1 run2,
        record {
          file = λ k lk.
              let at : paddr / 512 * 512 + (paddr % 512 + k) ≡ paddr + k = omega arith in
              let from : 512 * (offset / 512 + 3) + (paddr % 512 + k) ≡ offset + 1536 + k =
                omega arith in
              kept (paddr + k) (omega arith)
              ∙ ap m1 (sym at)
              ∙ loaded.inside (paddr % 512 + k) (omega arith)
              ∙ ap (ata.view d).stored from;
          zeros = λ k lo hi.
              let at : paddr + filesz + (k - filesz) ≡ paddr + k = omega arith in
              ap m2 (sym at) ∙ zeros (k - filesz) (omega arith);
          rest = λ a o. kept a (omega arith) ∙ loaded.outside a (omega arith);
        },
      )
