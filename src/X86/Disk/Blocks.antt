-- ===== src/X86/Disk/Blocks.antt =====
-- disk_blkio of am/src/x86/qemu/ioe.c: blocks go between the memory and the disk.
use native.Mathlib.Decide.{dec_lt}
use openperf_abstract_machin.Prelude.{
  ℕ, zero, suc, ◌+◌, ◌-◌, ◌*◌, ◌^◌, ◌≤◌, ◌<◌, ◌≡◌, ◌⊎◌, inl, inr, ◌∙◌, refl, ap, sym, arith, true,
  false, some, Memory, size,
}
use openperf_abstract_machin.X86.Ports.{Ports, Ata, reached}
use openperf_abstract_machin.X86.Disk.{
  wait_disk, start_transfer, read_words, write_words, blkio_loop, disk_blkio,
}
use openperf_abstract_machin.X86.Disk.Sector.{
  wait_disk_lem, start_transfer_lem, ReadIn, read_words_lem, write_words_lem,
}

module _ {D : Type 0} (ports : Ports D) (ata : Ata ports) (polls : ℕ)
    (enough : ata.patience < polls) where
  -- The disk is ready for the words of sector `blkno` after a command.
  pub record Ready (command blkno : ℕ) (d d2 : D) : Type 0 where
    pub free : (ata.view d2).busy ≡ 0
    pub code : (ata.view d2).code ≡ command
    pub at : reached (ata.view d2) ≡ 512 * blkno
    pub start : (ata.view d2).position ≡ 0
    pub same : (ata.view d2).stored ≡ (ata.view d).stored

  -- The waits on either side of the command.
  pub ready_lem :
      (command blkno : ℕ) (d : D)
      → (command ≡ 0x20) ⊎ (command ≡ 0x30)
      → blkno < 2 ^ 28
      → (d1 d2 : D) × (wait_disk ports polls d ≡ some d1)
        × (wait_disk ports polls (start_transfer ports command blkno d1) ≡ some d2)
        × Ready command blkno d d2
  ready_lem command blkno d c l =
      let (d1, run1, w1) = wait_disk_lem ports ata polls d (omega (arith, ata.patient d)) in
      let d' = start_transfer ports command blkno d1 in
      let (code, sector, position, stored) =
        start_transfer_lem ports ata command blkno d1 c l w1.free in
      let (d2, run2, w2) = wait_disk_lem ports ata polls d' (omega (arith, ata.patient d')) in
      (
        d1,
        d2,
        run1,
        run2,
        record {
          free = w2.free;
          code = w2.code ∙ code;
          at = omega (arith, w2.sector, w2.position);
          start = omega (arith, w2.position);
          same = w2.stored ∙ stored ∙ w1.stored;
        },
      )

  -- Blocks that have been read, and blocks that have been written.
  pub record Loaded (cnt blkno ptr : ℕ) (m : Memory) (d : D) (m' : Memory) (d' : D) : Type 0 where
    pub inside : (k : ℕ) → k < 512 * cnt → m' (ptr + k) ≡ (ata.view d).stored (512 * blkno + k)
    pub outside : (a : ℕ) → (a < ptr) ⊎ (ptr + 512 * cnt ≤ a) → m' a ≡ m a
    pub same_stored : (ata.view d').stored ≡ (ata.view d).stored

  pub record Saved (cnt blkno ptr : ℕ) (m : Memory) (d d' : D) : Type 0 where
    pub inside : (k : ℕ) → k < 512 * cnt → (ata.view d').stored (512 * blkno + k) ≡ m (ptr + k)
    pub outside :
        (a : ℕ)
        → (a < 512 * blkno) ⊎ (512 * blkno + 512 * cnt ≤ a)
        → (ata.view d').stored a ≡ (ata.view d).stored a

  -- A block, and those behind it.
  pub Loaded-suc :
      (cnt blkno ptr : ℕ) (m m1 m' : Memory) (d d2 d3 d' : D)
      → Ready 0x20 blkno d d2
      → ReadIn ports ata 128 ptr m d2 m1 d3
      → Loaded cnt (blkno + 1) (ptr + 512) m1 d3 m' d'
      → Loaded (suc cnt) blkno ptr m d m' d'
  Loaded-suc cnt blkno ptr m m1 m' d d2 d3 d' rd words rest = record {
    inside = λ k l. elim (dec_lt k 512) [
      | yes low ↦
          rest.outside (ptr + k) (omega arith)
          ∙ words.inside k (omega arith)
          ∙ ap (λ (s : Memory). s (reached (ata.view d2) + k)) rd.same
          ∙ ap (λ b. (ata.view d).stored (b + k)) rd.at
      | no high ↦
          let at : ptr + 512 + (k - 512) ≡ ptr + k = omega arith in
          let from : 512 * (blkno + 1) + (k - 512) ≡ 512 * blkno + k = omega arith in
          ap m' (sym at)
          ∙ rest.inside (k - 512) (omega arith)
          ∙ ap (λ (s : Memory). s (512 * (blkno + 1) + (k - 512))) (words.same_stored ∙ rd.same)
          ∙ ap (ata.view d).stored from
    ];
    outside = λ a o. rest.outside a (omega arith) ∙ words.outside a (omega arith);
    same_stored = rest.same_stored ∙ words.same_stored ∙ rd.same;
  }

  read_step :
      (cnt blkno ptr : ℕ) (m : Memory) (d d1 d2 : D)
      → blkno + 1 < 2 ^ 32
      → wait_disk ports polls d ≡ some d1
      → wait_disk ports polls (start_transfer ports 0x20 blkno d1) ≡ some d2
      → blkio_loop ports polls false (suc cnt) blkno ptr m d
        ≡ blkio_loop ports polls false cnt
            (blkno + 1)
            (ptr + 512)
            (read_words ports 128 ptr m d2).0
            (read_words ports 128 ptr m d2).1
  unfolding blkio_loop
  read_step cnt blkno ptr m d d1 d2 l run1 run2 =
      let next : size (blkno + 1) ≡ blkno + 1 = omega arith in rw (run1, run2, next) refl

  write_step :
      (cnt blkno ptr : ℕ) (m : Memory) (d d1 d2 : D)
      → blkno + 1 < 2 ^ 32
      → wait_disk ports polls d ≡ some d1
      → wait_disk ports polls (start_transfer ports 0x30 blkno d1) ≡ some d2
      → blkio_loop ports polls true (suc cnt) blkno ptr m d
        ≡ blkio_loop ports polls true cnt (blkno + 1) (ptr + 512) m (write_words ports 128 ptr m d2)
  unfolding blkio_loop
  write_step cnt blkno ptr m d d1 d2 l run1 run2 =
      let next : size (blkno + 1) ≡ blkno + 1 = omega arith in rw (run1, run2, next) refl

  read_loop :
      (cnt blkno ptr : ℕ) (m : Memory) (d : D)
      → blkno + cnt ≤ 2 ^ 28
      → (m' : Memory) × (d' : D) × (blkio_loop ports polls false cnt blkno ptr m d ≡ some (m', d'))
        × Loaded cnt blkno ptr m d m' d'
  unfolding blkio_loop
  read_loop zero blkno ptr m d h = (
    m,
    d,
    refl,
    record { inside = λ k l. absurd (omega arith); outside = λ a o. refl; same_stored = refl },
  )
  read_loop (suc cnt) blkno ptr m d h =
      let (d1, d2, run1, run2, rd) = ready_lem 0x20 blkno d (inl refl) (omega arith) in
      let m1 = (read_words ports 128 ptr m d2).0 in
      let d3 = (read_words ports 128 ptr m d2).1 in
      let words : ReadIn ports ata 128 ptr m d2 m1 d3 =
        read_words_lem ports ata 128 ptr m d2 (omega (arith, rd.start)) (λ _. rd.free) rd.code in
      let (m', d', runs, rest) = read_loop cnt (blkno + 1) (ptr + 512) m1 d3 (omega arith) in
      (
        m',
        d',
        read_step cnt blkno ptr m d d1 d2 (omega arith) run1 run2 ∙ runs,
        Loaded-suc cnt blkno ptr m m1 m' d d2 d3 d' rd words rest,
      )

  write_loop :
      (cnt blkno ptr : ℕ) (m : Memory) (d : D)
      → blkno + cnt ≤ 2 ^ 28
      → ((a : ℕ) → m a < 256)
      → (d' : D) × (blkio_loop ports polls true cnt blkno ptr m d ≡ some (m, d'))
        × Saved cnt blkno ptr m d d'
  unfolding blkio_loop
  write_loop zero blkno ptr m d h b =
      (d, refl, record { inside = λ k l. absurd (omega arith); outside = λ a o. refl })
  write_loop (suc cnt) blkno ptr m d h b =
      let (d1, d2, run1, run2, rd) = ready_lem 0x30 blkno d (inr refl) (omega arith) in
      let d3 = write_words ports 128 ptr m d2 in
      let words =
        write_words_lem ports ata 128 ptr m d2 (omega (arith, rd.start)) (λ _. rd.free) rd.code b in
      let (d', runs, rest) = write_loop cnt (blkno + 1) (ptr + 512) m d3 (omega arith) b in
      let at_block = rd.at in
      (
        d',
        write_step cnt blkno ptr m d d1 d2 (omega arith) run1 run2 ∙ runs,
        record {
          inside = λ k l. elim (dec_lt k 512) [
            | yes low ↦
                rest.outside (512 * blkno + k) (omega arith)
                ∙ ap (λ b. (ata.view d3).stored (b + k)) (sym rd.at)
                ∙ words.inside k (omega arith)
            | no high ↦
                let at : ptr + 512 + (k - 512) ≡ ptr + k = omega arith in
                let from : 512 * (blkno + 1) + (k - 512) ≡ 512 * blkno + k = omega arith in
                ap (ata.view d').stored (sym from) ∙ rest.inside (k - 512) (omega arith) ∙ ap m at
          ];
          outside = λ a o.
              rest.outside a (omega arith)
              ∙ words.outside a (omega arith)
              ∙ ap (λ (s : Memory). s a) rd.same;
        },
      )

  -- read
  pub disk_blkio-read :
      (buf blkno cnt : ℕ) (m : Memory) (d : D)
      → blkno + cnt ≤ 2 ^ 28
      → (m' : Memory) × (d' : D) × (disk_blkio ports polls false buf blkno cnt m d ≡ some (m', d'))
        × Loaded cnt blkno buf m d m' d'
  unfolding disk_blkio
  disk_blkio-read buf blkno cnt m d h = read_loop cnt blkno buf m d h

  -- write
  pub disk_blkio-write :
      (buf blkno cnt : ℕ) (m : Memory) (d : D)
      → blkno + cnt ≤ 2 ^ 28
      → ((a : ℕ) → m a < 256)
      → (d' : D) × (disk_blkio ports polls true buf blkno cnt m d ≡ some (m, d'))
        × Saved cnt blkno buf m d d'
  unfolding disk_blkio
  disk_blkio-write buf blkno cnt m d h b = write_loop cnt blkno buf m d h b

  -- On a disk that meets the ATA laws, with more polls than the disk has patience and blocks below
  -- number 2 ^ 28, writing blocks from the memory and reading the same blocks to another place
  -- succeeds; the bytes there are those that were written, if those are bytes, and the rest of the
  -- memory is left alone.
  pub disk_blkio-disk_blkio :
      (buf back blkno cnt : ℕ) (m : Memory) (d : D)
      → blkno + cnt ≤ 2 ^ 28
      → ((a : ℕ) → m a < 256)
      → (d' d'' : D) × (m' : Memory) × (disk_blkio ports polls true buf blkno cnt m d
          ≡ some (m, d'))
        × (disk_blkio ports polls false back blkno cnt m d' ≡ some (m', d''))
        × ((k : ℕ) → k < 512 * cnt → m' (back + k) ≡ m (buf + k))
        × ((a : ℕ) → (a < back) ⊎ (back + 512 * cnt ≤ a) → m' a ≡ m a)
  disk_blkio-disk_blkio buf back blkno cnt m d h b =
      let (d', wrote, saved) = disk_blkio-write buf blkno cnt m d h b in
      let (m', d'', was_read, loaded) = disk_blkio-read back blkno cnt m d' h in
      (d', d'', m', wrote, was_read, (λ k l. loaded.inside k l ∙ saved.inside k l), loaded.outside)
