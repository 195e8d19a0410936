-- ===== src/Native/Disk/Blocks.antt =====
-- What am_disk_blkio does on a file of any size.
use openperf_abstract_machin.Prelude.{
  ℕ, ◌+◌, ◌*◌, ◌/◌, ◌^◌, ◌≤◌, ◌<◌, ◌≡◌, ◌⊎◌, inl, inr, refl, sym, ap, ◌∙◌, arith, Bool, Bool-cases,
  true, false, Option, some, Memory, size, eq_true, lt→ltb,
}
use mathlib.Core.Path.{subst}
use native.Mathlib.Decide.{dec_le}
use openperf_abstract_machin.Native.Disk.{
  Stdio, FileDisk, done, assertion_failed, int_mul, am_disk_blkio, am_disk_init, am_disk_config,
  am_disk_start, is_open, assert_item, blkio_items, blkio_file, open_disk,
}
use openperf_abstract_machin.Native.Disk.File.{FileView, Moved, File}

int_mul-some : (a : ℕ) → a * 512 < 2 ^ 31 → int_mul a 512 ≡ some (a * 512)
unfolding int_mul
int_mul-some a h = rw (lt→ltb _ _ h)

assert_item-one :
    {F : Type 0} {ret : ℕ} (m : Memory) (d : FileDisk F)
    → ret ≡ 1
    → assert_item ret m d ≡ done (m, d)
unfolding assert_item
assert_item-one m d h = rw (eq_true h)

assert_item-zero :
    {F : Type 0} {ret : ℕ} (m : Memory) (d : FileDisk F)
    → ret ≡ 0
    → assert_item ret m d ≡ assertion_failed
unfolding assert_item
assert_item-zero m d h = rw h refl

module _ {F : Type 0} (stdio : Stdio F) (file : File stdio) where
  -- With products that are ints, one item is moved where the block begins.
  am_disk_blkio-blkio_items :
      (is_write : Bool) (buf blkno cnt : ℕ) (m : Memory) (d : FileDisk F) (f : F)
      → d.fp ≡ some f
      → blkno * 512 < 2 ^ 31
      → cnt * 512 < 2 ^ 31
      → am_disk_blkio stdio is_write buf blkno cnt m d
        ≡ blkio_items stdio is_write buf (cnt * 512) m (stdio.fseek (blkno * 512) f) d
  unfolding am_disk_blkio blkio_file
  am_disk_blkio-blkio_items is_write buf blkno cnt m d f o s t =
      rw (o, int_mul-some blkno s, int_mul-some cnt t) refl

  -- read
  pub am_disk_blkio-read :
      (buf blkno cnt : ℕ) (m : Memory) (d : FileDisk F) (f : F)
      → d.fp ≡ some f
      → 0 < cnt
      → (blkno + cnt) * 512 ≤ (file.view f).length
      → blkno * 512 < 2 ^ 31
      → cnt * 512 < 2 ^ 31
      → (m' : Memory) × (f' : F) × (am_disk_blkio stdio false buf blkno cnt m d
          ≡ done (m', record d { fp = some f' }))
        × Moved (cnt * 512) (blkno * 512) buf (file.view f).bytes m m'
        × (file.view f').bytes ≡ (file.view f).bytes
        × (file.view f').length ≡ (file.view f).length
  unfolding blkio_items
  am_disk_blkio-read buf blkno cnt m d f o c l s t =
      let g = stdio.fseek (blkno * 512) f in
      let at = file.seek (blkno * 512) f in
      let fits : (file.view g).position + cnt * 512 ≤ (file.view g).length =
        subst (λ (v : FileView). v.position + cnt * 512 ≤ v.length) (sym at) (omega arith) in
      let (one, moved, kept, long) = file.read_item buf (cnt * 512) m g (omega arith) fits in
      let m' = (stdio.fread buf (cnt * 512) m g).1 in
      (
        m',
        (stdio.fread buf (cnt * 512) m g).2,
        am_disk_blkio-blkio_items false buf blkno cnt m d f o s t ∙ assert_item-one _ _ one,
        subst (λ (v : FileView). Moved (cnt * 512) v.position buf v.bytes m m') at moved,
        kept ∙ ap FileView.bytes at,
        long ∙ ap FileView.length at,
      )

  -- short
  pub am_disk_blkio-short :
      (buf blkno cnt : ℕ) (m : Memory) (d : FileDisk F) (f : F)
      → d.fp ≡ some f
      → (cnt ≡ 0) ⊎ ((file.view f).length < (blkno + cnt) * 512)
      → blkno * 512 < 2 ^ 31
      → cnt * 512 < 2 ^ 31
      → am_disk_blkio stdio false buf blkno cnt m d ≡ assertion_failed
  unfolding blkio_items
  am_disk_blkio-short buf blkno cnt m d f o l s t =
      let g = stdio.fseek (blkno * 512) f in
      let at = file.seek (blkno * 512) f in
      let beyond : (cnt * 512 ≡ 0) ⊎ ((file.view g).length < (file.view g).position + cnt * 512) =
        subst (λ (v : FileView). (cnt * 512 ≡ 0) ⊎ (v.length < v.position + cnt * 512)) (sym at)
          (elim l [ inl z ↦ inl (omega arith) | inr b ↦ inr (omega arith) ]) in
      am_disk_blkio-blkio_items false buf blkno cnt m d f o s t
      ∙ assert_item-zero _ _ (file.read_short buf (cnt * 512) m g beyond)

  -- A write that the host refuses.
  am_disk_blkio-refused :
      (buf blkno cnt : ℕ) (m : Memory) (d : FileDisk F) (f : F)
      → d.fp ≡ some f
      → blkno * 512 < 2 ^ 31
      → cnt * 512 < 2 ^ 31
      → file.refused (cnt * 512) (stdio.fseek (blkno * 512) f) ≡ true
      → am_disk_blkio stdio true buf blkno cnt m d ≡ assertion_failed
  unfolding blkio_items
  am_disk_blkio-refused buf blkno cnt m d f o s t h =
      am_disk_blkio-blkio_items true buf blkno cnt m d f o s t
      ∙ assert_item-zero _ _ (file.write_refused buf (cnt * 512) m (stdio.fseek (blkno * 512) f) h)

  -- A write of no blocks.
  am_disk_blkio-write_none :
      (buf blkno : ℕ) (m : Memory) (d : FileDisk F) (f : F)
      → d.fp ≡ some f
      → blkno * 512 < 2 ^ 31
      → am_disk_blkio stdio true buf blkno 0 m d ≡ assertion_failed
  unfolding blkio_items
  am_disk_blkio-write_none buf blkno m d f o s =
      am_disk_blkio-blkio_items true buf blkno 0 m d f o s (omega arith)
      ∙ assert_item-zero _ _ (file.write_none buf m (stdio.fseek (blkno * 512) f))

  -- write
  pub am_disk_blkio-write :
      (buf blkno cnt : ℕ) (m : Memory) (d : FileDisk F) (f : F)
      → d.fp ≡ some f
      → 0 < cnt
      → blkno * 512 ≤ (file.view f).length
      → blkno * 512 < 2 ^ 31
      → cnt * 512 < 2 ^ 31
      → file.refused (cnt * 512) (stdio.fseek (blkno * 512) f) ≡ false
      → (f' : F) × (am_disk_blkio stdio true buf blkno cnt m d
          ≡ done (m, record d { fp = some f' }))
        × Moved (cnt * 512) buf (blkno * 512) m (file.view f).bytes (file.view f').bytes
        × (file.view f).length ≤ (file.view f').length
        × (blkno + cnt) * 512 ≤ (file.view f').length
  unfolding blkio_items
  am_disk_blkio-write buf blkno cnt m d f o c l s t granted =
      let g = stdio.fseek (blkno * 512) f in
      let at = file.seek (blkno * 512) f in
      let near : (file.view g).position ≤ (file.view g).length =
        subst (λ (v : FileView). v.position ≤ v.length) (sym at) (omega arith) in
      let (one, moved, longer, covers) =
        file.write_item buf (cnt * 512) m g (omega arith) near granted in
      let start : (file.view g).position ≡ blkno * 512 = ap FileView.position at in
      let size_same : (file.view g).length ≡ (file.view f).length = ap FileView.length at in
      let f' = (stdio.fwrite buf (cnt * 512) m g).1 in
      (
        f',
        am_disk_blkio-blkio_items true buf blkno cnt m d f o s t ∙ assert_item-one _ _ one,
        subst (λ (v : FileView). Moved (cnt * 512) buf v.position m v.bytes (file.view f').bytes) at
            moved,
        omega arith,
        omega arith,
      )

  -- On an open image, writing one or more blocks that begin in the file or at its end, with offsets
  -- and sizes that an int holds, on any file that behaves as stdio's documentation says and has no
  -- read errors: if the host refuses the write, the assertion fails. If it does not, the blocks
  -- stand in the file from 512 times the block number on, the rest of the file is what it was, and
  -- reading them to another place succeeds: the bytes there are those that were written, and the
  -- rest of the memory is left alone.
  pub am_disk_blkio-am_disk_blkio :
      (buf back blkno cnt : ℕ) (m n : Memory) (d : FileDisk F) (f : F)
      → d.fp ≡ some f
      → 0 < cnt
      → blkno * 512 ≤ (file.view f).length
      → blkno * 512 < 2 ^ 31
      → cnt * 512 < 2 ^ 31
      → ((file.refused (cnt * 512) (stdio.fseek (blkno * 512) f) ≡ true)
          × (am_disk_blkio stdio true buf blkno cnt m d ≡ assertion_failed))
        ⊎ ((file.refused (cnt * 512) (stdio.fseek (blkno * 512) f) ≡ false)
            × (f' : F) × (d'' : FileDisk F) × (n' : Memory) × (am_disk_blkio stdio true buf blkno
                  cnt m d
                ≡ done (m, record d { fp = some f' }))
            × Moved (cnt * 512) buf (blkno * 512) m (file.view f).bytes (file.view f').bytes
            × (am_disk_blkio stdio false back blkno cnt n (record d { fp = some f' })
                ≡ done (n', d''))
            × Moved (cnt * 512) buf back m n n')
  am_disk_blkio-am_disk_blkio buf back blkno cnt m n d f o c l s t =
      elim (Bool-cases (file.refused (cnt * 512) (stdio.fseek (blkno * 512) f))) [
        | inl refuses ↦ inl (refuses, am_disk_blkio-refused buf blkno cnt m d f o s t refuses)
        | inr granted ↦
            let (f', wrote, saved, longer, covers) =
              am_disk_blkio-write buf blkno cnt m d f o c l s t granted in
            let d' : FileDisk F = record d { fp = some f' } in
            let (n', f'', was_read, loaded, kept, same) =
              am_disk_blkio-read back blkno cnt n d' f' refl c covers s t in
            inr (
              granted,
              f',
              record d' { fp = some f'' },
              n',
              wrote,
              saved,
              was_read,
              record {
                inside = λ k h. loaded.inside k h ∙ saved.inside k h;
                outside = loaded.outside;
              },
            )
      ]

  -- After __am_disk_init with an image below 2 ^ 31 bytes, the configuration counts every block
  -- that begins in the image, and no more than one block behind its whole blocks. Reading or
  -- writing no blocks fails the assertion. Reading a block that begins in the image either gives
  -- its 512 bytes, if the image has all of them, or fails the assertion, if the image ends within
  -- it.
  pub am_disk_init-am_disk_blkio :
      {P : Type 0} (fopen : P → Option F) (diskimg : P) (f : F) (buf blkno : ℕ) (m : Memory)
      → fopen diskimg ≡ some f
      → (file.view f).length < 2 ^ 31
      → blkno * 512 < (file.view f).length
      → (d : FileDisk F) × (d ≡ am_disk_init stdio (some diskimg) fopen am_disk_start)
        × ((am_disk_config d).present ≡ true)
        × (blkno < (am_disk_config d).blkcnt)
        × ((am_disk_config d).blkcnt * 512 < (file.view f).length + 512)
        × (am_disk_blkio stdio false buf blkno 0 m d ≡ assertion_failed)
        × (am_disk_blkio stdio true buf blkno 0 m d ≡ assertion_failed)
        × (((blkno + 1) * 512 ≤ (file.view f).length
              × (m' : Memory) × (d' : FileDisk F) × (am_disk_blkio stdio false buf blkno 1 m d
                  ≡ done (m', d'))
              × Moved 512 (blkno * 512) buf (file.view f).bytes m m')
            ⊎ (((file.view f).length < (blkno + 1) * 512)
                × (am_disk_blkio stdio false buf blkno 1 m d ≡ assertion_failed)))
  unfolding am_disk_init open_disk am_disk_config is_open am_disk_start
  am_disk_init-am_disk_blkio fopen diskimg f buf blkno m o short l =
      let g = stdio.rewind (stdio.seek_end f) in
      let d : FileDisk F = record {
        fp = some g;
        disk_size = size ((stdio.ftell (stdio.seek_end f) + 511) / 512);
      } in
      let ended = file.at_end f in
      let told : stdio.ftell (stdio.seek_end f) ≡ (file.view f).length =
        file.tell (stdio.seek_end f) ∙ ap FileView.position ended in
      let at = file.rewound (stdio.seek_end f) in
      let bytes_same : (file.view g).bytes ≡ (file.view f).bytes =
        ap FileView.bytes at ∙ ap FileView.bytes ended in
      let length_same : (file.view g).length ≡ (file.view f).length =
        ap FileView.length at ∙ ap FileView.length ended in
      (
        d,
        rw o refl,
        refl,
        omega (arith, told),
        omega (arith, told),
        am_disk_blkio-short buf blkno 0 m d g refl (inl refl) (omega arith) (omega arith),
        am_disk_blkio-write_none buf blkno m d g refl (omega arith),
        elim (dec_le ((blkno + 1) * 512) (file.view f).length) [
          | yes whole ↦
              let (m', f', was_read, loaded, kept, same) =
                am_disk_blkio-read buf blkno 1 m d g refl (omega arith) (omega arith) (omega arith)
                  (omega arith) in
              inl (
                whole,
                m',
                record d { fp = some f' },
                was_read,
                subst (λ b. Moved 512 (blkno * 512) buf b m m') bytes_same loaded,
              )
          | no part ↦ inr (
            omega arith,
            am_disk_blkio-short buf blkno 1 m d g refl (inr (omega arith)) (omega arith)
                (omega arith),
          )
        ],
      )
