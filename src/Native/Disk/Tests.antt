-- ===== src/Native/Disk/Tests.antt =====
-- A file that meets the laws, and blocks on it.
use openperf_abstract_machin.Prelude.{
  ℕ, ◌+◌, ◌-◌, ◌*◌, ◌%◌, ◌^◌, ◌≤◌, ◌<◌, ◌≡◌, ◌⊎◌, refl, ap, arith, Bool, true, false, ◌≢◌, lt→ltb,
  some, Memory, ltb, leb, ◌==◌, if◌then◌else◌, eq_false,
}
use openperf_abstract_machin.Native.Disk.{
  Stdio, FileDisk, done, assertion_failed, int_overflow, am_disk_blkio, am_disk_init,
  am_disk_config, am_disk_start, int_mul, blkio_file, blkio_items, assert_item, open_disk,
}
use openperf_abstract_machin.Native.Disk.File.{FileView, Moved, File}
use openperf_abstract_machin.Native.Disk.Blocks.{
  am_disk_blkio-am_disk_blkio, am_disk_init-am_disk_blkio,
}

abbrev moved : ℕ → ℕ → ℕ → Memory → Memory → Memory
moved n a b from before =
    λ c. if leb b c then if ltb c (b + n) then from (a + (c - b)) else before c else before c

le→leb : (a b : ℕ) → a ≤ b → leb a b ≡ true
le→leb a b h = ground arith

le_add : (a b : ℕ) → a ≤ a + b
le_add a b = omega arith

moved-Moved : (n a b : ℕ) (from before : Memory) → Moved n a b from before (moved n a b from before)
moved-Moved n a b from before = record {
  inside = λ k h.
      let back : a + (b + k - b) ≡ a + k = omega arith in
      rw (le→leb _ _ (le_add b k), lt→ltb (b + k) (b + n) (omega arith)) (ap from back);
  outside = λ c o. ground arith;
}

-- The disk of the host has room for a file of 4096 bytes.
abbrev no_room : ℕ → FileView → Bool
no_room n f = ltb 4096 (f.position + n)

abbrev plain_stdio : Stdio FileView
plain_stdio = record {
  fseek = λ o f. record f { position = o };
  seek_end = λ f. record f { position = f.length };
  ftell = λ f. f.position;
  rewind = λ f. record f { position = 0 };
  fread = λ p n m f.
      if n == 0
      then (0, m, f)
      else if leb (f.position + n) f.length
      then (1, moved n f.position p f.bytes m, record f { position = f.position + n })
      else (0, m, f);
  fwrite = λ p n m f. if n == 0 then (0, f) else if no_room n f then (0, f) else (
    1,
    record {
      bytes = moved n p f.position m f.bytes;
      length = (if leb f.length (f.position + n) then f.position + n else f.length);
      position = f.position + n;
    },
  );
}

abbrev plain_file : File plain_stdio
plain_file = record {
  view = λ f. f;
  refused = no_room;
  seek = λ o f. refl;
  at_end = λ f. refl;
  tell = λ f. refl;
  rewound = λ f. refl;
  read_item = λ p n m f h l.
      let ne : n ≢ 0 = omega arith in
      rw (eq_false ne, le→leb _ _ l) (refl, moved-Moved n f.position p f.bytes m, refl, refl);
  read_short = λ p n m f s. ground arith;
  write_item = λ p n m f h l granted.
      let ne : n ≢ 0 = omega arith in
      rw (eq_false ne, granted)
        (refl, moved-Moved n p f.position m f.bytes, ground arith, ground arith);
  write_refused = λ p n m f r. ground arith;
  write_none = λ p m f. refl;
}

-- 1000 bytes: the last 24 bytes of the second block are missing.
abbrev odd_file : FileView
odd_file = record { bytes = λ a. a % 251; length = 1000; position = 0 }

abbrev odd_disk : FileDisk FileView
odd_disk = record { fp = some odd_file; disk_size = 2 }

config_run :
    am_disk_init plain_stdio (some 0) (λ (name : ℕ). some odd_file) am_disk_start ≡ odd_disk
unfolding am_disk_init am_disk_start open_disk
config_run = refl

last_block_run : am_disk_blkio plain_stdio false 0x1000 1 1 (λ a. 0) odd_disk ≡ assertion_failed
unfolding am_disk_blkio blkio_file blkio_items assert_item int_mul
last_block_run = refl

overflow_run : am_disk_blkio plain_stdio false 0x1000 (2 ^ 22) 1 (λ a. 0) odd_disk ≡ int_overflow
unfolding am_disk_blkio blkio_file int_mul
overflow_run = refl

am_disk_blkio-am_disk_blkio_example :
    ((no_room 1024 (record odd_file { position = 512 }) ≡ true)
      × (am_disk_blkio plain_stdio true 0x1000 1 2 (λ a. a % 256) odd_disk ≡ assertion_failed))
    ⊎ ((no_room 1024 (record odd_file { position = 512 }) ≡ false)
        × (f' : FileView) × (d'' : FileDisk FileView) × (n' : Memory) × (am_disk_blkio plain_stdio
              true 0x1000 1 2
              (λ a. a % 256)
              odd_disk
            ≡ done (λ a. a % 256, record odd_disk { fp = some f' }))
        × Moved 1024 0x1000 512 (λ a. a % 256) odd_file.bytes f'.bytes
        × (am_disk_blkio plain_stdio false 0x8000 1 2 (λ a. 0) (record odd_disk { fp = some f' })
            ≡ done (n', d''))
        × Moved 1024 0x1000 0x8000 (λ a. a % 256) (λ a. 0) n')
am_disk_blkio-am_disk_blkio_example =
    am_disk_blkio-am_disk_blkio plain_stdio plain_file 0x1000 0x8000 1 2 (λ a. a % 256) (λ a. 0)
      odd_disk odd_file refl (omega arith) (omega arith) (omega arith) (omega arith)

am_disk_init-am_disk_blkio_example :
    (d : FileDisk FileView) × (d
      ≡ am_disk_init plain_stdio (some 0) (λ (name : ℕ). some odd_file) am_disk_start)
    × ((am_disk_config d).present ≡ true)
    × (1 < (am_disk_config d).blkcnt)
    × ((am_disk_config d).blkcnt * 512 < 1000 + 512)
    × (am_disk_blkio plain_stdio false 0x1000 1 0 (λ a. 0) d ≡ assertion_failed)
    × (am_disk_blkio plain_stdio true 0x1000 1 0 (λ a. 0) d ≡ assertion_failed)
    × ((1024 ≤ 1000
          × (m' : Memory) × (d' : FileDisk FileView) × (am_disk_blkio plain_stdio false 0x1000 1 1
                (λ a. 0)
                d
              ≡ done (m', d'))
          × Moved 512 512 0x1000 odd_file.bytes (λ a. 0) m')
        ⊎ ((1000 < 1024)
            × (am_disk_blkio plain_stdio false 0x1000 1 1 (λ a. 0) d ≡ assertion_failed)))
am_disk_init-am_disk_blkio_example =
    am_disk_init-am_disk_blkio plain_stdio plain_file (λ (name : ℕ). some odd_file) 0 odd_file
      0x1000 1 (λ a. 0) refl (omega arith) (omega arith)
