-- ===== src/Native/Disk.antt =====
-- am/src/native/ioe/disk.c: a disk that is a file of the host. The calls of stdio are a parameter,
-- with what its documentation says as a record of laws. An `int` is taken as a number, since the
-- block numbers of a disk are not negative; a product that it does not hold is a result of its own.
mod Tests
pub mod File
pub mod Blocks
use openperf_abstract_machin.Prelude.{
  ℕ, ◌+◌, ◌-◌, ◌*◌, ◌/◌, ◌^◌, ◌≤◌, ◌<◌, ◌≡◌, ◌⊎◌, Bool, true, false, Option, none, some, Memory,
  size, ltb, ◌==◌, if◌then◌else◌, ◌>>=◌,
}

abbrev pub blksz : ℕ
blksz = 512

-- The calls on a stream: `fseek` with SEEK_SET, `seek_end` for an offset 0 with SEEK_END, and `fread`
-- and `fwrite` of one item, with the item's size, which return the number of items.
pub record Stdio (F : Type 0) : Type 0 where
  pub fseek : ℕ → F → F
  pub seek_end : F → F
  pub ftell : F → ℕ
  pub rewind : F → F
  pub fread : ℕ → ℕ → Memory → F → ℕ × Memory × F
  pub fwrite : ℕ → ℕ → Memory → F → ℕ × F

-- `fp` and `disk_size`.
pub record FileDisk (F : Type 0) : Type 0 where
  pub fp : Option F
  pub disk_size : ℕ

pub record DiskConfig : Type 0 where
  pub present : Bool
  pub block_size : ℕ
  pub blkcnt : ℕ

-- A call returns, fails the assertion, or multiplies two ints whose product is no int.
pub data DiskResult (S : Type 0) : Type 0 where
  done : S → DiskResult S
  assertion_failed int_overflow : DiskResult S

pub int_mul : ℕ → ℕ → Option ℕ
int_mul a b = if ltb (a * b) (2 ^ 31) then some (a * b) else none

module _ {F : Type 0} where
  pub am_disk_start : FileDisk F
  am_disk_start = record { fp = none; disk_size = 0 }

  -- A pointer is not NULL.
  pub is_open : Option F → Bool
  is_open none = false
  is_open (some f) = true

  pub am_disk_config : FileDisk F → DiskConfig
  am_disk_config d = record { present = is_open d.fp; block_size = blksz; blkcnt = d.disk_size }

  -- `assert(ret == 1)`
  pub assert_item : ℕ → Memory → FileDisk F → DiskResult (Memory × FileDisk F)
  assert_item ret m d = if ret == 1 then done (m, d) else assertion_failed

module _ {F : Type 0} (stdio : Stdio F) where
  open_disk : FileDisk F → Option F → FileDisk F
  open_disk d none = record d { fp = none }
  open_disk d (some f) =
      let f1 = stdio.seek_end f in
      record d { fp = some (stdio.rewind f1); disk_size = size ((stdio.ftell f1 + 511) / 512) }

  -- `getenv("diskimg")` is an argument, as is the host's fopen.
  pub am_disk_init : {P : Type 0} → Option P → (P → Option F) → FileDisk F → FileDisk F
  am_disk_init none fopen d = d
  am_disk_init (some diskimg) fopen d = open_disk d (fopen diskimg)

  blkio_items : Bool → ℕ → ℕ → Memory → F → FileDisk F → DiskResult (Memory × FileDisk F)
  blkio_items true buf n m f d =
      let (ret, f') = stdio.fwrite buf n m f in assert_item ret m (record d { fp = some f' })
  blkio_items false buf n m f d =
      let (ret, m', f') = stdio.fread buf n m f in assert_item ret m' (record d { fp = some f' })

  blkio_file :
      Bool → ℕ → Option ℕ → Option ℕ → Memory → F → FileDisk F → DiskResult (Memory × FileDisk F)
  blkio_file is_write buf (some offset) (some n) m f d =
      blkio_items is_write buf n m (stdio.fseek offset f) d
  blkio_file is_write buf (some offset) none m f d = int_overflow
  blkio_file is_write buf none n m f d = int_overflow

  pub am_disk_blkio : Bool → ℕ → ℕ → ℕ → Memory → FileDisk F → DiskResult (Memory × FileDisk F)
  am_disk_blkio is_write buf blkno blkcnt m d = elim d.fp [
    | none ↦ done (m, d)
    | some f ↦ blkio_file is_write buf (int_mul blkno blksz) (int_mul blkcnt blksz) m f d
  ]
