-- ===== src/Native/Disk/File.antt =====
-- What the documentation of stdio says of a file that can be read and written.
use openperf_abstract_machin.Prelude.{ℕ, ◌+◌, ◌≤◌, ◌<◌, ◌≡◌, ◌⊎◌, Bool, true, false, Memory}
use openperf_abstract_machin.Native.Disk.{Stdio}

-- The bytes of a file, how many it has, and where the stream stands.
pub record FileView : Type 0 where
  pub bytes : Memory
  pub length : ℕ
  pub position : ℕ

-- `n` bytes that `from` has at `a` stand in `to` at `b`; the rest of `to` is what it was.
pub record Moved (n a b : ℕ) (from before to : Memory) : Type 0 where
  pub inside : (k : ℕ) → k < n → to (b + k) ≡ from (a + k)
  pub outside : (c : ℕ) → (c < b) ⊎ (b + n ≤ c) → to c ≡ before c

-- There are no read errors: an item is read if it lies in the file. It is written if the host does not refuse it, as it may when
-- the disk is full; an item of no bytes is not counted.
pub record File {F : Type 0} (stdio : Stdio F) : Type 0 where
  pub view : F → FileView
  pub refused : ℕ → F → Bool
  pub seek : (o : ℕ) (f : F) → view (stdio.fseek o f) ≡ record (view f) { position = o }
  pub at_end : (f : F) → view (stdio.seek_end f) ≡ record (view f) { position = (view f).length }
  pub tell : (f : F) → stdio.ftell f ≡ (view f).position
  pub rewound : (f : F) → view (stdio.rewind f) ≡ record (view f) { position = 0 }
  pub read_item :
      (p n : ℕ) (m : Memory) (f : F)
      → 0 < n
      → (view f).position + n ≤ (view f).length
      → (stdio.fread p n m f).0 ≡ 1
        × Moved n (view f).position p (view f).bytes m (stdio.fread p n m f).1
        × (view (stdio.fread p n m f).2).bytes ≡ (view f).bytes
        × (view (stdio.fread p n m f).2).length ≡ (view f).length
  pub read_short :
      (p n : ℕ) (m : Memory) (f : F)
      → (n ≡ 0) ⊎ ((view f).length < (view f).position + n)
      → (stdio.fread p n m f).0 ≡ 0
  pub write_item :
      (p n : ℕ) (m : Memory) (f : F)
      → 0 < n
      → (view f).position ≤ (view f).length
      → refused n f ≡ false
      → (stdio.fwrite p n m f).0 ≡ 1
        × Moved n p (view f).position m (view f).bytes (view (stdio.fwrite p n m f).1).bytes
        × (view f).length ≤ (view (stdio.fwrite p n m f).1).length
        × (view f).position + n ≤ (view (stdio.fwrite p n m f).1).length
  pub write_refused :
      (p n : ℕ) (m : Memory) (f : F) → refused n f ≡ true → (stdio.fwrite p n m f).0 ≡ 0
  pub write_none : (p : ℕ) (m : Memory) (f : F) → (stdio.fwrite p 0 m f).0 ≡ 0
