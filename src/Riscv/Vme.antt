-- ===== src/Riscv/Vme.antt =====
-- am/src/riscv/nemu/vme.c on 32 bits: the directories of address spaces and the register satp. map and
-- ucontext are empty in the source, and so are the loops of vme_init that call map. Memory is bytes;
-- the client's pgalloc is a parameter.
pub mod Switch
mod Tests
use Prim.Native.Nat.{bit_or}
use openperf_abstract_machin.Prelude.{
  ℕ, ◌+◌, ◌*◌, ◌/◌, ◌%◌, ◌^◌, Bool, true, not, ◌&&◌, Memory, size, ◌==◌, if◌then◌else◌,
}
use openperf_abstract_machin.Klib.Mem.{memcpy}

abbrev pub nemu_pgsize : ℕ
nemu_pgsize = 4096

pub record VmeState (H : Type 0) : Type 0 where
  pub satp : ℕ
  pub kas_ptr : ℕ
  pub vme_enable : Bool
  pub memory : Memory
  pub pages : H

-- `area` is the constant USER_SPACE.
pub record NewSpace : Type 0 where
  pub ptr : ℕ
  pub pgsize : ℕ
  pub area_start : ℕ
  pub area_end : ℕ

module _ {H : Type 0} where
  pub set_satp : ℕ → VmeState H → VmeState H
  set_satp pdir s = record s { satp = bit_or (2 ^ 31) (pdir / 2 ^ 12) }

  pub get_satp : VmeState H → ℕ
  get_satp s = size (s.satp * 2 ^ 12)

  -- The `pdir` that __am_get_cur_as writes to a context; NULL is 0.
  pub get_cur_as : VmeState H → ℕ
  get_cur_as s = if s.vme_enable then get_satp s else 0

  -- `__am_switch` to a context with the given `pdir`.
  pub nemu_switch : ℕ → VmeState H → VmeState H
  nemu_switch pdir s = if s.vme_enable && not (pdir == 0) then set_satp pdir s else s

  module _ (pgalloc : ℕ → H → ℕ × H) where
    pub nemu_vme_init : VmeState H → VmeState H
    nemu_vme_init s =
        let (p, h) = pgalloc nemu_pgsize s.pages in
        record (set_satp p (record s { kas_ptr = p; pages = h })) { vme_enable = true }

    pub nemu_protect : VmeState H → NewSpace × VmeState H
    nemu_protect s =
        let (p, h) = pgalloc nemu_pgsize s.pages in
        (
          record {
            ptr = p;
            pgsize = nemu_pgsize;
            area_start = 0x4000_0000;
            area_end = 0x8000_0000;
          },
          record s { memory = memcpy p s.kas_ptr nemu_pgsize s.memory; pages = h },
        )
