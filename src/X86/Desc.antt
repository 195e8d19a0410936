-- ===== src/X86/Desc.antt =====
-- am/src/x86/x86.h: the descriptors of segments and of gates, and their constants.
pub mod Decode
use Prim.Native.Nat.{bit_and, bit_or}
use openperf_abstract_machin.Prelude.{ℕ, ◌+◌, ◌*◌, ◌/◌, ◌%◌, ◌^◌}

abbrev pub dpl_kern : ℕ
dpl_kern = 0

abbrev pub dpl_user : ℕ
dpl_user = 3

abbrev pub sta_x : ℕ
sta_x = 8

abbrev pub sta_w : ℕ
sta_w = 2

abbrev pub sta_r : ℕ
sta_r = 2

abbrev pub sts_t32a : ℕ
sts_t32a = 9

abbrev pub sts_tg : ℕ
sts_tg = 15

abbrev pub fl_if : ℕ
fl_if = 0x200

abbrev pub seg_kcode : ℕ
seg_kcode = 1

abbrev pub seg_kdata : ℕ
seg_kdata = 2

abbrev pub seg_ucode : ℕ
seg_ucode = 3

abbrev pub seg_udata : ℕ
seg_udata = 4

abbrev pub seg_tss : ℕ
seg_tss = 5

abbrev pub ksel : ℕ → ℕ
ksel seg = bit_or (seg * 2 ^ 3) dpl_kern

abbrev pub usel : ℕ → ℕ
usel seg = bit_or (seg * 2 ^ 3) dpl_user

-- `SegDesc`, field by field.
pub record SegDesc : Type 0 where
  pub lim_15_0 : ℕ
  pub base_15_0 : ℕ
  pub base_23_16 : ℕ
  pub kind : ℕ
  pub s : ℕ
  pub dpl : ℕ
  pub p : ℕ
  pub lim_19_16 : ℕ
  pub avl : ℕ
  pub l : ℕ
  pub db : ℕ
  pub g : ℕ
  pub base_31_24 : ℕ

-- A value stored in a bit field of the given width.
abbrev pub bits : ℕ → ℕ → ℕ
bits width v = v % 2 ^ width

pub seg16 : ℕ → ℕ → ℕ → ℕ → SegDesc
seg16 kind base lim dpl = record {
  lim_15_0 = bit_and lim 0xffff;
  base_15_0 = bit_and base 0xffff;
  base_23_16 = bit_and (base / 2 ^ 16) 0xff;
  kind = bits 4 kind;
  s = 0;
  dpl = bits 2 dpl;
  p = 1;
  lim_19_16 = bits 4 (lim / 2 ^ 16);
  avl = 0;
  l = 0;
  db = 1;
  g = 0;
  base_31_24 = bits 8 (base / 2 ^ 24);
}

pub seg32 : ℕ → ℕ → ℕ → ℕ → SegDesc
seg32 kind base lim dpl = record {
  lim_15_0 = bit_and (lim / 2 ^ 12) 0xffff;
  base_15_0 = bit_and base 0xffff;
  base_23_16 = bit_and (base / 2 ^ 16) 0xff;
  kind = bits 4 kind;
  s = 1;
  dpl = bits 2 dpl;
  p = 1;
  lim_19_16 = bits 4 (lim / 2 ^ 28);
  avl = 0;
  l = 0;
  db = 1;
  g = 1;
  base_31_24 = bits 8 (base / 2 ^ 24);
}

-- `GateDesc32`, field by field.
pub record GateDesc32 : Type 0 where
  pub off_15_0 : ℕ
  pub cs : ℕ
  pub args : ℕ
  pub rsv1 : ℕ
  pub kind : ℕ
  pub s : ℕ
  pub dpl : ℕ
  pub p : ℕ
  pub off_31_16 : ℕ

unfoldable pub gate32 : ℕ → ℕ → ℕ → ℕ → GateDesc32
gate32 kind cs entry dpl = record {
  off_15_0 = bit_and entry 0xffff;
  cs = bits 16 cs;
  args = 0;
  rsv1 = 0;
  kind = bits 4 kind;
  s = 0;
  dpl = bits 2 dpl;
  p = 1;
  off_31_16 = bits 16 (entry / 2 ^ 16);
}
