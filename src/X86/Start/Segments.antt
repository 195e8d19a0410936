-- ===== src/X86/Start/Segments.antt =====
-- percpu_initgdt of am/src/x86/qemu/trm.c makes all segments flat.
use openperf_abstract_machin.Prelude.{ℕ, ◌+◌, ◌^◌, ◌<◌, ◌≡◌, arith}
use openperf_abstract_machin.X86.Desc.{
  dpl_kern, dpl_user, seg_kcode, seg_kdata, seg_ucode, seg_udata, seg_tss, SegDesc, seg32, sts_t32a,
}
use openperf_abstract_machin.X86.Desc.Decode.{
  base_of, limit_of, base_of-seg16, limit_of-seg16, base_of-seg32, limit_of-seg32, seg32_fields,
}
use openperf_abstract_machin.X86.Start.{percpu_initgdt}

-- A segment that is all of the memory, for a privilege level.
pub record Flat (dpl : ℕ) (d : SegDesc) : Type 0 where
  pub base : base_of d ≡ 0
  pub limit : limit_of d + 1 ≡ 2 ^ 32
  pub privilege : d.dpl ≡ dpl
  pub present : d.p ≡ 1

seg32-Flat : (kind dpl : ℕ) → dpl < 4 → Flat dpl (seg32 kind 0 0xffff_ffff dpl)
seg32-Flat kind dpl l =
    let fields = seg32_fields kind 0 0xffff_ffff dpl l in
    record {
      base = base_of-seg32 kind 0 0xffff_ffff dpl (omega arith);
      limit = omega (arith, limit_of-seg32 kind 0 0xffff_ffff dpl (omega arith));
      privilege = fields.0;
      present = fields.1;
    }

pub record Segments (tss : ℕ) (gdt : ℕ → SegDesc) : Type 0 where
  pub kernel_code : Flat dpl_kern (gdt seg_kcode)
  pub kernel_data : Flat dpl_kern (gdt seg_kdata)
  pub user_code : Flat dpl_user (gdt seg_ucode)
  pub user_data : Flat dpl_user (gdt seg_udata)
  pub tss_base : base_of (gdt seg_tss) ≡ tss
  pub tss_limit : limit_of (gdt seg_tss) ≡ 103

-- segments
pub percpu_initgdt_lem :
    (tss : ℕ) (gdt : ℕ → SegDesc) → tss < 2 ^ 32 → Segments tss (percpu_initgdt tss gdt)
unfolding percpu_initgdt
percpu_initgdt_lem tss gdt l = record {
  kernel_code = seg32-Flat 10 dpl_kern (omega arith);
  kernel_data = seg32-Flat 2 dpl_kern (omega arith);
  user_code = seg32-Flat 10 dpl_user (omega arith);
  user_data = seg32-Flat 2 dpl_user (omega arith);
  tss_base = base_of-seg16 sts_t32a tss 103 dpl_kern l;
  tss_limit = limit_of-seg16 sts_t32a tss 103 dpl_kern (omega arith);
}
