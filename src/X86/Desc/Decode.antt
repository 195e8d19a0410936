-- ===== src/X86/Desc/Decode.antt =====
-- What the processor reads from the descriptors of am/src/x86/x86.h.
use openperf_abstract_machin.Prelude.{
  ℕ, ◌+◌, ◌*◌, ◌/◌, ◌^◌, ◌<◌, ◌≡◌, refl, arith, ◌==◌, if◌then◌else◌,
}
use openperf_abstract_machin.Prelude.Bits.{bit_and_low}
use openperf_abstract_machin.X86.Desc.{SegDesc, seg16, seg32, GateDesc32, gate32}

-- The base of a segment, and its last byte, in pages where the granularity bit is set.
abbrev pub base_of : SegDesc → ℕ
base_of d = d.base_31_24 * 2 ^ 24 + d.base_23_16 * 2 ^ 16 + d.base_15_0

abbrev pub limit_of : SegDesc → ℕ
limit_of d =
    let lim = d.lim_19_16 * 2 ^ 16 + d.lim_15_0 in if d.g == 0 then lim else lim * 4096 + 4095

-- The address that a gate leads to.
abbrev pub offset_of : GateDesc32 → ℕ
offset_of d = d.off_31_16 * 2 ^ 16 + d.off_15_0

pub offset_of-gate32 :
    (kind cs entry dpl : ℕ) → entry < 2 ^ 32 → offset_of (gate32 kind cs entry dpl) ≡ entry
unfolding gate32
offset_of-gate32 kind cs entry dpl h = omega (arith, bit_and_low 16 entry)

pub base_of-seg16 :
    (kind base lim dpl : ℕ) → base < 2 ^ 32 → base_of (seg16 kind base lim dpl) ≡ base
unfolding seg16
base_of-seg16 kind base lim dpl h =
    omega (arith, bit_and_low 16 base, bit_and_low 8 (base / 2 ^ 16))

pub limit_of-seg16 :
    (kind base lim dpl : ℕ) → lim < 2 ^ 20 → limit_of (seg16 kind base lim dpl) ≡ lim
unfolding seg16
limit_of-seg16 kind base lim dpl h = omega (arith, bit_and_low 16 lim)

pub base_of-seg32 :
    (kind base lim dpl : ℕ) → base < 2 ^ 32 → base_of (seg32 kind base lim dpl) ≡ base
unfolding seg32
base_of-seg32 kind base lim dpl h =
    omega (arith, bit_and_low 16 base, bit_and_low 8 (base / 2 ^ 16))

-- The last 12 bits of a limit in pages are ones.
pub limit_of-seg32 :
    (kind base lim dpl : ℕ)
    → lim < 2 ^ 32
    → limit_of (seg32 kind base lim dpl) ≡ lim / 4096 * 4096 + 4095
unfolding seg32
limit_of-seg32 kind base lim dpl h = omega (arith, bit_and_low 16 (lim / 2 ^ 12))

pub gate32_fields :
    (kind cs entry dpl : ℕ)
    → cs < 2 ^ 16
    → dpl < 4
    → ((gate32 kind cs entry dpl).dpl ≡ dpl)
      × ((gate32 kind cs entry dpl).cs ≡ cs)
      × ((gate32 kind cs entry dpl).p ≡ 1)
unfolding gate32
gate32_fields kind cs entry dpl h l = omega arith

pub seg32_fields :
    (kind base lim dpl : ℕ)
    → dpl < 4
    → ((seg32 kind base lim dpl).dpl ≡ dpl) × ((seg32 kind base lim dpl).p ≡ 1)
unfolding seg32
seg32_fields kind base lim dpl l = (omega arith, refl)
