-- ===== src/X86/Vme/Fields.antt =====
-- The bit tests and the masks of am/src/x86/qemu/vme.c as quotients and remainders.
use Prim.Native.Nat.{bit_and, bit_or}
use openperf_abstract_machin.Prelude.{ℕ, ◌+◌, ◌*◌, ◌/◌, ◌%◌, ◌^◌, ◌<◌, ◌≡◌, arith}
use openperf_abstract_machin.Prelude.Bits.{bit_and_field, bit_and_low, bit_or_fields, bit_or_above}
use openperf_abstract_machin.X86.Vme.{indexof, baseof, rounddown, pd_info, pt_info, pte_p, pgsize}

pub indexof-pd : (va : ℕ) → indexof va pd_info ≡ va / 2 ^ 22 % 1024
unfolding indexof
indexof-pd va = omega (arith, bit_and_field 22 10 va)

pub indexof-pt : (va : ℕ) → indexof va pt_info ≡ va / 2 ^ 12 % 1024
unfolding indexof
indexof-pt va = omega (arith, bit_and_field 12 10 va)

pub baseof_lem : (e : ℕ) → baseof e ≡ e / 4096 % 2 ^ 20 * 4096
unfolding baseof
baseof_lem e = omega (arith, bit_and_field 12 20 e)

pub rounddown-pgsize : (a : ℕ) → rounddown a pgsize ≡ a / 4096 % 2 ^ 20 * 4096
unfolding rounddown
rounddown-pgsize a = omega (arith, bit_and_field 12 20 a)

pub present_bit : (e : ℕ) → bit_and e pte_p ≡ e % 2
present_bit e = omega (arith, bit_and_low 1 e)

pub write_bit : (p : ℕ) → bit_and p 2 ≡ p / 2 % 2 * 2
write_bit p = omega (arith, bit_and_field 1 1 p)

-- An entry for a page, with flags below 4096.
pub page_entry :
    (q r s : ℕ) → r < 4096 → s < 4096 → bit_or (bit_or (q * 4096) r) s ≡ q * 4096 + bit_or r s
page_entry q r s hr hs = rw (bit_or_fields 12 q r hr) (bit_or_above 12 q r s hr hs)
