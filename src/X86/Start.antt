-- ===== src/X86/Start.antt =====
-- am/src/x86/qemu/trm.c and mpe.c on 32 bits: the heap, the table of processors, the segments, and
-- the end of a program.
pub mod Processors
pub mod Segments
mod Tests
use Prim.Native.Nat.{bit_and, bit_or}
use openperf_abstract_machin.Prelude.{
  ℕ, zero, suc, ◌+◌, ◌-◌, ◌*◌, ◌/◌, ◌%◌, ◌^◌, Bool, Option, none, some, List, [], ◌∷◌, Memory,
  write, size, ltb, leb, ◌==◌, if◌then◌else◌, ◌>>=◌,
}
use openperf_abstract_machin.Klib.Stdlib.{roundup}
use openperf_abstract_machin.X86.Ports.{Ports, load_word, store_word}
use openperf_abstract_machin.X86.Desc.{
  dpl_kern, dpl_user, sta_x, sta_w, sta_r, sts_t32a, seg_kcode, seg_kdata, seg_ucode, seg_udata,
  seg_tss, SegDesc, seg16, seg32,
}
use openperf_abstract_machin.X86.Apic.{Mmio, lapic_bootap}

abbrev pub max_cpu : ℕ
max_cpu = 8

abbrev pub bootrec_addr : ℕ
bootrec_addr = 0x7000

-- The heap from `&end` on, rounded up, and its end. A byte of the clock's memory is below 256.
pub heap_init : {D : Type 0} → Ports D → ℕ → D → (ℕ × ℕ) × D
heap_init ports end d =
    let d1 = ports.outb 0x70 0x34 d in
    let lo = ports.inb 0x71 d1 in
    let d2 = ports.outb 0x70 0x35 lo.1 in
    let hi = ports.inb 0x71 d2 in
    ((roundup end (2 ^ 20), size (bit_or lo.0 (size ((hi.0 + 1) * 2 ^ 8)) * 2 ^ 16)), hi.1)

-- The loop over the entries of a configuration table up to `limit`: `__am_ncpu` at its end.
pub count_cpus : ℕ → ℕ → ℕ → ℕ → Memory → Option ℕ
count_cpus zero ptr limit ncpu m = none
count_cpus (suc fuel) ptr limit ncpu m =
    let processor : Option ℕ = count_cpus fuel (ptr + 12 + 8) limit (ncpu + 1) m in
    let other : Option ℕ = count_cpus fuel (ptr + 8) limit ncpu m in
    if ltb ptr limit
    then if m ptr == 0 then if ltb max_cpu (ncpu + 1) then none else processor else other
    else some ncpu

-- The table at `conf`: its length is at offset 4 and the address of the APIC at 36, of 44 bytes.
-- The result has `__am_lapic` and `__am_ncpu`.
pub read_conf : ℕ → Memory → Option (ℕ × ℕ)
read_conf conf m = do
  let length = m (conf + 4) + 2 ^ 8 * m (conf + 5)
  ncpu ← count_cpus (length + 1) (conf + 44) (conf + length) 0 m
  some (load_word m (conf + 36), ncpu)

-- The loop over `st`, with the number of addresses left.
pub find_table : ℕ → ℕ → Memory → Option (ℕ × ℕ)
find_table zero st m = none
find_table (suc n) st m =
    let rest : Option (ℕ × ℕ) = find_table n (st + 1) m in
    if load_word m st == 0x5f504d5f then read_conf (load_word m (st + 4)) m else rest

pub lapic_init : Memory → Option (ℕ × ℕ)
lapic_init m = find_table (0xff_ffff - 0xf_0000) 0xf_0000 m

-- The table of segments, with the address of the task state segment, which has 104 bytes.
pub percpu_initgdt : ℕ → (ℕ → SegDesc) → ℕ → SegDesc
percpu_initgdt tss gdt seg =
    if seg == seg_kcode
    then seg32 (bit_or sta_x sta_r) 0 0xffff_ffff dpl_kern
    else if seg == seg_kdata
    then seg32 sta_w 0 0xffff_ffff dpl_kern
    else if seg == seg_ucode
    then seg32 (bit_or sta_x sta_r) 0 0xffff_ffff dpl_user
    else if seg == seg_udata
    then seg32 sta_w 0 0xffff_ffff dpl_user
    else if seg == seg_tss
    then seg16 sts_t32a tss (104 - 1) dpl_kern
    else gdt seg

-- "0123456789abcdef"
abbrev pub hex : ℕ → ℕ
hex digit = if ltb digit 10 then 48 + digit else 87 + digit

-- The character for one of `fmt`; `code` is a word of 32 bits.
pub halt_char : ℕ → ℕ → ℕ → ℕ
halt_char cpu code ch =
    if ch == 36
    then hex cpu
    else if ch == 48
    then hex (bit_and (code / 2 ^ 0) 0xf)
    else if ch == 52
    then hex (bit_and (code / 2 ^ 4) 0xf)
    else ch

-- "CPU #$ Halt (40).\n"
abbrev pub halt_fmt : List ℕ
halt_fmt =
    67 ∷ 80 ∷ 85 ∷ 32 ∷ 35 ∷ 36 ∷ 32 ∷ 72 ∷ 97 ∷ 108 ∷ 116 ∷ 32 ∷ 40 ∷ 52 ∷ 48 ∷ 41 ∷ 46 ∷ 10 ∷ []

module _ {D : Type 0} (ports : Ports D) (mmio : Mmio D) (lapic : ℕ) where
  pub cpu_current : D → ℕ × D
  cpu_current d = let r = mmio.load (lapic + 4 * 8) d in (r.0 / 2 ^ 24, r.1)

  -- The loop over `cpu_`, with the number of processors left.
  pub stop_others : ℕ → ℕ → Memory → D → Memory × D
  stop_others zero cpu m d = (m, d)
  stop_others (suc n) cpu m d =
      let r = cpu_current d in
      let s =
        if cpu == r.0 then (m, r.1) else lapic_bootap mmio ports lapic cpu bootrec_addr m r.1 in
      stop_others n (cpu + 1) s.0 s.1

  pub stop_the_world : ℕ → Memory → D → Memory × D
  stop_the_world ncpu m d = stop_others ncpu 0 (store_word m bootrec_addr 0x0000_feeb) d

  pub putch : ℕ → D → D
  putch ch d = ports.outb 0x3f8 ch d

  -- The loop over `fmt`.
  pub put_message : ℕ → List ℕ → D → D
  put_message code [] d = d
  put_message code (ch ∷ fmt) d =
      let r = if ch == 36 then cpu_current d else (0, d) in
      put_message code fmt (putch (halt_char r.0 code ch) r.1)

  -- Less `cli` before it and the loop of `hlt` behind it.
  pub halt : ℕ → ℕ → Memory → D → Memory × D
  halt ncpu code m d =
      let s = stop_the_world ncpu m d in
      (s.0, ports.outw 0x604 0x2000 (put_message code halt_fmt s.1))
