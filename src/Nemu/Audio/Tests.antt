-- ===== src/Nemu/Audio/Tests.antt =====
-- Three words at the end of a buffer of sixteen bytes.
use openperf_abstract_machin.Prelude.{
  ℕ, ◌+◌, ◌-◌, ◌≡◌, refl, arith, true, Memory, write, leb, if◌then◌else◌,
}
use openperf_abstract_machin.Nemu.Audio.{Registers, audio_sbuf_addr, put_samples}
use openperf_abstract_machin.Nemu.Audio.Ring.{Buffer, Put, put_samples_lem}

-- The state is the buffer.
abbrev plain_registers : Registers Memory
plain_registers = record {
  inl = λ a d. (0, d);
  outl = λ a v d. if leb audio_sbuf_addr a then write d (a - audio_sbuf_addr) v else d;
}

plain_stores : (d : Memory) (o v : ℕ) → plain_registers.outl (o + audio_sbuf_addr) v d ≡ write d o v
plain_stores d o v =
    let behind : leb audio_sbuf_addr (o + audio_sbuf_addr) ≡ true = ground arith in
    let offset : o + audio_sbuf_addr - audio_sbuf_addr ≡ o = omega arith in rw (behind, offset) refl

abbrev plain_buffer : Buffer plain_registers 16
plain_buffer = record { words = λ d. d; stores = λ d o v inside aligned. plain_stores d o v }

abbrev numbered : Memory
numbered = λ a. a + 1

put_run : (put_samples plain_registers 3 0 0x100 numbered 16 8 (λ o. 0)).1 0 ≡ 0x109
unfolding put_samples
put_run = refl

put_samples_lem_run :
    Put plain_registers 16 plain_buffer
      (omega arith)
      3
      0
      0x100
      numbered
      8
      (λ o. 0)
      (put_samples plain_registers 3 0 0x100 numbered 16 8 (λ o. 0))
put_samples_lem_run =
    put_samples_lem plain_registers 16 plain_buffer (omega arith) 3 0 0x100 numbered 8 (λ o. 0)
      (omega arith) (omega arith) (omega arith)
