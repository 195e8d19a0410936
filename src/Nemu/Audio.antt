-- ===== src/Nemu/Audio.antt =====
-- am/src/platform/nemu/ioe/audio.c: the buffer of samples between a program and the device, whose
-- registers are reached through `inl` and `outl`. `int` values are natural numbers that fit.
pub mod Ring
mod Tests
use openperf_abstract_machin.Prelude.{
  ℕ, zero, suc, ◌+◌, ◌-◌, ◌*◌, ◌/◌, ◌%◌, ◌^◌, Bool, true, Option, none, some, Memory, ltb,
  if◌then◌else◌, ◌>>=◌, size,
}

pub record Registers (D : Type 0) : Type 0 where
  pub inl : ℕ → D → ℕ × D
  pub outl : ℕ → ℕ → D → D

abbrev pub audio_addr : ℕ
audio_addr = 0xa000_0200

abbrev pub audio_sbuf_addr : ℕ
audio_sbuf_addr = 0xa120_0000

abbrev pub audio_count_addr : ℕ
audio_count_addr = audio_addr + 0x14

-- AM_AUDIO_CONFIG_T
pub record AudioConfig : Type 0 where
  pub present : Bool
  pub bufsize : ℕ

-- AM_AUDIO_CTRL_T
pub record AudioCtrl : Type 0 where
  pub freq : ℕ
  pub channels : ℕ
  pub samples : ℕ

module _ {D : Type 0} (dev : Registers D) where
  pub audio_config : D → AudioConfig × D
  audio_config d =
      let r = dev.inl (audio_addr + 0xc) d in (record { present = true; bufsize = r.0 }, r.1)

  -- The result is `cfg_now`.
  pub audio_init : D → AudioConfig × D
  audio_init d = audio_config (dev.outl (audio_addr + 0x10) 0 d)

  pub audio_ctrl : AudioCtrl → D → D
  audio_ctrl ctrl d =
      let d1 = dev.outl (audio_addr + 0x0) ctrl.freq d in
      let d2 = dev.outl (audio_addr + 0x4) ctrl.channels d1 in
      let d3 = dev.outl (audio_addr + 0x8) ctrl.samples d2 in dev.outl (audio_addr + 0x10) 1 d3

  pub audio_status : D → ℕ × D
  audio_status d = dev.inl audio_count_addr d

  -- The loop that waits for room, where `count` has been read.
  pub wait_room : ℕ → ℕ → ℕ → ℕ → D → Option D
  wait_room zero count len bufsize d = none
  wait_room (suc fuel) count len bufsize d =
      let r = dev.inl audio_count_addr d in
      let rest : Option D = wait_room fuel r.0 len bufsize r.1 in
      if ltb bufsize (count + len) then rest else some d

  -- The loop over the words of the samples, with the number of words left: `last_write` and the
  -- device at its end.
  pub put_samples : ℕ → ℕ → ℕ → Memory → ℕ → ℕ → D → ℕ × D
  put_samples zero i buf m bufsize last_write d = (last_write, d)
  put_samples (suc n) i buf m bufsize last_write d =
      put_samples n (i + 4) buf m bufsize ((last_write + 4) % bufsize)
        (dev.outl (last_write + audio_sbuf_addr) (m (buf + i)) d)

  -- The samples from `start` up to `limit`, in a memory of words.
  pub audio_play : ℕ → ℕ → ℕ → Memory → ℕ → ℕ → D → Option (ℕ × D)
  audio_play fuel start limit m bufsize last_write d =
      let len = limit - start in
      let count = dev.inl audio_count_addr d in
      wait_room fuel count.0 len bufsize count.1 >>= λ d1.
      (let s = put_samples ((len + 3) / 4) 0 start m bufsize last_write d1 in
        let c = dev.inl audio_count_addr s.1 in
        some (s.0, dev.outl audio_count_addr (size (c.0 + len)) c.1))
