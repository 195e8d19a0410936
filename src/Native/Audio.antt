-- ===== src/Native/Audio.antt =====
-- am/src/native/ioe/audio.c: samples go through a pipe to SDL's thread. The pipe is a parameter;
-- a call of audio_play or audio_write is one step, and `count` a number. The calls that open SDL's
-- device are left out of am_audio_ctrl. A loop takes fuel, since it repeats a refused call.
mod Tests
pub mod Fifo
pub mod Play
use openperf_abstract_machin.Prelude.{
  ℕ, zero, suc, ◌+◌, ◌-◌, Bool, true, Option, none, some, List, ◌++◌, ltb, if◌then◌else◌, length,
  take, drop, replicate, ◌>>=◌,
}

-- `write` gives the number of bytes, or none for -1; `read` the bytes, none of them for -1.
pub record Pipe (P : Type 0) : Type 0 where
  pub write : List ℕ → P → Option ℕ × P
  pub read : ℕ → P → List ℕ × P

-- `count`, and the pipe behind `rfd` and `wfd`.
pub record NativeAudio (P : Type 0) : Type 0 where
  pub count : ℕ
  pub pipe : P

-- `if (n == -1) n = 0;`
pub count_written : Option ℕ → ℕ
count_written none = 0
count_written (some n) = n

module _ {P : Type 0} where
  pub native_audio_ctrl : NativeAudio P → NativeAudio P
  native_audio_ctrl s = record s { count = 0 }

  pub native_audio_status : NativeAudio P → ℕ
  native_audio_status s = s.count

module _ {P : Type 0} (calls : Pipe P) where
  -- The loop of audio_write.
  write_loop : ℕ → List ℕ → ℕ → NativeAudio P → Option (NativeAudio P)
  write_loop zero buf nwrite s = none
  write_loop (suc fuel) buf nwrite s =
      let (ret, pipe') = calls.write buf s.pipe in
      let n = count_written ret in
      let rest = write_loop fuel buf (nwrite + n) (record { count = s.count + n; pipe = pipe' }) in
      if ltb nwrite (length buf) then rest else some s

  -- The buffer as the list of its bytes.
  pub audio_write : ℕ → List ℕ → NativeAudio P → Option (NativeAudio P)
  audio_write fuel buf s = write_loop fuel buf 0 s

  -- The loop of audio_play, which changes the stream and the pipe.
  read_loop : ℕ → ℕ → ℕ → List ℕ → P → Option (List ℕ × P)
  read_loop zero nread b stream p = none
  read_loop (suc fuel) nread b stream p =
      let (bytes, p') = calls.read nread p in
      let rest = read_loop fuel nread (b + length bytes) (bytes ++ drop (length bytes) stream) p' in
      if ltb b nread then rest else some (stream, p)

  -- memset writes behind the first `nread` bytes.
  finish_play : ℕ → ℕ → ℕ → List ℕ × P → List ℕ × NativeAudio P
  finish_play len nread count (stream, p) = (
    if ltb nread len then take nread stream ++ replicate (len - nread) 0 else stream,
    record { count = count - nread; pipe = p },
  )

  -- The new stream, of `len` bytes, and the new state.
  pub audio_play : ℕ → List ℕ → ℕ → NativeAudio P → Option (List ℕ × NativeAudio P)
  audio_play fuel stream len s =
      let nread = if ltb s.count len then s.count else len in
      read_loop fuel nread 0 stream s.pipe >>= λ r. some (finish_play len nread s.count r)
