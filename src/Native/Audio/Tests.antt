-- ===== src/Native/Audio/Tests.antt =====
-- A pipe whose next call a signal may cut short, and samples that go through it.
use openperf_abstract_machin.Prelude.{
  ℕ, ◌/◌, ◌≤◌, ◌≡◌, refl, arith, Bool, true, false, some, List, [], ◌∷◌, ◌++◌, if◌then◌else◌,
  length, take, drop,
}
use openperf_abstract_machin.Native.Audio.{
  Pipe, NativeAudio, audio_write, audio_play, write_loop, count_written,
}
use openperf_abstract_machin.Native.Audio.Fifo.{FifoPipe, Queued, audio_write-restarts}
use openperf_abstract_machin.Native.Audio.Play.{audio_play-audio_write}

record PlainPipe : Type 0 where
  held : List ℕ
  interrupted : Bool

abbrev taken_of : Bool → ℕ → ℕ
taken_of interrupted n = if interrupted then n / 2 else n

abbrev plain_calls : Pipe PlainPipe
plain_calls = record {
  write = λ buf p. (
    some (taken_of p.interrupted (length buf)),
    record { held = p.held ++ take (taken_of p.interrupted (length buf)) buf; interrupted = false },
  );
  read = λ n p. (take n p.held, record p { held = drop n p.held });
}

taken_of-le : (b : Bool) (n : ℕ) → taken_of b n ≤ n
taken_of-le true n = omega arith
taken_of-le false n = omega arith

count_taken : (b : Bool) (n : ℕ) → count_written (some (taken_of b n)) ≤ n
unfolding count_written
count_taken b n = taken_of-le b n

taken_count :
    (p : PlainPipe) (buf : List ℕ)
    → p.held ++ take (taken_of p.interrupted (length buf)) buf
      ≡ p.held ++ take (count_written (some (taken_of p.interrupted (length buf)))) buf
unfolding count_written
taken_count p buf = refl

abbrev plain_fifo : FifoPipe plain_calls
plain_fifo = record {
  contents = λ p. p.held;
  Room = λ p n. p.interrupted ≡ false;
  whole = λ buf p small room. rw room refl;
  taken = λ buf p. taken_count p buf;
  at_most = λ buf p. count_taken p.interrupted (length buf);
  given = λ n p. refl;
  left = λ n p. refl;
}

abbrev two_queued : NativeAudio PlainPipe
two_queued = record { count = 2; pipe = record { held = 7 ∷ 8 ∷ []; interrupted = false } }

two_queued-Queued : Queued plain_fifo (7 ∷ 8 ∷ []) two_queued
two_queued-Queued = record { held = refl; counted = refl }

abbrev cut_short : NativeAudio PlainPipe
cut_short = record { count = 0; pipe = record { held = []; interrupted = true } }

cut_short-Queued : Queued plain_fifo [] cut_short
cut_short-Queued = record { held = refl; counted = refl }

write_run :
    audio_write plain_calls 3 (1 ∷ 2 ∷ 3 ∷ 4 ∷ []) cut_short
    ≡ some (record {
      count = 6;
      pipe = record { held = 1 ∷ 2 ∷ 1 ∷ 2 ∷ 3 ∷ 4 ∷ []; interrupted = false };
    })
unfolding audio_write write_loop count_written
write_run = refl

audio_play-audio_write_example :
    (s' s'' : NativeAudio PlainPipe) × (audio_write plain_calls 2 (9 ∷ []) two_queued ≡ some s')
    × (audio_play plain_calls 2 (0 ∷ 0 ∷ 0 ∷ 5 ∷ []) 4 s' ≡ some (7 ∷ 8 ∷ 9 ∷ 0 ∷ [], s''))
    × Queued plain_fifo [] s''
audio_play-audio_write_example =
    audio_play-audio_write plain_fifo 0 4 (9 ∷ []) (0 ∷ 0 ∷ 0 ∷ 5 ∷ []) (7 ∷ 8 ∷ []) two_queued
      two_queued-Queued (omega arith) refl refl

audio_write-restarts_example :
    (s' : NativeAudio PlainPipe) × (audio_write plain_calls 3 (1 ∷ 2 ∷ 3 ∷ 4 ∷ []) cut_short
      ≡ some s')
    × Queued plain_fifo (1 ∷ 2 ∷ 1 ∷ 2 ∷ 3 ∷ 4 ∷ []) s'
audio_write-restarts_example =
    audio_write-restarts plain_fifo 0 (1 ∷ 2 ∷ 3 ∷ 4 ∷ []) [] cut_short 2 cut_short-Queued
      (omega arith) refl refl
