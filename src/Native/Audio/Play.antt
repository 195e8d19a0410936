-- ===== src/Native/Audio/Play.antt =====
-- What audio_play hands to the device.
use native.Mathlib.Decide.{dec_lt}
use openperf_abstract_machin.Prelude.{
  ℕ, zero, suc, ◌+◌, ◌-◌, ◌≤◌, ◌≡◌, refl, sym, ap, ◌∙◌, arith, some, List, [], ◌∷◌, ◌++◌, length,
  take, drop, replicate, lt→ltb, lt_false, length-take, length-drop,
}
use openperf_abstract_machin.Native.Audio.{
  Pipe, NativeAudio, audio_write, audio_play, read_loop, finish_play,
}
use openperf_abstract_machin.Native.Audio.Fifo.{FifoPipe, Queued, audio_write-Queued}

take-append : (n : ℕ) (xs ys : List ℕ) → length xs ≡ n → take n (xs ++ ys) ≡ xs
take-append n [] ys h = rw (sym h) refl
take-append zero (x ∷ xs) ys h = absurd (omega arith)
take-append (suc n) (x ∷ xs) ys h = ap (λ l. x ∷ l) (take-append n xs ys (omega arith))

take-all : (n : ℕ) (xs : List ℕ) → length xs ≤ n → take n xs ≡ xs
take-all zero [] h = refl
take-all zero (x ∷ xs) h = absurd (omega arith)
take-all (suc n) [] h = refl
take-all (suc n) (x ∷ xs) h = ap (λ l. x ∷ l) (take-all n xs (omega arith))

drop-all : (n : ℕ) (xs : List ℕ) → length xs ≤ n → drop n xs ≡ []
drop-all zero [] h = refl
drop-all zero (x ∷ xs) h = absurd (omega arith)
drop-all (suc n) [] h = refl
drop-all (suc n) (x ∷ xs) h = drop-all n xs (omega arith)

-- A read of bytes that are all there.
read_loop-all :
    {P : Type 0} {calls : Pipe P} (fifo : FifoPipe calls) (fuel nread : ℕ) (stream xs : List ℕ)
    (p : P)
    → fifo.contents p ≡ xs
    → nread ≤ length xs
    → (p' : P) × (read_loop calls (suc (suc fuel)) nread 0 stream p
        ≡ some (take nread xs ++ drop nread stream, p'))
      × fifo.contents p' ≡ drop nread xs
unfolding read_loop
read_loop-all fifo fuel zero stream xs p held l = (p, refl, held)
read_loop-all {calls = calls} fifo fuel (suc k) stream xs p held l =
    let bytes : (calls.read (suc k) p).0 ≡ take (suc k) xs =
      fifo.given (suc k) p ∙ ap (take (suc k)) held in
    let size_taken : length (take (suc k) xs) ≡ suc k = omega (arith, length-take (suc k) xs) in
    let over : suc k ≤ 0 + length (take (suc k) xs) = omega (arith, size_taken) in
    (
      (calls.read (suc k) p).1,
      rw (lt→ltb 0 (suc k) (omega arith), bytes, lt_false over, size_taken) refl,
      fifo.left (suc k) p ∙ ap (drop (suc k)) held,
    )

-- audio_play
pub audio_play-Queued :
    {P : Type 0} {calls : Pipe P} (fifo : FifoPipe calls) (fuel len : ℕ) (stream xs : List ℕ)
    (s : NativeAudio P)
    → Queued fifo xs s
    → length stream ≡ len
    → (s' : NativeAudio P) × (audio_play calls (suc (suc fuel)) stream len s
        ≡ some (take len xs ++ replicate (len - length xs) 0, s'))
      × Queued fifo (drop len xs) s'
unfolding audio_play finish_play
audio_play-Queued {calls = calls} fifo fuel len stream xs s q e = elim (dec_lt s.count len) [
  | yes short ↦
      let (p', run, left) =
        read_loop-all fifo fuel s.count stream xs s.pipe q.held (omega (arith, q.counted)) in
      let counted : length xs ≡ s.count = sym q.counted in
      let all_xs : take len xs ≡ xs = take-all len xs (omega (arith, counted)) in
      let head : take s.count (take s.count xs ++ drop s.count stream) ≡ take len xs =
        take-append s.count (take s.count xs) (drop s.count stream)
          (omega (arith, length-take s.count xs, counted))
        ∙ take-all s.count xs (omega (arith, counted))
        ∙ sym all_xs in
      (
        record { count = s.count - s.count; pipe = p' },
        rw (lt→ltb s.count len short, run, lt→ltb s.count len short, head, counted) refl,
        record {
          held =
              left
              ∙ drop-all s.count xs (omega (arith, counted))
              ∙ sym (drop-all len xs (omega (arith, counted)));
          counted = omega (arith, length-drop len xs, counted);
        },
      )
  | no enough ↦
      let (p', run, left) =
        read_loop-all fifo fuel len stream xs s.pipe q.held (omega (arith, q.counted)) in
      let counted : length xs ≡ s.count = sym q.counted in
      let none_left : len - length xs ≡ 0 = omega (arith, counted) in
      (
        record { count = s.count - len; pipe = p' },
        rw
            (
              lt_false {a = s.count} {b = len} (omega arith),
              run,
              lt_false {a = len} {b = len} (omega arith),
              none_left,
              drop-all len stream (omega (arith, e)),
            )
            refl,
        record { held = left; counted = omega (arith, length-drop len xs, counted) },
      )
]

-- If the pipe hands bytes out in order and has room for a buffer of up to 4096 bytes, then with
-- fuel for two rounds audio_write queues the buffer behind the samples that are held, and
-- audio_play then fills its stream with the first of them, in order, followed by zeros where there
-- are too few, and leaves the rest queued and counted.
pub audio_play-audio_write :
    {P : Type 0} {calls : Pipe P} (fifo : FifoPipe calls) (fuel len : ℕ) (buf stream xs : List ℕ)
    (s : NativeAudio P)
    → Queued fifo xs s
    → length buf ≤ 4096
    → fifo.Room s.pipe (length buf)
    → length stream ≡ len
    → (s' s'' : NativeAudio P) × (audio_write calls (suc (suc fuel)) buf s ≡ some s')
      × (audio_play calls (suc (suc fuel)) stream len s'
          ≡ some (take len (xs ++ buf) ++ replicate (len - length (xs ++ buf)) 0, s''))
      × Queued fifo (drop len (xs ++ buf)) s''
audio_play-audio_write fifo fuel len buf stream xs s q small room e =
    let (s', wrote, q') = audio_write-Queued fifo fuel buf xs s q small room in
    let (s'', played, q'') = audio_play-Queued fifo fuel len stream (xs ++ buf) s' q' e in
    (s', s'', wrote, played, q'')
