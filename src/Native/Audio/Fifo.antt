-- ===== src/Native/Audio/Fifo.antt =====
-- The samples that are played are those that were written, as long as the pipe takes a buffer at
-- once.
use mathlib.Core.Path.{subst}
use mathlib.Core.List.{append-nil}
use openperf_abstract_machin.Prelude.{
  ℕ, suc, ◌+◌, ◌≤◌, ◌<◌, ◌≡◌, refl, sym, ap, ◌∙◌, arith, some, List, [], ◌∷◌, ◌++◌, length, take,
  drop, lt→ltb, lt_false, length-append, length-take,
}
use openperf_abstract_machin.Native.Audio.{
  Pipe, NativeAudio, audio_write, write_loop, count_written,
}

-- A pipe hands its bytes out in order. It takes a prefix of what is written, and all of it if that is
-- no more than PIPE_BUF, 4096, bytes and it has the room.
pub record FifoPipe {P : Type 0} (calls : Pipe P) : Type 1 where
  pub contents : P → List ℕ
  pub Room : P → ℕ → Type 0
  pub whole :
      (buf : List ℕ) (p : P)
      → length buf ≤ 4096
      → Room p (length buf)
      → (calls.write buf p).0 ≡ some (length buf)
  pub taken :
      (buf : List ℕ) (p : P)
      → contents (calls.write buf p).1
        ≡ contents p ++ take (count_written (calls.write buf p).0) buf
  pub at_most : (buf : List ℕ) (p : P) → count_written (calls.write buf p).0 ≤ length buf
  pub given : (n : ℕ) (p : P) → (calls.read n p).0 ≡ take n (contents p)
  pub left : (n : ℕ) (p : P) → contents (calls.read n p).1 ≡ drop n (contents p)

module _ {P : Type 0} {calls : Pipe P} (fifo : FifoPipe calls) where
  -- The state holds the samples `xs`.
  pub record Queued (xs : List ℕ) (s : NativeAudio P) : Type 0 where
    pub held : fifo.contents s.pipe ≡ xs
    pub counted : s.count ≡ length xs

-- The state behind one call of `write`.
abbrev wrote : {P : Type 0} → Pipe P → List ℕ → NativeAudio P → NativeAudio P
wrote calls buf s = record {
  count = s.count + count_written (calls.write buf s.pipe).0;
  pipe = (calls.write buf s.pipe).1;
}

write_loop-end :
    {P : Type 0} (calls : Pipe P) (fuel : ℕ) (buf : List ℕ) (nwrite : ℕ) (s : NativeAudio P)
    → length buf ≤ nwrite
    → write_loop calls (suc fuel) buf nwrite s ≡ some s
unfolding write_loop
write_loop-end calls fuel buf nwrite s h = rw (lt_false h) refl

write_loop-again :
    {P : Type 0} (calls : Pipe P) (fuel : ℕ) (buf : List ℕ) (nwrite : ℕ) (s : NativeAudio P)
    → nwrite < length buf
    → write_loop calls (suc fuel) buf nwrite s
      ≡ write_loop calls fuel buf
          (nwrite + count_written (calls.write buf s.pipe).0)
          (wrote calls buf s)
unfolding write_loop
write_loop-again calls fuel buf nwrite s h = rw (lt→ltb _ _ h) refl

-- A call that takes `n` bytes queues the first `n` of the buffer.
wrote-Queued :
    {P : Type 0} {calls : Pipe P} (fifo : FifoPipe calls) (buf xs : List ℕ) (s : NativeAudio P)
    (n : ℕ)
    → Queued fifo xs s
    → count_written (calls.write buf s.pipe).0 ≡ n
    → Queued fifo (xs ++ take n buf) (wrote calls buf s)
wrote-Queued {calls = calls} fifo buf xs s n q e = record {
  held =
      fifo.taken buf s.pipe
      ∙ ap (λ k. fifo.contents s.pipe ++ take k buf) e
      ∙ ap (λ l. l ++ take n buf) q.held;
  counted =
      let least : n ≤ length buf = subst (λ k. k ≤ length buf) e (fifo.at_most buf s.pipe) in
      omega (arith, length-append xs (take n buf), length-take n buf, q.counted, e);
}

pub take-length : (xs : List ℕ) → take (length xs) xs ≡ xs
take-length [] = refl
take-length (x ∷ xs) = ap (λ l. x ∷ l) (take-length xs)

-- A buffer that the first call takes as a whole.
whole-Queued :
    {P : Type 0} {calls : Pipe P} (fifo : FifoPipe calls) (fuel : ℕ) (buf xs : List ℕ)
    (s : NativeAudio P) (nwrite : ℕ)
    → Queued fifo xs s
    → nwrite < length buf
    → (calls.write buf s.pipe).0 ≡ some (length buf)
    → (s' : NativeAudio P) × (write_loop calls (suc (suc fuel)) buf nwrite s ≡ some s')
      × Queued fifo (xs ++ buf) s'
unfolding count_written
whole-Queued {calls = calls} fifo fuel buf xs s nwrite q l e =
    let all : count_written (calls.write buf s.pipe).0 ≡ length buf = ap count_written e in
    (
      wrote calls buf s,
      write_loop-again calls (suc fuel) buf nwrite s l
          ∙ write_loop-end calls fuel buf _ (wrote calls buf s) (omega (arith, all)),
      subst (λ l. Queued fifo (xs ++ l) (wrote calls buf s)) (take-length buf)
          (wrote-Queued fifo buf xs s (length buf) q all),
    )

pub audio_write-Queued :
    {P : Type 0} {calls : Pipe P} (fifo : FifoPipe calls) (fuel : ℕ) (buf xs : List ℕ)
    (s : NativeAudio P)
    → Queued fifo xs s
    → length buf ≤ 4096
    → fifo.Room s.pipe (length buf)
    → (s' : NativeAudio P) × (audio_write calls (suc (suc fuel)) buf s ≡ some s')
      × Queued fifo (xs ++ buf) s'
unfolding audio_write
audio_write-Queued {calls = calls} fifo fuel [] xs s q small room = (
  s,
  write_loop-end calls (suc fuel) [] 0 s (omega arith),
  subst (λ l. Queued fifo l s) (sym (append-nil xs)) q,
)
audio_write-Queued {calls = calls} fifo fuel (x ∷ buf) xs s q small room =
    whole-Queued fifo fuel (x ∷ buf) xs s 0 q (omega arith) (fifo.whole (x ∷ buf) s.pipe small room)

-- If the pipe, which hands bytes out in order, takes only the first bytes of a buffer, as when a
-- signal interrupts the call, and the whole of it at the next call, then with fuel for three
-- rounds audio_write queues and counts those first bytes and then the whole buffer, so that its
-- beginning is queued twice.
pub audio_write-restarts :
    {P : Type 0} {calls : Pipe P} (fifo : FifoPipe calls) (fuel : ℕ) (buf xs : List ℕ)
    (s : NativeAudio P) (n : ℕ)
    → Queued fifo xs s
    → n < length buf
    → (calls.write buf s.pipe).0 ≡ some n
    → (calls.write buf (calls.write buf s.pipe).1).0 ≡ some (length buf)
    → (s' : NativeAudio P) × (audio_write calls (suc (suc (suc fuel))) buf s ≡ some s')
      × Queued fifo ((xs ++ take n buf) ++ buf) s'
unfolding audio_write count_written
audio_write-restarts {calls = calls} fifo fuel buf xs s n q l e again =
    let part : count_written (calls.write buf s.pipe).0 ≡ n = ap count_written e in
    let (s', done, q') =
      whole-Queued fifo fuel buf (xs ++ take n buf) (wrote calls buf s)
        (0 + count_written (calls.write buf s.pipe).0) (wrote-Queued fifo buf xs s n q part)
        (omega (arith, part)) again in
    (s', write_loop-again calls (suc (suc fuel)) buf 0 s (omega arith) ∙ done, q')
