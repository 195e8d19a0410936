-- ===== src/Nemu/Audio/Ring.antt =====
-- Where the loop of __am_audio_play of am/src/platform/nemu/ioe/audio.c puts the samples.
use native.Mathlib.Nat.{mod-add-mod, mod-eq_of_lt, mod-eq-sub-mod}
use native.Mathlib.Decide.{ℕ_discrete, dec_lt}
use openperf_abstract_machin.Prelude.{
  ℕ, zero, suc, ◌+◌, ◌-◌, ◌*◌, ◌%◌, ◌≤◌, ◌<◌, ◌≡◌, ◌≢◌, ◌⊎◌, inl, inr, refl, ap, sym, ◌∙◌, arith,
  Memory, write, eq_true, eq_false,
}
use openperf_abstract_machin.Nemu.Audio.{Registers, audio_sbuf_addr, put_samples}

-- Where a word of the next ones goes.
abbrev pub ring_slot : ℕ → ℕ → ℕ → ℕ
ring_slot bufsize last k = (last + 4 * k) % bufsize

slot_cases :
    (bufsize last k : ℕ)
    → last < bufsize
    → 4 * k ≤ bufsize
    → ((last + 4 * k < bufsize) × (ring_slot bufsize last k ≡ last + 4 * k))
      ⊎ ((bufsize ≤ last + 4 * k) × (ring_slot bufsize last k ≡ last + 4 * k - bufsize))
slot_cases bufsize last k inside short = elim (dec_lt (last + 4 * k) bufsize) [
  | yes l ↦ inl (l, mod-eq_of_lt l)
  | no nl ↦ inr (
    omega arith,
    mod-eq-sub-mod {n = last + 4 * k} {m = bufsize} (omega arith)
        ∙ mod-eq_of_lt {n = last + 4 * k - bufsize} {m = bufsize} (omega arith),
  )
]

slot-suc :
    (bufsize last k : ℕ)
    → ring_slot bufsize last (suc k) ≡ ring_slot bufsize ((last + 4) % bufsize) k
slot-suc bufsize last k =
    ap (λ x. x % bufsize) (omega arith) ∙ sym (mod-add-mod (last + 4) bufsize (4 * k))

module _ {D : Type 0} (dev : Registers D) where
  -- The words of the device's buffer of a size, by their offset.
  pub record Buffer (bufsize : ℕ) : Type 0 where
    pub words : D → ℕ → ℕ
    pub stores :
        (d : D) (o v : ℕ)
        → o < bufsize
        → o % 4 ≡ 0
        → words (dev.outl (o + audio_sbuf_addr) v d) ≡ write (words d) o v

  module _ (bufsize : ℕ) (buffer : Buffer bufsize) (whole : bufsize % 4 ≡ 0) where
    pub record Put (n i buf : ℕ) (m : Memory) (last : ℕ) (d : D) (r : ℕ × D) : Type 0 where
      pub written :
          (k : ℕ) → k < n → buffer.words r.1 (ring_slot bufsize last k) ≡ m (buf + (i + 4 * k))
      pub kept :
          (o : ℕ)
          → ((k : ℕ) → k < n → o ≢ ring_slot bufsize last k)
          → buffer.words r.1 o ≡ buffer.words d o
      pub next : r.0 ≡ ring_slot bufsize last n

    -- With a buffer whose size is a multiple of 4, a position in it that is one, too, and no more
    -- words than the buffer has, the loop of __am_audio_play puts each word of the samples at its
    -- place behind the position, going on from the start where the buffer ends; it leaves every
    -- other word of the buffer alone, and the position that it returns is the place of the next
    -- word.
    pub put_samples_lem :
        (n i buf : ℕ) (m : Memory) (last : ℕ) (d : D)
        → last < bufsize
        → last % 4 ≡ 0
        → 4 * n ≤ bufsize
        → Put n i buf m last d (put_samples dev n i buf m bufsize last d)
    unfolding put_samples
    put_samples_lem zero i buf m last d inside aligned fits = record {
      written = λ k l. absurd (omega arith);
      kept = λ o away. refl;
      next =
          sym (ap (λ x. x % bufsize) (omega arith) ∙ mod-eq_of_lt {n = last} {m = bufsize} inside);
    }
    put_samples_lem (suc n) i buf m last d inside aligned fits =
        let last' = (last + 4) % bufsize in
        let d' = dev.outl (last + audio_sbuf_addr) (m (buf + i)) d in
        let one = slot_cases bufsize last 1 inside (omega arith) in
        let ih =
          put_samples_lem n (i + 4) buf m last' d' (omega arith) (omega arith) (omega arith) in
        let r = put_samples dev n (i + 4) buf m bufsize last' d' in
        let stored = buffer.stores d last (m (buf + i)) inside aligned in
        record {
          written = λ k l. elim (ℕ_discrete k 0) [
            | yes e ↦
                let here : ring_slot bufsize last k ≡ last =
                  ap (λ x. x % bufsize) (omega arith)
                  ∙ mod-eq_of_lt {n = last} {m = bufsize} inside in
                let from : buf + i ≡ buf + (i + 4 * k) = omega arith in
                ap (buffer.words r.1) here
                ∙ ih.kept last (λ j lj. omega (
                  arith,
                  slot-suc bufsize last j,
                  slot_cases bufsize last (suc j) inside (omega arith),
                ))
                ∙ ap (λ w. w last) stored
                ∙ rw (eq_true {a = last} refl) (ap m from)
            | no ne ↦
                let there : ring_slot bufsize last k ≡ ring_slot bufsize last' (k - 1) =
                  ap (ring_slot bufsize last) (omega arith) ∙ slot-suc bufsize last (k - 1) in
                let from : buf + (i + 4 + 4 * (k - 1)) ≡ buf + (i + 4 * k) = omega arith in
                ap (buffer.words r.1) there ∙ ih.written (k - 1) (omega arith) ∙ ap m from
          ];
          kept = λ o away.
              let other : last ≢ o = λ e. away 0 (omega arith) (
                sym e
                ∙ sym (
                    ap (λ x. x % bufsize) (omega arith)
                    ∙ mod-eq_of_lt {n = last} {m = bufsize} inside)) in
              ih.kept o (λ k l. λ e. away (suc k) (omega arith) (e ∙ sym (slot-suc bufsize last k)))
              ∙ ap (λ w. w o) stored
              ∙ rw (eq_false other) refl;
          next = ih.next ∙ sym (slot-suc bufsize last n);
        }
