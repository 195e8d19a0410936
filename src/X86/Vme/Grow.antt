-- ===== src/X86/Vme/Grow.antt =====
-- A new page table in the directory, as `pgallocz` and `ptwalk` of am/src/x86/qemu/vme.c put it
-- there.
use native.Mathlib.Decide.{ℕ_discrete}
use openperf_abstract_machin.Prelude.{
  ℕ, zero, suc, ◌+◌, ◌*◌, ◌/◌, ◌≤◌, ◌<◌, ◌≡◌, ◌≢◌, ◌⊎◌, inl, ◌∙◌, refl, arith, Memory, write,
}
use openperf_abstract_machin.X86.Vme.{slot, zero_words}
use openperf_abstract_machin.X86.Vme.Entries.{frame, dir_slot, dir_entry}

pub zero_words_frame :
    (n p i : ℕ) (w : Memory) (a : ℕ)
    → (a < p + 4 * i) ⊎ (p + 4 * (i + n) ≤ a)
    → zero_words n p i w a ≡ w a
unfolding zero_words
zero_words_frame zero p i w a h = refl
zero_words_frame (suc n) p i w a h =
    zero_words_frame n p (i + 1) (write w (slot p i) 0) a (omega arith) ∙ ground arith

pub zero_words_inside :
    (n p i : ℕ) (w : Memory) (j : ℕ) → i ≤ j → j < i + n → zero_words n p i w (slot p j) ≡ 0
unfolding zero_words
zero_words_inside zero p i w j h l = absurd (omega arith)
zero_words_inside (suc n) p i w j h l = elim (ℕ_discrete i j) [
  | yes e ↦
      zero_words_frame n p (i + 1) (write w (slot p i) 0) (slot p j) (inl (omega arith))
      ∙ ground arith
  | no ne ↦ zero_words_inside n p (i + 1) (write w (slot p i) 0) j (omega arith) (omega arith)
]

-- The memory `v` is `w` with a new table, page number `page`, at index `i` of the directory.
pub record Grown (w v : Memory) (space i page r : ℕ) : Type 0 where
  pub same_dir : v space ≡ w space
  pub here : dir_entry v space i ≡ page * 4096 + r
  pub others : (j : ℕ) → j < 1024 → j ≢ i → dir_entry v space j ≡ dir_entry w space j
  pub tables :
      (q j : ℕ)
      → j < 1024
      → q ≢ page
      → q ≢ frame (w space)
      → v (q * 4096 + 4 * j) ≡ w (q * 4096 + 4 * j)
  pub empty : (j : ℕ) → j < 1024 → v (page * 4096 + 4 * j) ≡ 0

pub new_table-Grown :
    (w : Memory) (space i page r : ℕ)
    → space / 4096 ≢ frame (w space)
    → space / 4096 ≢ page
    → frame (w space) ≢ page
    → i < 1024
    → Grown w
        (write (zero_words 1024 (page * 4096) 0 w) (dir_slot w space i) (page * 4096 + r))
        space
        i
        page
        r
new_table-Grown w space i page r own other dir_other l =
    let zeroed = zero_words 1024 (page * 4096) 0 w in
    let same : zeroed space ≡ w space =
      zero_words_frame 1024 (page * 4096) 0 w space (omega arith) in
    let v = write zeroed (dir_slot w space i) (page * 4096 + r) in
    let root : v space ≡ w space = ground arith in
    record {
      same_dir = root;
      here = rw root (ground arith);
      others = λ j lj ne.
          let keep = zero_words_frame 1024 (page * 4096) 0 w (dir_slot w space j) (omega arith) in
          rw root (ground arith);
      tables = λ q j lj nq nd.
          let keep = zero_words_frame 1024 (page * 4096) 0 w (q * 4096 + 4 * j) (omega arith) in
          ground arith;
      empty = λ j lj.
          let clear = zero_words_inside 1024 (page * 4096) 0 w j (omega arith) lj in ground arith;
    }
