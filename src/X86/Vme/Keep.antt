-- ===== src/X86/Vme/Keep.antt =====
-- The steps of `map` in am/src/x86/qemu/vme.c keep the invariant of an address space, and the
-- entries of the pages they are not about.
use native.Mathlib.Decide.{ℕ_discrete}
use openperf_abstract_machin.Prelude.{ℕ, ◌%◌, ◌^◌, ◌<◌, ◌≡◌, ◌≢◌, ◌∙◌, refl, ap, sym, arith, Memory}
use openperf_abstract_machin.X86.Vme.Entries.{
  frame, dir_entry, dir_index, table_index, entry, IsValid,
}
use openperf_abstract_machin.X86.Vme.Grow.{Grown}

module _ (w v : Memory) (space i page r : ℕ) (g : Grown w v space i page r) (li : i < 1024)
    (lr : r < 4096) (odd : r % 2 ≡ 1) (lp : page < 2 ^ 20)
    (absent : dir_entry w space i % 2 ≡ 0) where
  -- The frame of each entry of the grown directory.
  here_frame : frame (dir_entry v space i) ≡ page
  here_frame = omega (arith, g.here)

  pub Grown-entry :
      {used : ℕ → Type 0}
      → IsValid used w space
      → ((q : ℕ) → used q → q ≢ page)
      → (va : ℕ) → entry v space va ≡ entry w space va
  Grown-entry u fresh va = elim (ℕ_discrete (dir_index va) i) [
    | yes e ↦
        let old : dir_entry w space (dir_index va) % 2 ≡ 0 = rw e absent in
        let new : dir_entry v space (dir_index va) % 2 ≡ 1 = rw e (omega (arith, g.here)) in
        let at : frame (dir_entry v space (dir_index va)) ≡ page = rw e here_frame in
        let zero_entry = g.empty (table_index va) (omega arith) in rw (new, old, at) zero_entry
    | no ne ↦
        let same = g.others (dir_index va) (omega arith) ne in
        rw same (elim (ℕ_discrete (dir_entry w space (dir_index va) % 2) 0) [
          | yes e ↦ rw e refl
          | no odd_entry ↦
              let one : dir_entry w space (dir_index va) % 2 ≡ 1 = omega arith in
              rw one (
                g.tables (frame (dir_entry w space (dir_index va))) (table_index va) (omega arith)
                  (fresh _ (u.table_used (dir_index va) (omega arith) one))
                  (u.table_own (dir_index va) (omega arith) one).0)
        ])
  ]

  pub Grown-IsValid :
      {used used' : ℕ → Type 0}
      → IsValid used w space
      → ((q : ℕ) → used q → q ≢ page)
      → ((q : ℕ) → used q → used' q)
      → used' page
      → IsValid used' v space
  Grown-IsValid u fresh kept now = record {
    present = rw g.same_dir u.present;
    word = u.word;
    own = rw g.same_dir u.own;
    space_used = kept _ u.space_used;
    dir_used = rw g.same_dir (kept _ u.dir_used);
    table_used = λ j lj p. elim (ℕ_discrete j i) [
      | yes e ↦ rw (e, here_frame) now
      | no ne ↦
          let same = g.others j lj ne in
          rw same (kept _ (u.table_used j lj (ap (λ x. x % 2) (sym same) ∙ p)))
    ];
    table_own = λ j lj p. elim (ℕ_discrete j i) [
      | yes e ↦
          rw (e, here_frame, g.same_dir)
            ((λ q. fresh _ u.dir_used (sym q)), λ q. fresh _ u.space_used (sym q))
      | no ne ↦
          let same = g.others j lj ne in
          rw (same, g.same_dir) (u.table_own j lj (ap (λ x. x % 2) (sym same) ∙ p))
    ];
    apart = λ j k lj lk ne pj pk. elim (ℕ_discrete j i) [
      | yes e ↦
          let other = g.others k lk (λ q. ne (e ∙ sym q)) in
          let old = u.table_used k lk (ap (λ x. x % 2) (sym other) ∙ pk) in
          rw (e, here_frame, other) (λ q. fresh _ old (sym q))
      | no nj ↦
          let same = g.others j lj nj in
          let old = u.table_used j lj (ap (λ x. x % 2) (sym same) ∙ pj) in
          elim (ℕ_discrete k i) [
            | yes e ↦ rw (e, here_frame, same) (fresh _ old)
            | no nk ↦
                let other = g.others k lk nk in
                rw (same, other)
                  (u.apart j k lj lk ne (ap (λ x. x % 2) (sym same) ∙ pj)
                    (ap (λ x. x % 2) (sym other) ∙ pk))
          ]
    ];
  }
