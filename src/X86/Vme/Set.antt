-- ===== src/X86/Vme/Set.antt =====
-- A write to the entry of a page, as `map` of am/src/x86/qemu/vme.c does it.
use native.Mathlib.Decide.{ℕ_discrete}
use openperf_abstract_machin.Prelude.{
  ℕ, ◌/◌, ◌%◌, ◌^◌, ◌<◌, ◌≡◌, ◌≢◌, ◌∙◌, refl, ap, sym, arith, Memory, write,
}
use openperf_abstract_machin.X86.Vme.Entries.{dir_entry, dir_index, table_slot, entry, IsValid}

-- The memory after the entry of `va` is set to `x`.
abbrev pub with_entry : Memory → ℕ → ℕ → ℕ → Memory
with_entry w space va x = write w (table_slot w space va) x

module _ (w : Memory) (space va x : ℕ) {used : ℕ → Type 0} (u : IsValid used w space)
    (table : dir_entry w space (dir_index va) % 2 ≡ 1) where
  pub root : with_entry w space va x space ≡ w space
  root = let own = (u.table_own (dir_index va) (omega arith) table).1 in ground arith

  pub directory :
      (i : ℕ) → i < 1024 → dir_entry (with_entry w space va x) space i ≡ dir_entry w space i
  directory i l =
      let own = (u.table_own (dir_index va) (omega arith) table).0 in rw root (ground arith)

  pub set-entry : entry (with_entry w space va x) space va ≡ x
  set-entry = rw (directory (dir_index va) (omega arith), table) (ground arith)

  pub set-entry_other :
      (va' : ℕ)
      → va' / 4096 % 2 ^ 20 ≢ va / 4096 % 2 ^ 20
      → entry (with_entry w space va x) space va' ≡ entry w space va'
  set-entry_other va' ne =
      rw (directory (dir_index va') (omega arith))
        (elim (ℕ_discrete (dir_entry w space (dir_index va') % 2) 0) [
          | yes e ↦ rw e refl
          | no odd ↦
              let one : dir_entry w space (dir_index va') % 2 ≡ 1 = omega arith in
              rw one (other va' ne one)
        ])
    where
      other :
          (va' : ℕ)
          → va' / 4096 % 2 ^ 20 ≢ va / 4096 % 2 ^ 20
          → dir_entry w space (dir_index va') % 2 ≡ 1
          → with_entry w space va x (table_slot w space va') ≡ w (table_slot w space va')
      other va' ne one = elim (ℕ_discrete (dir_index va) (dir_index va')) [
        | yes e ↦ rw e (ground arith)
        | no nd ↦
            let far =
              u.apart (dir_index va) (dir_index va') (omega arith) (omega arith) nd table one in
            ground arith
      ]

  pub set-IsValid : IsValid used (with_entry w space va x) space
  set-IsValid = record {
    present = rw root u.present;
    word = u.word;
    own = rw root u.own;
    space_used = u.space_used;
    dir_used = rw root u.dir_used;
    table_used =
        λ i l p. rw (directory i l) (u.table_used i l (ap (λ x. x % 2) (sym (directory i l)) ∙ p));
    table_own = λ i l p.
        rw (directory i l, root) (u.table_own i l (ap (λ x. x % 2) (sym (directory i l)) ∙ p));
    apart = λ i j li lj ne p q.
        rw (directory i li, directory j lj)
          (u.apart i j li lj ne (ap (λ x. x % 2) (sym (directory i li)) ∙ p)
            (ap (λ x. x % 2) (sym (directory j lj)) ∙ q));
  }
