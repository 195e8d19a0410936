-- ===== src/X86/Vme/Refuse.antt =====
-- The requests that map of am/src/x86/qemu/vme.c answers with a panic.
use native.Mathlib.Decide.{ℕ_discrete}
use openperf_abstract_machin.Prelude.{
  ℕ, ◌%◌, ◌≤◌, ◌<◌, ◌≡◌, ◌≢◌, ◌⊎◌, inl, inr, ◌∙◌, refl, ap, sym, arith, ◌==◌, eq_false, none,
  Bool-cases, false,
}
use openperf_abstract_machin.Klib.Stdlib.{in_range}
use openperf_abstract_machin.X86.Vme.{Machine, pgsize, set_entry, map, rounddown}
use openperf_abstract_machin.X86.Vme.Fields.{present_bit, rounddown-pgsize}
use openperf_abstract_machin.X86.Vme.Entries.{
  dir_entry, dir_index, table_slot, entry, IsValid, Allocator,
}
use openperf_abstract_machin.X86.Vme.Walk.{ptwalk-Walked, ptwalk-present, ptwalk-panic}
use openperf_abstract_machin.X86.Vme.Map.{IsRequest, map-checked, found, table_present}

module _ {H : Type 0} (pgalloc : ℕ → H → ℕ × H) where
  -- map panics on an address outside of the user area and on a virtual or physical address that is
  -- not aligned to a page.
  pub map-refused :
      (space va pa prot : ℕ) (s : Machine H)
      → (va < 0x4000_0000) ⊎ (0x8000_0000 ≤ va) ⊎ (va % 4096 ≢ 0) ⊎ (pa % 4096 ≢ 0)
      → map pgalloc space va pa prot s ≡ none
  unfolding map
  map-refused space va pa prot s (inl l) =
      let outside : in_range va 0x4000_0000 0x8000_0000 ≡ false = ground arith in rw outside refl
  map-refused space va pa prot s (inr (inl l)) =
      let outside : in_range va 0x4000_0000 0x8000_0000 ≡ false = ground arith in rw outside refl
  map-refused space va pa prot s (inr (inr (inl ne))) =
      let odd : (va == rounddown va pgsize) ≡ false =
        eq_false (omega (arith, rounddown-pgsize va)) in
      elim (Bool-cases (in_range va 0x4000_0000 0x8000_0000)) [
        | inl e ↦ rw (e, odd) refl
        | inr e ↦ rw e refl
      ]
  map-refused space va pa prot s (inr (inr (inr ne))) =
      let odd : (pa == rounddown pa pgsize) ≡ false =
        eq_false (omega (arith, rounddown-pgsize pa)) in
      elim (Bool-cases (in_range va 0x4000_0000 0x8000_0000)) [
        | inl e ↦ elim (Bool-cases (va == rounddown va pgsize)) [
          | inl e' ↦ rw (e, e', odd) refl
          | inr e' ↦ rw (e, e') refl
        ]
        | inr e ↦ rw e refl
      ]

  module _ (A : Allocator pgalloc) (space va pa : ℕ) (rq : IsRequest va pa) where
    set_entry-mapped :
        (prot : ℕ) (s : Machine H)
        → prot ≢ 0
        → s.words (table_slot s.words space va) % 2 ≡ 1
        → set_entry (table_slot s.words space va) pa prot s ≡ none
    unfolding set_entry
    set_entry-mapped prot s ne on =
        rw (eq_false ne, present_bit (s.words (table_slot s.words space va)), on) refl

    set_entry-unmapped :
        (s : Machine H)
        → s.words (table_slot s.words space va) % 2 ≡ 0
        → set_entry (table_slot s.words space va) pa 0 s ≡ none
    unfolding set_entry
    set_entry-unmapped s off = rw (present_bit (s.words (table_slot s.words space va)), off) refl

    -- In a valid address space map of a user page that has an entry, with a protection other than
    -- MMAP_NONE, panics.
    pub map-remapped :
        (prot : ℕ) (s : Machine H)
        → IsValid (A.used s.pages) s.words space
        → prot ≢ 0
        → entry s.words space va % 2 ≡ 1
        → map pgalloc space va pa prot s ≡ none
    map-remapped prot s u ne on =
        let table = table_present pgalloc A space va pa rq s.words on in
        let on1 : s.words (table_slot s.words space va) % 2 ≡ 1 =
          ap (λ e. e % 2) (sym (found pgalloc A space va pa rq s.words table)) ∙ on in
        rw
          (
            map-checked pgalloc A space va pa rq prot s,
            ptwalk-present pgalloc space va 6 s u.present table,
            set_entry-mapped prot s ne on1,
          )
          refl

    -- In a valid address space map of a user page that has no entry, with MMAP_NONE, panics,
    -- whether or not the allocator has a page left.
    pub map-unmapped :
        (s : Machine H)
        → IsValid (A.used s.pages) s.words space
        → entry s.words space va % 2 ≡ 0
        → map pgalloc space va pa 0 s ≡ none
    map-unmapped s u off = elim (ℕ_discrete (pgalloc pgsize s.pages).0 0) [
      | yes full ↦ elim (ℕ_discrete (dir_entry s.words space (dir_index va) % 2) 0) [
        | yes e ↦
            rw
              (
                map-checked pgalloc A space va pa rq 0 s,
                ptwalk-panic pgalloc space va 6 s u.present e full,
              )
              refl
        | no ne ↦
            let table : dir_entry s.words space (dir_index va) % 2 ≡ 1 = omega arith in
            let off1 : s.words (table_slot s.words space va) % 2 ≡ 0 =
              ap (λ e. e % 2) (sym (found pgalloc A space va pa rq s.words table)) ∙ off in
            rw
              (
                map-checked pgalloc A space va pa rq 0 s,
                ptwalk-present pgalloc space va 6 s u.present table,
                set_entry-unmapped s off1,
              )
              refl
      ]
      | no room ↦
          let (s1, walk, d) =
            ptwalk-Walked pgalloc A space va 6 s u (omega arith) (omega arith) (omega arith) room in
          let off1 : s1.words (table_slot s1.words space va) % 2 ≡ 0 =
            ap (λ e. e % 2) (sym (found pgalloc A space va pa rq s1.words d.table) ∙ d.entries va)
            ∙ off in
          rw (map-checked pgalloc A space va pa rq 0 s, walk, set_entry-unmapped s1 off1) refl
    ]
