-- ===== src/X86/Vme/Map.antt =====
-- map of am/src/x86/qemu/vme.c against the entries that the hardware finds.
use Prim.Native.Nat.{bit_and, bit_or}
use mathlib.Core.Path.{subst}
use native.Mathlib.Decide.{ℕ_discrete}
use openperf_abstract_machin.Prelude.{
  ℕ, inl, ◌+◌, ◌*◌, ◌/◌, ◌%◌, ◌^◌, ◌≤◌, ◌<◌, ◌≡◌, ◌≢◌, ◌∙◌, refl, ap, sym, arith, Memory, ◌==◌,
  if◌then◌else◌, eq_true, eq_false, some, ◌>>=◌, true,
}
use openperf_abstract_machin.Prelude.Bits.{bit_or_above}
use openperf_abstract_machin.Klib.Stdlib.{in_range}
use openperf_abstract_machin.X86.Vme.{
  Machine, pgsize, pte_p, pte_u, pte_w, mmap_write, ptwalk, set_entry, map, rounddown,
}
use openperf_abstract_machin.X86.Vme.Fields.{present_bit, page_entry, rounddown-pgsize, write_bit}
use openperf_abstract_machin.X86.Vme.Entries.{
  dir_entry, dir_index, table_slot, entry, IsValid, Allocator,
}
use openperf_abstract_machin.X86.Vme.Set.{
  with_entry, set-entry, set-entry_other, set-IsValid, root, directory,
}
use openperf_abstract_machin.X86.Vme.Walk.{Walked, ptwalk-Walked, ptwalk-present}

-- The requests that `map` does not refuse at once: pages of the user area and of the memory.
pub record IsRequest (va pa : ℕ) : Type 0 where
  pub above : 0x4000_0000 ≤ va
  pub below : va < 0x8000_0000
  pub va_page : va % 4096 ≡ 0
  pub pa_page : pa % 4096 ≡ 0
  pub pa_fits : pa < 2 ^ 32

-- The entry of a page with the given protection.
abbrev pub page_flags : ℕ → ℕ
page_flags prot = 5 + prot / 2 % 2 * 2

two_values :
    (prot : ℕ) → bit_or 5 (if bit_and prot mmap_write == 0 then 0 else pte_w) ≡ page_flags prot
two_values prot = rw (write_bit prot) (elim (ℕ_discrete (prot / 2 % 2) 0) [
  | yes e ↦ rw e refl
  | no ne ↦ let one : prot / 2 % 2 ≡ 1 = omega arith in rw one refl
])

flags_value :
    (q prot : ℕ)
    → bit_or
        (bit_or (bit_or (q * 4096) pte_p) pte_u)
        (if bit_and prot mmap_write == 0 then 0 else pte_w)
      ≡ q * 4096 + page_flags prot
flags_value q prot =
    let two : bit_or 5 (if bit_and prot mmap_write == 0 then 0 else pte_w) ≡ page_flags prot =
      two_values prot in
    rw
      (
        page_entry q pte_p pte_u (omega arith) (omega arith),
        bit_or_above 12 q 5 (if bit_and prot mmap_write == 0 then 0 else pte_w) (omega arith)
            (ground arith),
      )
      (ap (λ f. q * 4096 + f) two)

module _ {H : Type 0} (pgalloc : ℕ → H → ℕ × H) (A : Allocator pgalloc) (space va pa : ℕ)
    (rq : IsRequest va pa) where
  pub map-checked :
      (prot : ℕ) (s : Machine H)
      → map pgalloc space va pa prot s ≡ (
          ptwalk pgalloc space va 6 s >>= λ r.
          set_entry r.0 pa prot r.1 >>= λ s2. ptwalk pgalloc space va 6 s2 >>= λ r'. some r'.1)
  unfolding map
  map-checked prot s =
      let va_down : (va == rounddown va pgsize) ≡ true =
        eq_true (omega (arith, rounddown-pgsize va, rq.above, rq.below, rq.va_page)) in
      let pa_down : (pa == rounddown pa pgsize) ≡ true =
        eq_true (omega (arith, rounddown-pgsize pa, rq.pa_fits, rq.pa_page)) in
      let inside : in_range va 0x4000_0000 0x8000_0000 ≡ true =
        ground (arith, rq.above, rq.below) in
      rw (inside, va_down, pa_down) refl

  -- The rest of `map`, behind a walk that has not panicked.
  map-rest :
      (x prot : ℕ) (s s1 : Machine H)
      → ptwalk pgalloc space va 6 s ≡ some (table_slot s1.words space va, s1)
      → IsValid (A.used s1.pages) s1.words space
      → dir_entry s1.words space (dir_index va) % 2 ≡ 1
      → let s2 : Machine H = record s1 { words = with_entry s1.words space va x } in
        set_entry (table_slot s1.words space va) pa prot s1 ≡ some s2
        → map pgalloc space va pa prot s ≡ some s2
  map-rest x prot s s1 walk u table set =
      let s2 : Machine H = record s1 { words = with_entry s1.words space va x } in
      let here = root s1.words space va x u table in
      let same = directory s1.words space va x u table (dir_index va) (omega arith) in
      let again = ptwalk-present pgalloc space va 6 s2 (rw here u.present) (rw same table) in
      rw (map-checked prot s, walk, set, again) refl

  -- A valid machine in which the page of `va` has the entry `x`, and all other pages have the
  -- entries that they had in `s`.
  pub record Remapped (x : ℕ) (s s' : Machine H) : Type 0 where
    pub valid : IsValid (A.used s'.pages) s'.words space
    pub here : entry s'.words space va ≡ x
    pub others :
        (va' : ℕ)
        → va' / 4096 % 2 ^ 20 ≢ va / 4096 % 2 ^ 20
        → entry s'.words space va' ≡ entry s.words space va'

  -- The walk and the write to the entry that it has found.
  with_entry-Remapped :
      (x : ℕ) (s s1 : Machine H)
      → Walked pgalloc A space va s s1
      → Remapped x s (record s1 { words = with_entry s1.words space va x })
  with_entry-Remapped x s s1 d = record {
    valid = set-IsValid s1.words space va x d.valid d.table;
    here = set-entry s1.words space va x d.valid d.table;
    others = λ va' ne. set-entry_other s1.words space va x d.valid d.table va' ne ∙ d.entries va';
  }

  -- The entry that the walk has found, when the table is present.
  pub found :
      (w : Memory)
      → dir_entry w space (dir_index va) % 2 ≡ 1
      → entry w space va ≡ w (table_slot w space va)
  found w table = rw table refl

  set_entry-add :
      (prot : ℕ) (s1 : Machine H)
      → prot ≢ 0
      → s1.words (table_slot s1.words space va) % 2 ≡ 0
      → set_entry (table_slot s1.words space va) pa prot s1
        ≡ some (record s1 { words = with_entry s1.words space va (pa + page_flags prot) })
  unfolding set_entry
  set_entry-add prot s1 ne off =
      let whole : pa ≡ pa / 4096 * 4096 = omega (arith, rq.pa_page) in
      let value : bit_or (bit_or (bit_or pa pte_p) pte_u)
            (if bit_and prot mmap_write == 0 then 0 else pte_w)
          ≡ pa + page_flags prot =
        subst
          (λ q.
            bit_or (bit_or (bit_or q pte_p) pte_u)
              (if bit_and prot mmap_write == 0 then 0 else pte_w)
            ≡ q + page_flags prot)
          (sym whole) (flags_value (pa / 4096) prot) in
      rw (eq_false ne, present_bit (s1.words (table_slot s1.words space va)), off, value) refl

  -- In a valid address space, with an allocator that hands out fresh pages and has one left, map
  -- of an aligned user page that has no entry to an aligned physical page, with a protection other
  -- than MMAP_NONE, succeeds: the page has an entry with the physical address, present and user
  -- set and write as asked for, every other page has the entry it had, and the space is valid.
  pub map_lem :
      (prot : ℕ) (s : Machine H)
      → IsValid (A.used s.pages) s.words space
      → prot ≢ 0
      → entry s.words space va % 2 ≡ 0
      → (pgalloc pgsize s.pages).0 ≢ 0
      → (s' : Machine H) × (map pgalloc space va pa prot s ≡ some s')
        × Remapped (pa + page_flags prot) s s'
  map_lem prot s u ne off room =
      let (s1, walk, d) =
        ptwalk-Walked pgalloc A space va 6 s u (omega arith) (omega arith) (omega arith) room in
      let off1 : s1.words (table_slot s1.words space va) % 2 ≡ 0 =
        ap (λ e. e % 2) (sym (found s1.words d.table) ∙ d.entries va) ∙ off in
      (
        record s1 { words = with_entry s1.words space va (pa + page_flags prot) },
        map-rest (pa + page_flags prot) prot s s1 walk d.valid d.table
            (set_entry-add prot s1 ne off1),
        with_entry-Remapped (pa + page_flags prot) s s1 d,
      )

  pub table_present :
      (w : Memory) → entry w space va % 2 ≡ 1 → dir_entry w space (dir_index va) % 2 ≡ 1
  table_present w on = elim (ℕ_discrete (dir_entry w space (dir_index va) % 2) 0) [
    | yes e ↦ ground arith
    | no ne ↦ omega arith
  ]

  set_entry-remove :
      (s : Machine H)
      → s.words (table_slot s.words space va) % 2 ≡ 1
      → set_entry (table_slot s.words space va) pa 0 s
        ≡ some (record s { words = with_entry s.words space va 0 })
  unfolding set_entry
  set_entry-remove s on = rw (present_bit (s.words (table_slot s.words space va)), on) refl

  -- In a valid address space map of an aligned user page that has an entry, with MMAP_NONE,
  -- succeeds: the page has the entry 0, every other page has the entry it had, and the space is
  -- valid.
  pub map-none_lem :
      (s : Machine H)
      → IsValid (A.used s.pages) s.words space
      → entry s.words space va % 2 ≡ 1
      → (s' : Machine H) × (map pgalloc space va pa 0 s ≡ some s') × Remapped 0 s s'
  map-none_lem s u on =
      let table = table_present s.words on in
      let on1 : s.words (table_slot s.words space va) % 2 ≡ 1 =
        ap (λ e. e % 2) (sym (found s.words table)) ∙ on in
      (
        record s { words = with_entry s.words space va 0 },
        map-rest 0 0 s s (ptwalk-present pgalloc space va 6 s u.present table) u table
            (set_entry-remove s on1),
        with_entry-Remapped 0 s s
            (record { valid = u; table = table; entries = λ va'. refl; pages = inl refl }),
      )
