-- ===== src/X86/Vme/Walk.antt =====
-- ptwalk of am/src/x86/qemu/vme.c: where it ends, and what it adds on its way.
use Prim.Native.Nat.{bit_or}
use native.Mathlib.Decide.{ℕ_discrete}
use openperf_abstract_machin.Prelude.{
  ℕ, ◌+◌, ◌*◌, ◌/◌, ◌%◌, ◌^◌, ◌<◌, ◌≡◌, ◌≢◌, ◌⊎◌, inl, inr, ◌∙◌, refl, ap, sym, arith, write,
  eq_true, eq_false, some, none, ◌>>=◌,
}
use openperf_abstract_machin.Prelude.Bits.{bit_and-zero}
use openperf_abstract_machin.X86.Vme.{
  Machine, pgsize, pte_p, slot, zero_words, pgallocz, next_page, walk_from, ptwalk, indexof,
  cr3_info,
}
use openperf_abstract_machin.X86.Vme.Fields.{
  indexof-pd, indexof-pt, baseof_lem, present_bit, page_entry,
}
use openperf_abstract_machin.X86.Vme.Entries.{
  frame, dir_slot, dir_entry, dir_index, table_index, table_slot, entry, IsValid, Allocator,
}
use openperf_abstract_machin.X86.Vme.Grow.{new_table-Grown}
use openperf_abstract_machin.X86.Vme.Keep.{Grown-entry, Grown-IsValid}

pub indexof-cr3 : (va : ℕ) → indexof va cr3_info ≡ 0
unfolding indexof
indexof-cr3 va = omega (arith, bit_and-zero va)

module _ {H : Type 0} (pgalloc : ℕ → H → ℕ × H) where
  pub next_page-present :
      (e flags : ℕ) (s : Machine H)
      → s.words e % 2 ≡ 1
      → next_page pgalloc e flags s ≡ some (frame (s.words e) * 4096, s)
  unfolding next_page
  next_page-present e flags s one = rw (present_bit (s.words e), one, baseof_lem (s.words e)) refl

  pub next_page-absent :
      (e flags : ℕ) (s : Machine H)
      → s.words e % 2 ≡ 0
      → (pgalloc pgsize s.pages).0 ≢ 0
      → let (p, h) = pgalloc pgsize s.pages in
        next_page pgalloc e flags s
        ≡ some (
          p,
          record {
            words = write (zero_words 1024 p 0 s.words) e (bit_or (bit_or p pte_p) flags);
            pages = h;
          },
        )
  unfolding next_page pgallocz
  next_page-absent e flags s off ne = rw (present_bit (s.words e), off, eq_false ne) refl

  pub next_page-panic :
      (e flags : ℕ) (s : Machine H)
      → s.words e % 2 ≡ 0
      → (pgalloc pgsize s.pages).0 ≡ 0
      → next_page pgalloc e flags s ≡ none
  unfolding next_page pgallocz
  next_page-panic e flags s off ne = rw (present_bit (s.words e), off, eq_true ne) refl

  -- The first level is the word that points to the directory.
  ptwalk-directory :
      (space va flags : ℕ) (s : Machine H)
      → s.words space % 2 ≡ 1
      → ptwalk pgalloc space va flags s ≡ (
          next_page pgalloc (dir_slot s.words space (dir_index va)) flags s >>= λ r.
          some (slot r.0 (table_index va), r.1))
  unfolding ptwalk walk_from
  ptwalk-directory space va flags s one =
      let first = next_page-present space flags s one in
      let at : space + 4 * 0 ≡ space = omega arith in
      rw (indexof-cr3 va, at, first, indexof-pd va)
        (ap
          (λ i. next_page pgalloc (dir_slot s.words space (dir_index va)) flags s >>= λ r.
            some (slot r.0 i, r.1))
          (indexof-pt va))

  -- The walk ends at the entry of `va`, whose table is there, in a valid space with the same
  -- entries for all addresses.
  pub record Walked (A : Allocator pgalloc) (space va : ℕ) (s s' : Machine H) : Type 0 where
    pub valid : IsValid (A.used s'.pages) s'.words space
    pub table : dir_entry s'.words space (dir_index va) % 2 ≡ 1
    pub entries : (va' : ℕ) → entry s'.words space va' ≡ entry s.words space va'
    pub pages : (s'.pages ≡ s.pages) ⊎ (s'.pages ≡ (pgalloc pgsize s.pages).1)

  pub ptwalk-present :
      (space va flags : ℕ) (s : Machine H)
      → s.words space % 2 ≡ 1
      → dir_entry s.words space (dir_index va) % 2 ≡ 1
      → ptwalk pgalloc space va flags s ≡ some (table_slot s.words space va, s)
  ptwalk-present space va flags s one table =
      rw (ptwalk-directory space va flags s one, next_page-present _ flags s table) refl

  pub ptwalk-panic :
      (space va flags : ℕ) (s : Machine H)
      → s.words space % 2 ≡ 1
      → dir_entry s.words space (dir_index va) % 2 ≡ 0
      → (pgalloc pgsize s.pages).0 ≡ 0
      → ptwalk pgalloc space va flags s ≡ none
  ptwalk-panic space va flags s one off full =
      rw (ptwalk-directory space va flags s one, next_page-panic _ flags s off full) refl

  -- The machine with a new table, page number `page`, for `va`.
  abbrev pub with_table : ℕ → ℕ → ℕ → Machine H → Machine H
  with_table space va r s =
      let (p, h) = pgalloc pgsize s.pages in
      record {
        words =
            write (zero_words 1024 (p / 4096 * 4096) 0 s.words)
              (dir_slot s.words space (dir_index va)) (p / 4096 * 4096 + r);
        pages = h;
      }

  ptwalk-absent :
      (A : Allocator pgalloc) (space va flags : ℕ) (s : Machine H)
      → s.words space % 2 ≡ 1
      → dir_entry s.words space (dir_index va) % 2 ≡ 0
      → flags < 4096
      → (pgalloc pgsize s.pages).0 ≢ 0
      → let p = (pgalloc pgsize s.pages).0 in
        ptwalk pgalloc space va flags s
        ≡ some (p / 4096 * 4096 + 4 * table_index va, with_table space va (bit_or pte_p flags) s)
  ptwalk-absent A space va flags s one off lf room =
      let p = (pgalloc pgsize s.pages).0 in
      let whole : p ≡ p / 4096 * 4096 = omega (arith, A.aligned s.pages) in
      let value = page_entry (p / 4096) pte_p flags (omega arith) lf in
      rw (ptwalk-directory space va flags s one, next_page-absent _ flags s off room)
        (ap
            (λ q. some (
              q + 4 * table_index va,
              record {
                words =
                    write (zero_words 1024 q 0 s.words) (dir_slot s.words space (dir_index va))
                      (bit_or (bit_or q pte_p) flags);
                pages = (pgalloc pgsize s.pages).1;
              },
            ))
            whole
          ∙ rw value refl)

  -- With a page to be had, the walk succeeds.
  pub ptwalk-Walked :
      (A : Allocator pgalloc) (space va flags : ℕ) (s : Machine H)
      → IsValid (A.used s.pages) s.words space
      → flags < 4096
      → bit_or pte_p flags < 4096
      → bit_or pte_p flags % 2 ≡ 1
      → (pgalloc pgsize s.pages).0 ≢ 0
      → (s' : Machine H) × (ptwalk pgalloc space va flags s
          ≡ some (table_slot s'.words space va, s'))
        × Walked A space va s s'
  ptwalk-Walked A space va flags s u lf lr odd room =
      elim (ℕ_discrete (dir_entry s.words space (dir_index va) % 2) 0) [
        | yes off ↦
            let page = (pgalloc pgsize s.pages).0 / 4096 in
            let s' = with_table space va (bit_or pte_p flags) s in
            let fresh : (q : ℕ) → A.used s.pages q → q ≢ page = λ q. A.fresh s.pages q room in
            let g =
              new_table-Grown s.words space (dir_index va) page (bit_or pte_p flags) u.own
                (fresh _ u.space_used) (fresh _ u.dir_used) (omega arith) in
            let lp : page < 2 ^ 20 = omega (arith, A.fits s.pages) in
            let here : dir_entry s'.words space (dir_index va) ≡ page * 4096 + bit_or pte_p flags =
              g.here in
            let end : table_slot s'.words space va ≡ page * 4096 + 4 * table_index va =
              omega arith in
            (
              s',
              ptwalk-absent A space va flags s u.present off lf room
                  ∙ ap (λ x. some (x, s')) (sym end),
              record {
                valid =
                    Grown-IsValid s.words s'.words space (dir_index va) page (bit_or pte_p flags) g
                      (omega arith) lr odd lp off u fresh (A.kept s.pages) (A.taken s.pages room);
                table = omega arith;
                entries =
                    Grown-entry s.words s'.words space (dir_index va) page (bit_or pte_p flags) g
                      (omega arith) lr odd lp off u fresh;
                pages = inr refl;
              },
            )
        | no on ↦
            let table : dir_entry s.words space (dir_index va) % 2 ≡ 1 = omega arith in
            (
              s,
              ptwalk-present space va flags s u.present table,
              record { valid = u; table = table; entries = λ va'. refl; pages = inl refl },
            )
      ]
