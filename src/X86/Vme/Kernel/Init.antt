-- ===== src/X86/Vme/Kernel/Init.antt =====
-- vme_init of am/src/x86/qemu/vme.c: the address space that it makes.
use mathlib.Core.Path.{subst}
use Prim.Native.Nat.{bit_or}
use openperf_abstract_machin.Prelude.{
  ℕ, zero, suc, ◌+◌, ◌*◌, ◌/◌, ◌%◌, ◌^◌, ◌≤◌, ◌<◌, ◌≡◌, ◌≢◌, inl, inr, ◌∙◌, refl, ap, sym, arith,
  some, write, eq_false,
}
use openperf_abstract_machin.X86.Vme.{
  Machine, pgsize, pte_p, pte_w, slot, zero_words, walk_from, ptwalk,
}
use openperf_abstract_machin.X86.Vme.Entries.{
  frame, dir_slot, dir_entry, dir_index, entry, IsValid, Allocator,
}
use openperf_abstract_machin.X86.Vme.Fields.{page_entry, baseof_lem}
use openperf_abstract_machin.X86.Vme.Grow.{zero_words_inside}
use openperf_abstract_machin.X86.Vme.Walk.{next_page-present, next_page-absent, indexof-cr3}
use openperf_abstract_machin.X86.Vme.Kernel.{identity_page, identity_area, identity_areas, vme_init}
use openperf_abstract_machin.X86.Vme.Kernel.Identity.{Supply, identity_area-IsIdentity}

module _ {H : Type 0} (pgalloc : ℕ → H → ℕ × H) (A : Allocator pgalloc) (stock : H → ℕ)
    (supply : Supply pgalloc stock) (space : ℕ) where
  -- The machine after `as.ptr` is NULL, and after the directory is there.
  abbrev pub nothing_mapped : Machine H → Machine H
  nothing_mapped s = record s { words = write s.words space 0 }

  abbrev pub with_directory : Machine H → Machine H
  with_directory s =
      let (p, h) = pgalloc pgsize s.pages in
      record {
        words = write (zero_words 1024 p 0 (write s.words space 0)) space (p + 3);
        pages = h;
      }

  directory_word :
      (s : Machine H)
      → bit_or (bit_or (pgalloc pgsize s.pages).0 pte_p) pte_w ≡ (pgalloc pgsize s.pages).0 + 3
  directory_word s =
      let p = (pgalloc pgsize s.pages).0 in
      let whole : p / 4096 * 4096 ≡ p = omega (arith, A.aligned s.pages) in
      subst (λ c. bit_or (bit_or c pte_p) pte_w ≡ c + 3) whole
        (page_entry (p / 4096) pte_p pte_w (omega arith) (omega arith))

  directory_here : (s : Machine H) → (with_directory s).words space ≡ (pgalloc pgsize s.pages).0 + 3
  directory_here s = ground arith

  directory_frame :
      (s : Machine H) → frame ((with_directory s).words space) ≡ (pgalloc pgsize s.pages).0 / 4096
  directory_frame s = ap frame (directory_here s) ∙ omega (arith, A.aligned s.pages, A.fits s.pages)

  -- The first walk allocates the directory.
  ptwalk-with_directory :
      (va : ℕ) (s : Machine H)
      → (pgalloc pgsize s.pages).0 ≢ 0
      → ptwalk pgalloc space va 2 (nothing_mapped s) ≡ ptwalk pgalloc space va 2 (with_directory s)
  unfolding ptwalk walk_from
  ptwalk-with_directory va s room =
      let p = (pgalloc pgsize s.pages).0 in
      let here = directory_here s in
      let empty : (nothing_mapped s).words space ≡ 0 = ground arith in
      let page : frame ((with_directory s).words space) * 4096 ≡ p =
        rw here (omega (arith, A.aligned s.pages, A.fits s.pages)) in
      let at : space + 4 * 0 ≡ space = omega arith in
      let made = next_page-absent pgalloc space 2 (nothing_mapped s) (ap (λ k. k % 2) empty) room in
      let found =
        next_page-present pgalloc space 2 (with_directory s)
          (ap (λ k. k % 2) here ∙ omega (arith, A.aligned s.pages)) in
      rw (indexof-cr3 va, at, made, found, page, directory_word s) refl

  with_directory-IsValid :
      (s : Machine H)
      → space % 4 ≡ 0
      → A.used s.pages (space / 4096)
      → (pgalloc pgsize s.pages).0 ≢ 0
      → IsValid (A.used (with_directory s).pages) (with_directory s).words space
        × ((i : ℕ) → i < 1024 → dir_entry (with_directory s).words space i ≡ 0)
  with_directory-IsValid s word home room =
      let p = (pgalloc pgsize s.pages).0 in
      let w = (with_directory s).words in
      let at : frame (w space) ≡ p / 4096 = directory_frame s in
      let other : space / 4096 ≢ p / 4096 = A.fresh s.pages (space / 4096) room home in
      let empty : (i : ℕ) → i < 1024 → dir_entry w space i ≡ 0 = λ i low.
        let whole : p / 4096 * 4096 ≡ p = omega (arith, A.aligned s.pages) in
        let cell : dir_slot w space i ≡ slot p i = omega arith in
        let apart : slot p i ≢ space = λ e. other (omega arith) in
        let zeroed =
          zero_words_inside 1024 p 0 (write s.words space 0) i (omega arith) (omega arith) in
        let cleared : w (slot p i) ≡ 0 = ground arith in ap w cell ∙ cleared in
      let none_odd : (i : ℕ) → i < 1024 → dir_entry w space i % 2 ≡ 1 → ⊥ =
        λ i low odd. let zero_entry = empty i low in omega arith in
      (
        record {
          present = ap (λ k. k % 2) (directory_here s) ∙ omega (arith, A.aligned s.pages);
          word = word;
          own = λ e. other (e ∙ at);
          space_used = A.kept s.pages (space / 4096) home;
          dir_used = subst (A.used (pgalloc pgsize s.pages).1) (sym at) (A.taken s.pages room);
          table_used = λ i low odd. absurd (none_odd i low odd);
          table_own = λ i low odd. absurd (none_odd i low odd);
          apart = λ i j li lj ne odd odd'. absurd (none_odd i li odd);
        },
        empty,
      )

  identity_area-directory :
      (fuel limit : ℕ) (s : Machine H)
      → 0 ≢ limit
      → (pgalloc pgsize s.pages).0 ≢ 0
      → identity_area pgalloc (suc fuel) space 0 limit (nothing_mapped s)
        ≡ identity_area pgalloc (suc fuel) space 0 limit (with_directory s)
  unfolding identity_area identity_page
  identity_area-directory fuel limit s more room =
      rw (eq_false more, ptwalk-with_directory 0 s room) refl

  -- The address space of vme_init: present and writable entries, not for user code, that map the
  -- pages of the kernel's areas to themselves, and no entry for any other page.
  pub record IsKernelSpace (s' : Machine H) : Type 0 where
    pub valid : IsValid (A.used s'.pages) s'.words space
    pub low : (va : ℕ) → va % 4096 ≡ 0 → va < 0x4000_0000 → entry s'.words space va ≡ va + 3
    pub high :
        (va : ℕ) → va % 4096 ≡ 0 → 0xfd00_0000 ≤ va → va < 2 ^ 32 → entry s'.words space va ≡ va + 3
    pub between :
        (va : ℕ) → va % 4096 ≡ 0 → 0x4000_0000 ≤ va → va < 0xfd00_0000 → entry s'.words space va ≡ 0

  -- On the first processor, with an allocator that hands out fresh pages and has 274433 left, a word
  -- for `as.ptr` in a page that is in use, and fuel for more than 262144 rounds, vme_init succeeds:
  -- the directory that it keeps is that of a valid address space that maps each page of the
  -- kernel's areas, below 0x40000000 and from 0xfd000000 on, to itself, present and writable and
  -- not for user code, and has no entry for any other page.
  pub vme_init-IsKernelSpace :
      (fuel : ℕ) (s : Machine H)
      → space % 4 ≡ 0
      → A.used s.pages (space / 4096)
      → 274432 < stock s.pages
      → 262144 < fuel
      → (s' : Machine H) × (vme_init pgalloc 0 fuel space s
          ≡ some (frame (s'.words space) * 4096, s'))
        × IsKernelSpace s'
        × (stock s.pages ≤ stock s'.pages + 274433)
  unfolding vme_init identity_areas
  vme_init-IsKernelSpace zero s word home plenty enough = absurd (omega arith)
  vme_init-IsKernelSpace (suc fuel) s word home plenty enough =
      let room = supply.gives s.pages (omega arith) in
      let d = with_directory s in
      let one = supply.takes s.pages in
      let (valid, empty) = with_directory-IsValid s word home room in
      let (s1, run1, id1, left1) =
        identity_area-IsIdentity pgalloc A stock supply space 262144 (suc fuel) 0 d (omega arith)
          (omega arith) (omega arith) (omega arith) enough (omega arith) valid in
      let (s2, run2, id2, left2) =
        identity_area-IsIdentity pgalloc A stock supply space 12288 (suc fuel) 0xfd00_0000 s1
          (omega arith) (omega arith) (omega arith) (omega arith) (omega arith) (omega arith)
          id1.valid in
      let first =
        identity_area-directory fuel 0x4000_0000 s (λ e. absurd (omega arith)) room ∙ run1 in
      let none_yet : (va : ℕ) → entry d.words space va ≡ 0 =
        λ va. rw (empty (dir_index va) (omega arith)) refl in
      (
        s2,
        rw (first, run2, baseof_lem (s2.words space)) refl,
        record {
          valid = id2.valid;
          low = λ va page below.
              id2.outside va page (omega arith) (inl (omega arith))
              ∙ id1.inside va page (omega arith) (omega arith);
          high = λ va page from to. id2.inside va page from (omega arith);
          between = λ va page from to.
              id2.outside va page (omega arith) (inl to)
              ∙ id1.outside va page (omega arith) (inr from)
              ∙ none_yet va;
        },
        omega arith,
      )
