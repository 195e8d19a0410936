-- ===== src/X86/Vme/Space/Protect.antt =====
-- protect of am/src/x86/qemu/vme.c: a new address space shares the kernel's tables and maps no
-- user page.
use native.Mathlib.Decide.{ℕ_discrete, dec_lt}
use openperf_abstract_machin.Prelude.{
  ℕ, ◌+◌, ◌*◌, ◌/◌, ◌%◌, ◌^◌, ◌≤◌, ◌<◌, ◌≡◌, ◌≢◌, ◌⊎◌, inl, inr, ◌∙◌, refl, ap, sym, arith, Memory,
  write, ◌==◌, if◌then◌else◌, eq_false, some,
}
use openperf_abstract_machin.X86.Vme.{Machine, pgsize, zero_words, pgallocz, uvm_area, pte_p, pte_u}
use openperf_abstract_machin.X86.Vme.Fields.{page_entry}
use openperf_abstract_machin.X86.Vme.Entries.{
  frame, dir_index, table_index, entry, IsValid, Allocator,
}
use openperf_abstract_machin.X86.Vme.Grow.{zero_words_frame, zero_words_inside}
use openperf_abstract_machin.X86.Vme.Space.{copy_area, copy_areas, protect}
use openperf_abstract_machin.X86.Vme.Space.Copy.{Copied, copy_area_lem}

-- The kernel's directory in page `k`, whose tables are in use, of their own, and apart from the
-- page that holds the pointer of the new space.
pub record IsKernel (used : ℕ → Type 0) (w : Memory) (k space : ℕ) : Type 0 where
  pub in_use : used k
  pub elsewhere : space / 4096 ≢ k
  pub table_used :
      (i : ℕ) → i < 1024 → w (k * 4096 + 4 * i) % 2 ≡ 1 → used (frame (w (k * 4096 + 4 * i)))
  pub table_elsewhere :
      (i : ℕ)
      → i < 1024
      → w (k * 4096 + 4 * i) % 2 ≡ 1
      → frame (w (k * 4096 + 4 * i)) ≢ space / 4096
  pub apart :
      (i j : ℕ)
      → i < 1024
      → j < 1024
      → i ≢ j
      → w (k * 4096 + 4 * i) % 2 ≡ 1
      → w (k * 4096 + 4 * j) % 2 ≡ 1
      → frame (w (k * 4096 + 4 * i)) ≢ frame (w (k * 4096 + 4 * j))

-- The entry of a page in the kernel's tables.
abbrev pub kernel_entry : Memory → ℕ → ℕ → ℕ
kernel_entry w k va =
    let e = w (k * 4096 + 4 * dir_index va) in
    if e % 2 == 0 then 0 else w (frame e * 4096 + 4 * table_index va)

-- The memory `v` is `w` with a directory in `page` that has the kernel's entries, and the pointer
-- to it at `space`.
record Protected (w v : Memory) (k space page : ℕ) : Type 0 where
  pointer : v space ≡ page * 4096 + 5
  kernel :
      (i : ℕ) → (i < 256) ⊎ (1012 ≤ i) → i < 1024 → v (page * 4096 + 4 * i) ≡ w (k * 4096 + 4 * i)
  user : (i : ℕ) → 256 ≤ i → i < 1012 → v (page * 4096 + 4 * i) ≡ 0
  tables :
      (q j : ℕ)
      → j < 1024
      → q ≢ page
      → q ≢ space / 4096
      → v (q * 4096 + 4 * j) ≡ w (q * 4096 + 4 * j)

two_copies-Protected :
    (w v1 v2 : Memory) (k space page : ℕ)
    → Copied (page * 4096) (k * 4096) 0 256 (zero_words 1024 (page * 4096) 0 w) v1
    → Copied (page * 4096) (k * 4096) 1012 12 v1 v2
    → page ≢ k
    → page ≢ space / 4096
    → k ≢ space / 4096
    → Protected w (write v2 space (page * 4096 + 5)) k space page
two_copies-Protected w v1 v2 k space page c1 c2 ne other far =
    let zeroed = zero_words 1024 (page * 4096) 0 w in
    record {
      pointer = ground arith;
      kernel = λ i side l.
          let clean = zero_words_frame 1024 (page * 4096) 0 w (k * 4096 + 4 * i) (omega arith) in
          elim (dec_lt i 256) [
            | yes low ↦
                let a = c1.copies i (omega arith) low in
                let b = c2.keeps (page * 4096 + 4 * i) (omega arith) in ground arith
            | no high ↦
                let a = c1.keeps (k * 4096 + 4 * i) (omega arith) in
                let b = c2.copies i (omega arith) (omega arith) in ground arith
          ];
      user = λ i low high.
          let clean = zero_words_inside 1024 (page * 4096) 0 w i (omega arith) (omega arith) in
          let a = c1.keeps (page * 4096 + 4 * i) (omega arith) in
          let b = c2.keeps (page * 4096 + 4 * i) (omega arith) in ground arith;
      tables = λ q j l nq nd.
          let clean = zero_words_frame 1024 (page * 4096) 0 w (q * 4096 + 4 * j) (omega arith) in
          let a = c1.keeps (q * 4096 + 4 * j) (omega arith) in
          let b = c2.keeps (q * 4096 + 4 * j) (omega arith) in ground arith;
    }

module _ (w v : Memory) (k space page : ℕ) (g : Protected w v k space page) (lp : page < 2 ^ 20)
    {used used' : ℕ → Type 0} (kernel : IsKernel used w k space)
    (fresh : (q : ℕ) → used q → q ≢ page) (kept : (q : ℕ) → used q → used' q) where
  directory_page : frame (v space) ≡ page
  directory_page = omega (arith, g.pointer)

  -- A present entry is the kernel's.
  shared :
      (i : ℕ)
      → i < 1024
      → v (page * 4096 + 4 * i) % 2 ≡ 1
      → v (page * 4096 + 4 * i) ≡ w (k * 4096 + 4 * i)
  shared i l p = elim (dec_lt i 256) [
    | yes low ↦ g.kernel i (inl low) l
    | no high ↦ elim (dec_lt i 1012) [
      | yes mid ↦ let none_here = g.user i (omega arith) mid in absurd (omega (arith, p))
      | no top ↦ g.kernel i (inr (omega arith)) l
    ]
  ]

  kernel_present :
      (i : ℕ) → i < 1024 → v (page * 4096 + 4 * i) % 2 ≡ 1 → w (k * 4096 + 4 * i) % 2 ≡ 1
  kernel_present i l p = ap (λ x. x % 2) (sym (shared i l p)) ∙ p

  Protected-IsValid : space % 4 ≡ 0 → used (space / 4096) → used' page → IsValid used' v space
  Protected-IsValid word home now = record {
    present = omega (arith, g.pointer);
    word = word;
    own = rw directory_page (fresh _ home);
    space_used = kept _ home;
    dir_used = rw directory_page now;
    table_used =
        rw directory_page
          (λ i l p. rw (shared i l p) (kept _ (kernel.table_used i l (kernel_present i l p))));
    table_own = rw directory_page (λ i l p. rw (shared i l p) (
      fresh _ (kernel.table_used i l (kernel_present i l p)),
      kernel.table_elsewhere i l (kernel_present i l p),
    ));
    apart = rw directory_page (λ i j li lj ne p q.
        rw (shared i li p, shared j lj q)
          (kernel.apart i j li lj ne (kernel_present i li p) (kernel_present j lj q)));
  }

  Protected-user : (va : ℕ) → 256 ≤ dir_index va → dir_index va < 1012 → entry v space va ≡ 0
  Protected-user va low high = rw (directory_page, g.user (dir_index va) low high) refl

  Protected-kernel :
      (va : ℕ)
      → (dir_index va < 256) ⊎ (1012 ≤ dir_index va)
      → entry v space va ≡ kernel_entry w k va
  Protected-kernel va side =
      let same = g.kernel (dir_index va) side (omega arith) in
      rw (directory_page, same)
        (elim (ℕ_discrete (w (k * 4096 + 4 * dir_index va) % 2) 0) [
          | yes e ↦ rw e refl
          | no ne ↦
              let one : w (k * 4096 + 4 * dir_index va) % 2 ≡ 1 = omega arith in
              let e = w (k * 4096 + 4 * dir_index va) in
              rw one (
                g.tables (frame e) (table_index va) (omega arith)
                  (fresh _ (kernel.table_used (dir_index va) (omega arith) one))
                  (kernel.table_elsewhere (dir_index va) (omega arith) one))
        ])

module _ {H : Type 0} (pgalloc : ℕ → H → ℕ × H) (A : Allocator pgalloc) (k space : ℕ) where
  -- What protect promises of the new space.
  pub record IsNewSpace (s s' : Machine H) : Type 0 where
    pub valid : IsValid (A.used s'.pages) s'.words space
    pub user :
        (va : ℕ) → va < 2 ^ 32 → 0x4000_0000 ≤ va → va < 0xfd00_0000 → entry s'.words space va ≡ 0
    pub kernel :
        (va : ℕ)
        → va < 2 ^ 32
        → (va < 0x4000_0000) ⊎ (0xfd00_0000 ≤ va)
        → entry s'.words space va ≡ kernel_entry s.words k va

  -- The run of protect, from the two copies.
  protect-run :
      (fuel page : ℕ) (s : Machine H) (v1 v2 : Memory)
      → page * 4096 ≡ (pgalloc pgsize s.pages).0
      → (pgalloc pgsize s.pages).0 ≢ 0
      → copy_area fuel
          (page * 4096)
          (k * 4096)
          0
          0x4000_0000
          (zero_words 1024 (page * 4096) 0 s.words)
        ≡ some v1
      → copy_area fuel (page * 4096) (k * 4096) 0xfd00_0000 0 v1 ≡ some v2
      → protect pgalloc fuel (k * 4096) space s
        ≡ some (
          record { pgsize = 4096; area = uvm_area },
          record { words = write v2 space (page * 4096 + 5); pages = (pgalloc pgsize s.pages).1 },
        )
  unfolding protect pgallocz copy_areas
  protect-run fuel page s v1 v2 whole room run1 run2 =
      let value = page_entry page pte_p pte_u (omega arith) (omega arith) in
      rw (eq_false room, sym whole, run1, run2, value) refl

  -- With an allocator that hands out fresh pages and has one left, a kernel directory whose tables
  -- are in use, apart from each other and from the page of the new space's pointer, and fuel for
  -- 256 rounds, protect succeeds: the new space is valid, has no entry for any page from
  -- 0x40000000 up to 0xfd000000, and has the kernel's entries for all other pages.
  pub protect_lem :
      (fuel : ℕ) (s : Machine H)
      → IsKernel (A.used s.pages) s.words k space
      → space % 4 ≡ 0
      → A.used s.pages (space / 4096)
      → (pgalloc pgsize s.pages).0 ≢ 0
      → 256 < fuel
      → (s' : Machine H) × (protect pgalloc fuel (k * 4096) space s
          ≡ some (record { pgsize = 4096; area = uvm_area }, s'))
        × IsNewSpace s s'
  protect_lem fuel s kernel word home room enough =
      let p = (pgalloc pgsize s.pages).0 in
      let page = p / 4096 in
      let whole : page * 4096 ≡ p = omega (arith, A.aligned s.pages) in
      let lp : page < 2 ^ 20 = omega (arith, A.fits s.pages) in
      let fresh : (q : ℕ) → A.used s.pages q → q ≢ page = λ q. A.fresh s.pages q room in
      let k_other = fresh k kernel.in_use in
      let home_other = fresh (space / 4096) home in
      let apart = kernel.elsewhere in
      let w0 = zero_words 1024 (page * 4096) 0 s.words in
      let (v1, first_run, c1) =
        copy_area_lem 256 fuel (page * 4096) (k * 4096) 0 0x4000_0000 w0 (omega arith) (omega arith)
          (omega arith) enough (omega arith) in
      let (v2, next_run, c2) =
        copy_area_lem 12 fuel (page * 4096) (k * 4096) 1012 0 v1 (omega arith) (omega arith)
          (omega arith) (omega arith) (omega arith) in
      let s' : Machine H = record {
        words = write v2 space (page * 4096 + 5);
        pages = (pgalloc pgsize s.pages).1;
      } in
      let g =
        two_copies-Protected s.words v1 v2 k space page c1 c2 (omega arith) (omega arith)
          (omega arith) in
      (
        s',
        protect-run fuel page s v1 v2 whole room first_run next_run,
        record {
          valid =
              Protected-IsValid s.words s'.words k space page g lp kernel fresh (A.kept s.pages)
                word home (A.taken s.pages room);
          user = λ va small low high.
              Protected-user s.words s'.words k space page g lp kernel fresh (A.kept s.pages) va
                (omega arith) (omega arith);
          kernel = λ va small side.
              Protected-kernel s.words s'.words k space page g lp kernel fresh (A.kept s.pages) va
                (omega arith);
        },
      )
