-- ===== src/X86/Vme/Kernel/Identity.antt =====
-- vme_init of am/src/x86/qemu/vme.c: what the loop over an area maps.
use native.Mathlib.Decide.{dec_lt}
use mathlib.Core.Path.{subst}
use Prim.Native.Nat.{bit_or}
use openperf_abstract_machin.Prelude.{
  ℕ, zero, suc, ◌+◌, ◌*◌, ◌/◌, ◌%◌, ◌^◌, ◌≤◌, ◌<◌, ◌≡◌, ◌≢◌, ◌⊎◌, inl, inr, ◌∙◌, refl, ap, arith,
  some, eq_true, eq_false,
}
use openperf_abstract_machin.X86.Vme.{Machine, pgsize, pte_p, pte_w}
use openperf_abstract_machin.X86.Vme.Entries.{entry, IsValid, Allocator}
use openperf_abstract_machin.X86.Vme.Fields.{page_entry}
use openperf_abstract_machin.X86.Vme.Walk.{ptwalk-Walked}
use openperf_abstract_machin.X86.Vme.Set.{with_entry, set-entry, set-entry_other, set-IsValid}
use openperf_abstract_machin.X86.Vme.Kernel.{identity_page, identity_area}

-- How many pages the client's allocator has left at least.
pub record Supply {H : Type 0} (pgalloc : ℕ → H → ℕ × H) (stock : H → ℕ) : Type 0 where
  pub gives : (h : H) → 0 < stock h → (pgalloc pgsize h).0 ≢ 0
  pub takes : (h : H) → stock h ≤ stock (pgalloc pgsize h).1 + 1

module _ {H : Type 0} (pgalloc : ℕ → H → ℕ × H) (A : Allocator pgalloc) (stock : H → ℕ)
    (supply : Supply pgalloc stock) (space : ℕ) where
  -- A machine with the pages from `cur` to below `limit` mapped to themselves, present and writable
  -- and not for user code, and with the entries of `s` for all other pages.
  pub record IsIdentity (cur limit : ℕ) (s s' : Machine H) : Type 0 where
    pub valid : IsValid (A.used s'.pages) s'.words space
    pub inside : (va : ℕ) → va % 4096 ≡ 0 → cur ≤ va → va < limit → entry s'.words space va ≡ va + 3
    pub outside :
        (va : ℕ)
        → va % 4096 ≡ 0
        → va < 2 ^ 32
        → (va < cur) ⊎ (limit ≤ va)
        → entry s'.words space va ≡ entry s.words space va

  identity_value : (cur : ℕ) → cur % 4096 ≡ 0 → bit_or (bit_or cur pte_p) pte_w ≡ cur + 3
  identity_value cur whole =
      let page : cur / 4096 * 4096 ≡ cur = omega arith in
      subst (λ c. bit_or (bit_or c pte_p) pte_w ≡ c + 3) page
        (page_entry (cur / 4096) pte_p pte_w (omega arith) (omega arith))

  identity_page_lem :
      (cur : ℕ) (s : Machine H)
      → cur % 4096 ≡ 0
      → cur < 2 ^ 32
      → IsValid (A.used s.pages) s.words space
      → 0 < stock s.pages
      → (s' : Machine H) × (identity_page pgalloc space cur s ≡ some s')
        × IsIdentity cur (cur + 4096) s s'
        × (stock s.pages ≤ stock s'.pages + 1)
  unfolding identity_page
  identity_page_lem cur s whole bound u room =
      let (s1, walk, d) =
        ptwalk-Walked pgalloc A space cur 2 s u (omega arith) (omega arith) (omega arith)
          (supply.gives s.pages room) in
      let x = cur + 3 in
      (
        record s1 { words = with_entry s1.words space cur x },
        rw (walk, identity_value cur whole) refl,
        record {
          valid = set-IsValid s1.words space cur x d.valid d.table;
          inside = λ va page low high.
              let same : cur ≡ va = omega arith in
              subst (λ k. entry (with_entry s1.words space cur x) space k ≡ k + 3) same
                (set-entry s1.words space cur x d.valid d.table);
          outside = λ va page high side.
              set-entry_other s1.words space cur x d.valid d.table va (λ e. omega arith)
              ∙ d.entries va;
        },
        elim d.pages [
          | inl e ↦ let same = ap stock e in omega arith
          | inr e ↦ let same = ap stock e in let one = supply.takes s.pages in omega arith
        ],
      )

  IsIdentity-join :
      (cur mid limit : ℕ) (s s1 s2 : Machine H)
      → cur ≤ mid
      → mid ≤ limit
      → limit ≤ 2 ^ 32
      → IsIdentity cur mid s s1
      → IsIdentity mid limit s1 s2
      → IsIdentity cur limit s s2
  IsIdentity-join cur mid limit s s1 s2 low high bound a b = record {
    valid = b.valid;
    inside = λ va page from to. elim (dec_lt va mid) [
      | yes first ↦ b.outside va page (omega arith) (inl first) ∙ a.inside va page from first
      | no second ↦ b.inside va page (omega arith) to
    ];
    outside = λ va page bound side.
        b.outside va page bound (omega arith) ∙ a.outside va page bound (omega arith);
  }

  IsIdentity-wrap :
      (k n : ℕ) (s s' : Machine H)
      → k + n * 4096 ≤ 2 ^ 32
      → IsIdentity (k % 2 ^ 32) (k % 2 ^ 32 + n * 4096) s s'
      → IsIdentity k (k + n * 4096) s s'
  IsIdentity-wrap k n s s' bound h = elim (dec_lt k (2 ^ 32)) [
    | yes low ↦
        let same : k % 2 ^ 32 ≡ k = omega arith in
        subst (λ j. IsIdentity j (j + n * 4096) s s') same h
    | no high ↦ record {
      valid = h.valid;
      inside = λ va page from to. absurd (omega arith);
      outside = λ va page b side. h.outside va page b (inr (omega arith));
    }
  ]

  -- In a valid space, with an allocator that hands out fresh pages and has one left for each page
  -- of an area of less than 4 GiB that ends at the latest at the end of the address space, the loop
  -- of vme_init over the area returns, with more fuel than the area has pages: each page of the
  -- area is mapped to itself, present and writable and not for user code, all other pages have
  -- the entries that they had, and the space is valid.
  pub identity_area-IsIdentity :
      (n fuel cur : ℕ) (s : Machine H)
      → cur % 4096 ≡ 0
      → cur < 2 ^ 32
      → n < 2 ^ 20
      → cur + n * 4096 ≤ 2 ^ 32
      → n < fuel
      → n ≤ stock s.pages
      → IsValid (A.used s.pages) s.words space
      → (s' : Machine H) × (identity_area pgalloc fuel space cur ((cur + n * 4096) % 2 ^ 32) s
          ≡ some s')
        × IsIdentity cur (cur + n * 4096) s s'
        × (stock s.pages ≤ stock s'.pages + n)
  unfolding identity_area
  identity_area-IsIdentity n zero cur s whole low few bound enough room u = absurd (omega arith)
  identity_area-IsIdentity zero (suc fuel) cur s whole low few bound enough room u =
      let at : cur ≡ (cur + 0 * 4096) % 2 ^ 32 = omega arith in
      (
        s,
        rw (eq_true at) refl,
        record {
          valid = u;
          inside = λ va page from to. absurd (omega arith);
          outside = λ va page high side. refl;
        },
        omega arith,
      )
  identity_area-IsIdentity (suc n) (suc fuel) cur s whole low few bound enough room u =
      let limit = (cur + suc n * 4096) % 2 ^ 32 in
      let cur' = (cur + 4096) % 2 ^ 32 in
      let more : cur ≢ limit = λ e. omega arith in
      let (s1, first, one, less) = identity_page_lem cur s whole low u (omega arith) in
      let (s2, rest, all, left) =
        identity_area-IsIdentity n fuel cur' s1 (omega arith) (omega arith) (omega arith)
          (omega arith) (omega arith) (omega arith) one.valid in
      let same_limit : (cur' + n * 4096) % 2 ^ 32 ≡ limit = omega arith in
      (
        s2,
        rw (eq_false more, first)
            (subst (λ k. identity_area pgalloc fuel space cur' k s1 ≡ some s2) same_limit rest),
        subst (λ k. IsIdentity cur k s s2) (omega arith)
            (IsIdentity-join cur (cur + 4096) (cur + 4096 + n * 4096) s s1 s2 (omega arith)
              (omega arith) (omega arith) one
              (IsIdentity-wrap (cur + 4096) n s1 s2 (omega arith) all)),
        omega arith,
      )
