-- ===== src/Riscv/Vme/Switch.antt =====
-- am/src/riscv/nemu/vme.c: which directory the machine uses, and what is in it.
use Prim.Native.Nat.{bit_or}
use openperf_abstract_machin.Prelude.{
  ℕ, ◌+◌, ◌/◌, ◌%◌, ◌^◌, ◌≤◌, ◌<◌, ◌≡◌, ◌≢◌, ◌⊎◌, inl, inr, refl, ap, ◌∙◌, arith, true, Memory,
  Disjoint, leb, lt→ltb, ◌-◌, eq_false,
}
use openperf_abstract_machin.Prelude.Bits.{bit_or_fields}
use openperf_abstract_machin.Klib.Mem.{memcpy}
use openperf_abstract_machin.Klib.Mem.Copy.{moved, memcpy-moved}
use openperf_abstract_machin.Riscv.Vme.{
  VmeState, NewSpace, set_satp, get_satp, get_cur_as, nemu_switch, nemu_vme_init, nemu_protect,
}

-- A page that pgalloc hands out.
pub record IsPage (p : ℕ) : Type 0 where
  pub some_page : p ≢ 0
  pub fits : p < 2 ^ 32
  pub aligned : p % 4096 ≡ 0

leb-true : (a b : ℕ) → a ≤ b → leb a b ≡ true
leb-true a b h = ground arith

page_end : (p : ℕ) → IsPage p → p + 4096 ≤ 2 ^ 32
page_end p page = omega (arith, page.fits, page.aligned)

pages-Disjoint : (p q : ℕ) → p % 4096 ≡ 0 → q % 4096 ≡ 0 → p ≢ q → Disjoint p 4096 q 4096
pages-Disjoint p q hp hq ne = omega arith

moved-inside : (d s i : ℕ) (m : Memory) → i < 4096 → moved d s 4096 m (d + i) ≡ m (s + i)
moved-inside d s i m low =
    let offset : s + (d + i - d) ≡ s + i = omega arith in
    rw (leb-true d (d + i) (omega arith), lt→ltb (d + i) (d + 4096) (omega arith), offset) refl

moved-outside : (d s a : ℕ) (m : Memory) → (a < d) ⊎ (d + 4096 ≤ a) → moved d s 4096 m a ≡ m a
moved-outside d s a m (inl below) = ground arith
moved-outside d s a m (inr above) = ground arith

module _ {H : Type 0} where
  satp_lem :
      (pdir : ℕ) (s : VmeState H)
      → pdir < 2 ^ 32
      → pdir % 4096 ≡ 0
      → get_satp (set_satp pdir s) ≡ pdir
  unfolding get_satp set_satp
  satp_lem pdir s bound page =
      let field : bit_or (2 ^ 31) (pdir / 2 ^ 12) ≡ 2 ^ 31 + pdir / 2 ^ 12 =
        bit_or_fields 31 1 (pdir / 2 ^ 12) (omega arith) in
      rw field (omega arith)

  nemu_switch-get_cur_as :
      (pdir : ℕ) (s : VmeState H)
      → s.vme_enable ≡ true
      → pdir ≢ 0
      → pdir < 2 ^ 32
      → pdir % 4096 ≡ 0
      → get_cur_as (nemu_switch pdir s) ≡ pdir
  unfolding get_cur_as nemu_switch set_satp get_satp
  nemu_switch-get_cur_as pdir s enabled ne bound page =
      rw (enabled, eq_false ne) (satp_lem pdir s bound page)

  nemu_switch-vme_enable :
      (pdir : ℕ) (s : VmeState H) → s.vme_enable ≡ true → (nemu_switch pdir s).vme_enable ≡ true
  unfolding nemu_switch set_satp
  nemu_switch-vme_enable pdir s enabled = ground arith

  module _ (pgalloc : ℕ → H → ℕ × H) where
    -- If pgalloc hands out two different pages, then after vme_init the machine uses the directory
    -- of the kernel; protect gives an address space whose directory holds the bytes of the
    -- kernel's, and changes no other byte; a trap after a switch to that space saves its
    -- directory, and a switch back to the context of a trap before it goes back to the kernel's.
    pub nemu_protect-nemu_switch :
        (s : VmeState H) (kas p i : ℕ) (h1 h2 : H)
        → pgalloc 4096 s.pages ≡ (kas, h1)
        → pgalloc 4096 h1 ≡ (p, h2)
        → IsPage kas
        → IsPage p
        → p ≢ kas
        → i < 4096
        → (s1 s2 s3 : VmeState H) × (new : NewSpace) × (nemu_vme_init pgalloc s ≡ s1)
          × (get_cur_as s1 ≡ kas)
          × (nemu_protect pgalloc s1 ≡ (new, s2))
          × (s2.memory (new.ptr + i) ≡ s.memory (kas + i))
          × ((a : ℕ) → (a < new.ptr) ⊎ (new.ptr + 4096 ≤ a) → s2.memory a ≡ s.memory a)
          × (nemu_switch new.ptr s2 ≡ s3)
          × (get_cur_as s3 ≡ p)
          × (get_cur_as (nemu_switch (get_cur_as s1) s3) ≡ kas)
    unfolding nemu_vme_init nemu_protect get_cur_as get_satp set_satp
    nemu_protect-nemu_switch s kas p i h1 h2 first second kas_page p_page ne low =
        let s1 : VmeState H = record (set_satp kas (record s { kas_ptr = kas; pages = h1 })) {
          vme_enable = true;
        } in
        let m = memcpy p kas 4096 s.memory in
        let s2 : VmeState H = record s1 { memory = m; pages = h2 } in
        let apart : Disjoint p 4096 kas 4096 =
          pages-Disjoint p kas p_page.aligned kas_page.aligned ne in
        let fits : p + 4096 ≤ 2 ^ 32 = page_end p p_page in
        let fits_kas : kas + 4096 ≤ 2 ^ 32 = page_end kas kas_page in
        let at_kas : get_cur_as s1 ≡ kas =
          satp_lem kas (record s { kas_ptr = kas; pages = h1 }) kas_page.fits kas_page.aligned in
        (
          s1,
          s2,
          nemu_switch p s2,
          record { ptr = p; pgsize = 4096; area_start = 0x4000_0000; area_end = 0x8000_0000 },
          rw first refl,
          at_kas,
          rw second refl,
          memcpy-moved p kas 4096 s.memory (p + i) fits fits_kas apart
              ∙ moved-inside p kas i s.memory low,
          (λ a out.
              memcpy-moved p kas 4096 s.memory a fits fits_kas apart
              ∙ moved-outside p kas a s.memory out),
          refl,
          nemu_switch-get_cur_as p s2 refl p_page.some_page p_page.fits p_page.aligned,
          ap (λ k. get_cur_as (nemu_switch k (nemu_switch p s2))) at_kas
              ∙ nemu_switch-get_cur_as kas (nemu_switch p s2) (nemu_switch-vme_enable p s2 refl)
                  kas_page.some_page kas_page.fits kas_page.aligned,
        )
