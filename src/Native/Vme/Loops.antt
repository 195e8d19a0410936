-- ===== src/Native/Vme/Loops.antt =====
-- The two loops of __am_switch of am/src/native/vme.c.
use native.Mathlib.Decide.{ℕ_discrete}
use openperf_abstract_machin.Prelude.{
  ℕ, zero, suc, ◌+◌, ◌-◌, ◌%◌, ◌^◌, ◌<◌, ◌≡◌, ◌⊎◌, inl, inr, refl, ap, ◌∙◌, arith, Bool, Bool-cases,
  true, false, none, some, List, [], ◌∷◌, length, ◌==◌, if◌then◌else◌, eq_true, eq_false,
}
use openperf_abstract_machin.Klib.Stdlib.{in_range}
use openperf_abstract_machin.Native.Vme.{
  Host, Vme, user_start, user_end, pmem, set_mapped, map_page, unmap_page, unmap_all, map_all,
}
use openperf_abstract_machin.Native.Vme.Lists.{
  HostLaws, Listed, Backed, IsPage, page_rights, backing, mmap_prot-page_rights, AllMapped, seen,
  Held, changed, Held-other, Listed-changed, Backed-changed, seen-changed,
}

offset-IsPage : (pgsize va pa : ℕ) → IsPage pgsize va pa → IsPage pgsize va (pmem + (pa - pmem))
offset-IsPage pgsize va pa page =
    let back : pmem + (pa - pmem) ≡ pa = omega (arith, page) in rw back page

offset-wrapped :
    (pgsize va pa : ℕ) → IsPage pgsize va pa → (pa + 2 ^ 64 - pmem) % 2 ^ 64 ≡ pa - pmem
offset-wrapped pgsize va pa page = omega (arith, page)

module _ {H T A : Type 0} (ops : Host H) (laws : HostLaws ops) where
  -- What the host shows belongs to marked pages of the list.
  abbrev pub Covered : Vme H T A → List ℕ → Type 0
  Covered s l = (a : ℕ) → (laws.shows s.host a ≡ none) ⊎ Held s l a

  -- A round of the first loop.
  pub unmap_page_lem :
      (s : Vme H T A) (q : ℕ) (l : List ℕ)
      → in_range (s.va q) user_start user_end ≡ true
      → s.va q % laws.pgsize ≡ 0
      → Covered s (q ∷ l)
      → (marks : ℕ → Bool) × (h : H) × (unmap_page ops q s ≡ some (changed s marks h))
        × Covered (changed s marks h) l
  unfolding unmap_page
  unmap_page_lem s q l user aligned covered = elim (Bool-cases (s.is_mapped q)) [
    | inl marked ↦
        let (h, run, after) = laws.unmaps (s.va q) s.host user aligned in
        (
          set_mapped q false s.is_mapped,
          h,
          rw (marked, run) refl,
          λ a. elim (ℕ_discrete (s.va q) a) [
            | yes e ↦ inl (after a ∙ rw (eq_true e) refl)
            | no ne ↦ elim (covered a) [
              | inl gone ↦ inl (after a ∙ rw (eq_false ne) gone)
              | inr (inl (m, at)) ↦ absurd (ne at)
              | inr (inr held) ↦ inr (Held-other s q a h l ne held)
            ]
          ],
        )
    | inr unmarked ↦ (
      s.is_mapped,
      s.host,
      rw unmarked refl,
      λ a. elim (covered a) [
        | inl gone ↦ inl gone
        | inr (inl (m, at)) ↦ absurd (ground arith)
        | inr (inr held) ↦ inr held
      ],
    )
  ]

  pub unmap_all_lem :
      (l : List ℕ) (fuel p : ℕ) (s : Vme H T A)
      → Listed s l p
      → Backed laws.pgsize s l
      → Covered s l
      → length l < fuel
      → (marks : ℕ → Bool) × (h : H) × (unmap_all ops fuel p s ≡ some (changed s marks h))
        × ((a : ℕ) → laws.shows h a ≡ none)
  unfolding unmap_all
  unmap_all_lem l zero p s listed backed covered enough = absurd (omega arith)
  unmap_all_lem [] (suc fuel) p s listed backed covered enough = (
    s.is_mapped,
    s.host,
    rw (eq_true listed) refl,
    λ a. elim (covered a) [ inl gone ↦ gone | inr held ↦ absurd held ],
  )
  unmap_all_lem (q ∷ l) (suc fuel) p s (at, some_page, user, rest) (page, backed) covered enough =
      let (marks1, h1, run1, covered1) = unmap_page_lem s q l user page.0 covered in
      let (marks, h, run, gone) =
        unmap_all_lem l fuel (s.next q) (changed s marks1 h1)
          (Listed-changed s marks1 h1 l (s.next q) rest)
          (Backed-changed laws.pgsize s marks1 h1 l backed) covered1 (omega arith) in
      let step : unmap_all ops (suc fuel) p s
          ≡ unmap_all ops fuel (s.next q) (changed s marks1 h1) =
        rw (at, eq_false some_page, run1) refl in
      (marks, h, step ∙ run, gone)

  -- What the second loop leaves behind.
  pub record Mapped (l : List ℕ) (s : Vme H T A) (marks : ℕ → Bool) (h : H) : Type 0 where
    pub shown : (a : ℕ) → laws.shows h a ≡ seen s l a (laws.shows s.host a)
    pub marked : AllMapped (changed s marks h) l
    pub still : (q : ℕ) → s.is_mapped q ≡ true → marks q ≡ true

  pub map_page_lem :
      (s : Vme H T A) (q : ℕ)
      → in_range (s.va q) user_start user_end ≡ true
      → IsPage laws.pgsize (s.va q) (s.pa q)
      → (h : H) × (map_page ops q s ≡ some (changed s (set_mapped q true s.is_mapped) h))
        × ((a : ℕ)
            → laws.shows h a
              ≡ (if s.va q == a then some (backing (s.pa q) (s.prot q)) else laws.shows s.host a))
  unfolding map_page
  map_page_lem s q user page =
      let offset = s.pa q - pmem in
      let (h, run, after) =
        laws.maps (s.va q) offset (page_rights (s.prot q)) s.host user
          (offset-IsPage laws.pgsize (s.va q) (s.pa q) page) in
      (
        h,
        rw
            (
              offset-wrapped laws.pgsize (s.va q) (s.pa q) page,
              mmap_prot-page_rights (s.prot q),
              run,
            )
            refl,
        after,
      )

  pub map_all_lem :
      (l : List ℕ) (fuel p : ℕ) (s : Vme H T A)
      → Listed s l p
      → Backed laws.pgsize s l
      → length l < fuel
      → (marks : ℕ → Bool) × (h : H) × (map_all ops fuel p s ≡ some (changed s marks h))
        × Mapped l s marks h
  unfolding map_all
  map_all_lem l zero p s listed backed enough = absurd (omega arith)
  map_all_lem [] (suc fuel) p s listed backed enough = (
    s.is_mapped,
    s.host,
    rw (eq_true listed) refl,
    record { shown = λ a. refl; marked = tt; still = λ q m. m },
  )
  map_all_lem (q ∷ l) (suc fuel) p s (at, some_page, user, rest) (page, backed) enough =
      let (h1, run1, after) = map_page_lem s q user page in
      let marks1 = set_mapped q true s.is_mapped in
      let (marks, h, run, m) =
        map_all_lem l fuel (s.next q) (changed s marks1 h1)
          (Listed-changed s marks1 h1 l (s.next q) rest)
          (Backed-changed laws.pgsize s marks1 h1 l backed) (omega arith) in
      let step : map_all ops (suc fuel) p s ≡ map_all ops fuel (s.next q) (changed s marks1 h1) =
        rw (at, eq_false some_page, user, run1) refl in
      (
        marks,
        h,
        step ∙ run,
        record {
          shown = λ a.
              m.shown a
              ∙ seen-changed s marks1 h1 l a (laws.shows h1 a)
              ∙ ap (seen s l a) (after a);
          marked = (m.still q (rw (eq_true {a = q} refl) refl), m.marked);
          still = λ r marked. m.still r (ground arith);
        },
      )
