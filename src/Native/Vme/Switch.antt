-- ===== src/Native/Vme/Switch.antt =====
-- __am_switch of am/src/native/vme.c shows the pages of the new address space, and no others.
use mathlib.Core.Path.{subst}
use native.Mathlib.Decide.{ℕ_discrete}
use openperf_abstract_machin.Prelude.{
  ℕ, ◌<◌, ◌≡◌, ◌≢◌, inl, inr, refl, ap, sym, ◌∙◌, Bool, true, none, some, List, [], length, ◌==◌,
  if◌then◌else◌, eq_true, eq_false,
}
use openperf_abstract_machin.Native.Vme.{Host, Vme, unmap_all, map_all, am_switch}
use openperf_abstract_machin.Native.Vme.Lists.{
  HostLaws, Listed, Backed, AllMapped, seen, changed, Listed-changed, Backed-changed, seen-changed,
  Listed-unique, seen-Held, first_node, Listed-entered, Backed-entered, AllMapped-entered,
  seen-entered,
}
use openperf_abstract_machin.Native.Vme.Loops.{Covered, unmap_all_lem, Mapped, map_all_lem}

module _ {H T A : Type 0} (ops : Host H) (laws : HostLaws ops) where
  -- The list of the current space has the given nodes, for pages that the host can show, all of
  -- them are marked, and the host shows
  -- what they say, and nothing else.
  pub record Shows (s : Vme H T A) (l : List ℕ) : Type 0 where
    pub listed : Listed s l (first_node s s.vm_head)
    pub backed : Backed laws.pgsize s l
    pub marked : AllMapped s l
    pub shown : (a : ℕ) → laws.shows s.host a ≡ seen s l a none

  Shows-Covered : (s : Vme H T A) (l : List ℕ) → Shows s l → Covered ops laws s l
  Shows-Covered s l shows a = elim (seen-Held s l a none shows.marked) [
    | inl gone ↦ inl (shows.shown a ∙ gone)
    | inr held ↦ inr held
  ]

  leave_lem :
      (fuel : ℕ) (s : Vme H T A) (l : List ℕ)
      → Shows s l
      → length l < fuel
      → (marks : ℕ → Bool) × (h : H) × ((if s.vm_head == 0
            then some s
            else unmap_all ops fuel (s.head s.vm_head) s)
          ≡ some (changed s marks h))
        × ((a : ℕ) → laws.shows h a ≡ none)
  leave_lem fuel s l shows enough = elim (ℕ_discrete s.vm_head 0) [
    | yes e ↦
        let start : first_node s s.vm_head ≡ 0 = rw (eq_true e) refl in
        let empty : l ≡ [] = Listed-unique s l [] 0 (subst (Listed s l) start shows.listed) refl in
        (
          s.is_mapped,
          s.host,
          rw (eq_true e) refl,
          λ a. shows.shown a ∙ ap (λ k. seen s k a none) empty,
        )
    | no ne ↦
        let start : first_node s s.vm_head ≡ s.head s.vm_head = rw (eq_false ne) refl in
        let (marks, h, run, gone) =
          unmap_all_lem ops laws l fuel (s.head s.vm_head) s (subst (Listed s l) start shows.listed)
            shows.backed (Shows-Covered s l shows) enough in
        (marks, h, rw (eq_false ne) run, gone)
  ]

  enter_lem :
      (fuel head : ℕ) (s : Vme H T A) (l : List ℕ)
      → Listed s l (first_node s head)
      → Backed laws.pgsize s l
      → length l < fuel
      → (marks : ℕ → Bool) × (h : H) × ((if head == 0
            then some s
            else map_all ops fuel (s.head head) s)
          ≡ some (changed s marks h))
        × Mapped ops laws l s marks h
  enter_lem fuel head s l listed backed enough = elim (ℕ_discrete head 0) [
    | yes e ↦
        let start : first_node s head ≡ 0 = rw (eq_true e) refl in
        let empty : l ≡ [] = Listed-unique s l [] 0 (subst (Listed s l) start listed) refl in
        (
          s.is_mapped,
          s.host,
          rw (eq_true e) refl,
          subst (λ k. Mapped ops laws k s s.is_mapped s.host) (sym empty)
              (record { shown = λ a. refl; marked = tt; still = λ q m. m }),
        )
    | no ne ↦
        let start : first_node s head ≡ s.head head = rw (eq_false ne) refl in
        let (marks, h, run, m) =
          map_all_lem ops laws l fuel (s.head head) s (subst (Listed s l) start listed) backed
            enough in
        (marks, h, rw (eq_false ne) run, m)
  ]

  am_switch-run :
      (fuel head : ℕ) (s s1 s2 : Vme H T A)
      → s.vme_enable ≡ true
      → head ≢ s.vm_head
      → (if s.vm_head == 0 then some s else unmap_all ops fuel (s.head s.vm_head) s) ≡ some s1
      → (if head == 0 then some s1 else map_all ops fuel (s1.head head) s1) ≡ some s2
      → am_switch ops fuel head s ≡ some (record s2 { vm_head = head })
  unfolding am_switch
  am_switch-run fuel head s s1 s2 enabled differ leave enter =
      rw (leave, enter, eq_false differ, enabled) refl

  am_switch-same :
      (fuel head : ℕ) (s : Vme H T A)
      → s.vme_enable ≡ true
      → head ≡ s.vm_head
      → am_switch ops fuel head s ≡ some s
  unfolding am_switch
  am_switch-same fuel head s enabled same = rw (enabled, eq_true same) refl

  -- The theorem below, with the flag that switching leaves alone.
  pub am_switch-entered :
      (fuel head : ℕ) (s : Vme H T A) (l l' : List ℕ)
      → s.vme_enable ≡ true
      → Shows s l
      → Listed s l' (first_node s head)
      → Backed laws.pgsize s l'
      → length l < fuel
      → length l' < fuel
      → (s' : Vme H T A) × (am_switch ops fuel head s ≡ some s')
        × (s'.vm_head ≡ head)
        × (s'.vme_enable ≡ s.vme_enable)
        × Shows s' l'
  am_switch-entered fuel head s l l' enabled shows listed backed enough enough' =
      elim (ℕ_discrete head s.vm_head) [
        | yes e ↦
            let lists : l ≡ l' =
              Listed-unique s l l' (first_node s s.vm_head) shows.listed
                (subst (λ r. Listed s l' (first_node s r)) e listed) in
            (s, am_switch-same fuel head s enabled e, sym e, refl, subst (Shows s) lists shows)
        | no ne ↦
            let (marks1, h1, leave, gone) = leave_lem fuel s l shows enough in
            let s1 = changed s marks1 h1 in
            let (marks2, h2, enter, m) =
              enter_lem fuel head s1 l' (Listed-changed s marks1 h1 l' (first_node s head) listed)
                (Backed-changed laws.pgsize s marks1 h1 l' backed) enough' in
            let s2 = changed s1 marks2 h2 in
            let s' = record s2 { vm_head = head } in
            (
              s',
              am_switch-run fuel head s s1 s2 enabled ne leave enter,
              refl,
              refl,
              record {
                listed = Listed-entered s2 head l' (first_node s head) (
                    Listed-changed s1 marks2 h2 l' (first_node s head)
                      (Listed-changed s marks1 h1 l' (first_node s head) listed));
                backed = Backed-entered laws.pgsize s2 head l' (
                    Backed-changed laws.pgsize s1 marks2 h2 l'
                      (Backed-changed laws.pgsize s marks1 h1 l' backed));
                marked = AllMapped-entered s2 head l' m.marked;
                shown = λ a.
                    m.shown a
                    ∙ ap (seen s1 l' a) (gone a)
                    ∙ sym (seen-changed s1 marks2 h2 l' a none)
                    ∙ sym (seen-entered s2 head l' a none);
              },
            )
      ]

  -- With the page maps enabled, on a host whose calls on aligned user pages with an offset in the
  -- physical memory succeed: if the host shows what the list of the current space says and nothing
  -- else, and the new space has a list of aligned user pages in the physical memory, or is none,
  -- then __am_switch returns, with more fuel than either list is long, and the host shows the
  -- physical page and the rights that the list of the new space says, the last node of an address
  -- counting, and nothing else; all nodes of that list are marked as mapped.
  pub am_switch-Shows :
      (fuel head : ℕ) (s : Vme H T A) (l l' : List ℕ)
      → s.vme_enable ≡ true
      → Shows s l
      → Listed s l' (first_node s head)
      → Backed laws.pgsize s l'
      → length l < fuel
      → length l' < fuel
      → (s' : Vme H T A) × (am_switch ops fuel head s ≡ some s') × (s'.vm_head ≡ head) × Shows s' l'
  am_switch-Shows fuel head s l l' enabled shows listed backed enough enough' =
      let (s', run, at, same, shown) =
        am_switch-entered fuel head s l l' enabled shows listed backed enough enough' in
      (s', run, at, shown)
