-- ===== src/Native/Vme/Nodes.antt =====
-- What link, a part of map of am/src/native/vme.c, changes and keeps.
use openperf_abstract_machin.Prelude.{
  ℕ, ◌≡◌, ◌≢◌, refl, sym, ◌∙◌, true, Option, List, [], ◌∷◌, eq_true, eq_false,
}
use openperf_abstract_machin.Native.Vme.{Vme, set_mapped, link}
use openperf_abstract_machin.Native.Vme.Lists.{Listed, Backed, AllMapped, seen, changed}

-- A node that is not on a list.
abbrev pub NotIn : ℕ → List ℕ → Type 0
NotIn q [] = Unit
NotIn q (r ∷ l) = (r ≢ q) × NotIn q l

module _ {H T A : Type 0} where
  -- No page of the list has the address.
  abbrev pub Unused : Vme H T A → ℕ → List ℕ → Type 0
  Unused s va [] = Unit
  Unused s va (q ∷ l) = (s.va q ≢ va) × Unused s va l

  -- The nodes of a list are the same in two states.
  abbrev pub Same : Vme H T A → Vme H T A → List ℕ → Type 0
  Same s t [] = Unit
  Same s t (q ∷ l) =
      ((t.va q ≡ s.va q)
        × (t.pa q ≡ s.pa q)
        × (t.prot q ≡ s.prot q)
        × (t.next q ≡ s.next q)
        × (t.is_mapped q ≡ s.is_mapped q))
      × Same s t l

  pub Listed-Same :
      (s t : Vme H T A) (l : List ℕ) (p : ℕ) → Same s t l → Listed s l p → Listed t l p
  Listed-Same s t [] p same listed = listed
  Listed-Same s t (q ∷ l) p ((va, pa, prot, next, marks), same) (at, some_page, user, rest) =
      (at, some_page, rw va user, rw next (Listed-Same s t l (s.next q) same rest))

  pub Backed-Same :
      (pgsize : ℕ) (s t : Vme H T A) (l : List ℕ)
      → Same s t l
      → Backed pgsize s l
      → Backed pgsize t l
  Backed-Same pgsize s t [] same backed = tt
  Backed-Same pgsize s t (q ∷ l) ((va, pa, prot, next, marks), same) (page, backed) =
      (rw (va, pa) page, Backed-Same pgsize s t l same backed)

  pub AllMapped-Same : (s t : Vme H T A) (l : List ℕ) → Same s t l → AllMapped s l → AllMapped t l
  AllMapped-Same s t [] same marked = marked
  AllMapped-Same s t (q ∷ l) ((va, pa, prot, next, marks), same) (here, marked) =
      (marks ∙ here, AllMapped-Same s t l same marked)

  pub seen-Same :
      (s t : Vme H T A) (l : List ℕ) (a : ℕ) (other : Option (ℕ × ℕ))
      → Same s t l
      → seen t l a other ≡ seen s l a other
  seen-Same s t [] a other same = refl
  seen-Same s t (q ∷ l) a other ((va, pa, prot, next, marks), same) =
      rw (va, pa, prot) (seen-Same s t l a _ same)

  pub seen-Unused :
      (s : Vme H T A) (l : List ℕ) (va : ℕ) (other : Option (ℕ × ℕ))
      → Unused s va l
      → seen s l va other ≡ other
  seen-Unused s [] va other unused = refl
  seen-Unused s (q ∷ l) va other (ne, unused) = rw (eq_false ne) (seen-Unused s l va other unused)

  pub Same-link :
      (s : Vme H T A) (vm_head pp va pa prot : ℕ) (hash : ℕ → T) (nr_page : ℕ → ℕ) (free_pages : A)
      (l : List ℕ)
      → NotIn pp l
      → Same s
          (link vm_head pp va pa prot
            (record s { hash = hash; nr_page = nr_page; free_pages = free_pages }))
          l
  unfolding link
  Same-link s vm_head pp va pa prot hash nr_page free_pages [] away = tt
  Same-link s vm_head pp va pa prot hash nr_page free_pages (q ∷ l) (ne, away) =
      let other : pp ≢ q = λ e. ne (sym e) in
      (
        (
          rw (eq_false other) refl,
          rw (eq_false other) refl,
          rw (eq_false other) refl,
          rw (eq_false other) refl,
          rw (eq_false ne) refl,
        ),
        Same-link s vm_head pp va pa prot hash nr_page free_pages l away,
      )

  pub record LinkFields (s s' : Vme H T A) (vm_head pp va pa prot : ℕ) : Type 0 where
    pub its_va : s'.va pp ≡ va
    pub its_pa : s'.pa pp ≡ pa
    pub its_prot : s'.prot pp ≡ prot
    pub its_next : s'.next pp ≡ s.head vm_head
    pub first : s'.head vm_head ≡ pp
    pub other_first : (h : ℕ) → vm_head ≢ h → s'.head h ≡ s.head h
    pub same_space : s'.vm_head ≡ s.vm_head
    pub same_host : s'.host ≡ s.host

  pub link_fields :
      (s : Vme H T A) (vm_head pp va pa prot : ℕ)
      → LinkFields s (link vm_head pp va pa prot s) vm_head pp va pa prot
  unfolding link
  link_fields s vm_head pp va pa prot = record {
    its_va = rw (eq_true {a = pp} refl) refl;
    its_pa = rw (eq_true {a = pp} refl) refl;
    its_prot = rw (eq_true {a = pp} refl) refl;
    its_next = rw (eq_true {a = pp} refl) refl;
    first = rw (eq_true {a = vm_head} refl) refl;
    other_first = λ h ne. rw (eq_false ne) refl;
    same_space = refl;
    same_host = refl;
  }

  pub AllMapped-other :
      (s : Vme H T A) (q : ℕ) (h : H) (l : List ℕ)
      → NotIn q l
      → AllMapped s l
      → AllMapped (changed s (set_mapped q true s.is_mapped) h) l
  AllMapped-other s q h [] away marked = marked
  AllMapped-other s q h (r ∷ l) (ne, away) (here, marked) =
      (rw (eq_false ne) here, AllMapped-other s q h l away marked)
