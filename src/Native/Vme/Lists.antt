-- ===== src/Native/Vme/Lists.antt =====
-- The lists of page maps of am/src/native/vme.c, and what they say of an address.
use mathlib.Core.Path.{subst, ap₂}
use native.Mathlib.Decide.{ℕ_discrete}
use openperf_abstract_machin.Prelude.{
  ℕ, ◌+◌, ◌-◌, ◌*◌, ◌/◌, ◌%◌, ◌≤◌, ◌≡◌, ◌≢◌, ◌⊎◌, inl, inr, refl, ap, sym, ◌∙◌, arith, Bool, true,
  false, Option, none, some, List, [], ◌∷◌, ◌==◌, if◌then◌else◌, eq_false,
}
use openperf_abstract_machin.Prelude.Bits.{bit_and_field}
use openperf_abstract_machin.Klib.Stdlib.{in_range}
use openperf_abstract_machin.Native.Vme.{
  Host, Vme, user_start, user_end, pmem, pmem_size, mmap_prot, set_mapped,
}

-- PROT_READ = 1 and PROT_EXEC = 4 for a page that is readable, and PROT_WRITE = 2 for a writable one.
abbrev pub page_rights : ℕ → ℕ
page_rights prot = 5 * (prot % 2) + 2 * (prot / 2 % 2)

pub mmap_prot-page_rights : (prot : ℕ) → mmap_prot prot ≡ page_rights prot
unfolding mmap_prot
mmap_prot-page_rights prot = ground (arith, bit_and_field 0 1 prot, bit_and_field 1 1 prot)

-- What the host has for a page: the offset in the file that is the physical memory, and the rights.
abbrev pub backing : ℕ → ℕ → ℕ × ℕ
backing pa prot = (pa - pmem, page_rights prot)

-- The page is aligned, and so is its physical page, which lies in the physical memory.
abbrev pub IsPage : ℕ → ℕ → ℕ → Type 0
IsPage pgsize va pa =
    (va % pgsize ≡ 0) × (pa % pgsize ≡ 0) × (pmem ≤ pa) × (pa + pgsize ≤ pmem + pmem_size)

-- What the host has for a page, and that its calls on user pages succeed and change that page, as
-- long as it has the resources. The addresses have to be aligned and the offset to lie in the file;
-- `pgsize` and the address of the physical memory are multiples of the size of the host's pages.
pub record HostLaws {H : Type 0} (ops : Host H) : Type 0 where
  pub pgsize : ℕ
  pub shows : H → ℕ → Option (ℕ × ℕ)
  pub maps :
      (va offset prot : ℕ) (h : H)
      → in_range va user_start user_end ≡ true
      → IsPage pgsize va (pmem + offset)
      → (h' : H) × (ops.mmap va offset prot h ≡ some h')
        × ((a : ℕ) → shows h' a ≡ (if va == a then some (offset, prot) else shows h a))
  pub unmaps :
      (va : ℕ) (h : H)
      → in_range va user_start user_end ≡ true
      → va % pgsize ≡ 0
      → (h' : H) × (ops.munmap va h ≡ some h')
        × ((a : ℕ) → shows h' a ≡ (if va == a then none else shows h a))

module _ {H T A : Type 0} where
  -- The nodes of a list in order, all of them user pages.
  abbrev pub Listed : Vme H T A → List ℕ → ℕ → Type 0
  Listed s [] p = p ≡ 0
  Listed s (q ∷ l) p =
      (p ≡ q) × (q ≢ 0) × (in_range (s.va q) user_start user_end ≡ true) × Listed s l (s.next q)

  -- The pages of a list can be asked of the host.
  abbrev pub Backed : ℕ → Vme H T A → List ℕ → Type 0
  Backed pgsize s [] = Unit
  Backed pgsize s (q ∷ l) = IsPage pgsize (s.va q) (s.pa q) × Backed pgsize s l

  abbrev pub AllMapped : Vme H T A → List ℕ → Type 0
  AllMapped s [] = Unit
  AllMapped s (q ∷ l) = (s.is_mapped q ≡ true) × AllMapped s l

  -- What the pages of a list make of an address: the last one counts.
  abbrev pub seen : Vme H T A → List ℕ → ℕ → Option (ℕ × ℕ) → Option (ℕ × ℕ)
  seen s [] a other = other
  seen s (q ∷ l) a other =
      seen s l a (if s.va q == a then some (backing (s.pa q) (s.prot q)) else other)

  -- A page of the list that is marked as mapped has the address.
  abbrev pub Held : Vme H T A → List ℕ → ℕ → Type 0
  Held s [] a = ⊥
  Held s (q ∷ l) a = ((s.is_mapped q ≡ true) × (s.va q ≡ a)) ⊎ Held s l a

  -- The state but for the host and the marks.
  abbrev pub changed : Vme H T A → (ℕ → Bool) → H → Vme H T A
  changed s marks h = record s { is_mapped = marks; host = h }

  pub Held-other :
      (s : Vme H T A) (q a : ℕ) (h : H) (l : List ℕ)
      → s.va q ≢ a
      → Held s l a
      → Held (changed s (set_mapped q false s.is_mapped) h) l a
  Held-other s q a h [] ne held = held
  Held-other s q a h (r ∷ l) ne (inl (marked, at)) =
      let other : r ≢ q = λ e. ne (ap s.va (sym e) ∙ at) in inl (rw (eq_false other) marked, at)
  Held-other s q a h (r ∷ l) ne (inr held) = inr (Held-other s q a h l ne held)

  pub Listed-changed :
      (s : Vme H T A) (marks : ℕ → Bool) (h : H) (l : List ℕ) (p : ℕ)
      → Listed s l p
      → Listed (changed s marks h) l p
  Listed-changed s marks h [] p listed = listed
  Listed-changed s marks h (q ∷ l) p (at, some_page, user, rest) =
      (at, some_page, user, Listed-changed s marks h l (s.next q) rest)

  pub Backed-changed :
      (pgsize : ℕ) (s : Vme H T A) (marks : ℕ → Bool) (h : H) (l : List ℕ)
      → Backed pgsize s l
      → Backed pgsize (changed s marks h) l
  Backed-changed pgsize s marks h [] backed = tt
  Backed-changed pgsize s marks h (q ∷ l) (page, backed) =
      (page, Backed-changed pgsize s marks h l backed)

  pub seen-changed :
      (s : Vme H T A) (marks : ℕ → Bool) (h : H) (l : List ℕ) (a : ℕ) (other : Option (ℕ × ℕ))
      → seen (changed s marks h) l a other ≡ seen s l a other
  seen-changed s marks h [] a other = refl
  seen-changed s marks h (q ∷ l) a other = seen-changed s marks h l a _

  pub Listed-unique :
      (s : Vme H T A) (l l' : List ℕ) (p : ℕ) → Listed s l p → Listed s l' p → l ≡ l'
  Listed-unique s [] [] p a b = refl
  Listed-unique s [] (q ∷ l') p a (at, some_page, user, rest) = absurd (omega arith)
  Listed-unique s (q ∷ l) [] p (at, some_page, user, rest) b = absurd (omega arith)
  Listed-unique s (q ∷ l) (q' ∷ l') p (at, some_page, user, rest) (at', some_page', user', rest') =
      let same : q ≡ q' = omega arith in
      ap₂ (λ r k. r ∷ k) same
        (Listed-unique s l l' (s.next q) rest
          (subst (λ r. Listed s l' (s.next r)) (sym same) rest'))

  pub seen-Held :
      (s : Vme H T A) (l : List ℕ) (a : ℕ) (other : Option (ℕ × ℕ))
      → AllMapped s l
      → (seen s l a other ≡ other) ⊎ Held s l a
  seen-Held s [] a other marked = inl refl
  seen-Held s (q ∷ l) a other (here, marked) = elim (ℕ_discrete (s.va q) a) [
    | yes e ↦ inr (inl (here, e))
    | no ne ↦ elim (seen-Held s l a other marked) [
      | inl same ↦ inl (rw (eq_false ne) same)
      | inr held ↦ inr (inr held)
    ]
  ]

  -- The first node of a space's list; NULL stands for no space.
  abbrev pub first_node : Vme H T A → ℕ → ℕ
  first_node s vm_head = if vm_head == 0 then 0 else s.head vm_head

  -- The current space does not matter to what the lists are.
  abbrev pub entered : Vme H T A → ℕ → Vme H T A
  entered s head = record s { vm_head = head }

  pub Listed-entered :
      (s : Vme H T A) (head : ℕ) (l : List ℕ) (p : ℕ) → Listed s l p → Listed (entered s head) l p
  Listed-entered s head [] p listed = listed
  Listed-entered s head (q ∷ l) p (at, some_page, user, rest) =
      (at, some_page, user, Listed-entered s head l (s.next q) rest)

  pub Backed-entered :
      (pgsize : ℕ) (s : Vme H T A) (head : ℕ) (l : List ℕ)
      → Backed pgsize s l
      → Backed pgsize (entered s head) l
  Backed-entered pgsize s head [] backed = tt
  Backed-entered pgsize s head (q ∷ l) (page, backed) =
      (page, Backed-entered pgsize s head l backed)

  pub AllMapped-entered :
      (s : Vme H T A) (head : ℕ) (l : List ℕ) → AllMapped s l → AllMapped (entered s head) l
  AllMapped-entered s head [] marked = marked
  AllMapped-entered s head (q ∷ l) (here, marked) = (here, AllMapped-entered s head l marked)

  pub seen-entered :
      (s : Vme H T A) (head : ℕ) (l : List ℕ) (a : ℕ) (other : Option (ℕ × ℕ))
      → seen (entered s head) l a other ≡ seen s l a other
  seen-entered s head [] a other = refl
  seen-entered s head (q ∷ l) a other = seen-entered s head l a _
