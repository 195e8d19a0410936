-- ===== src/Native/Vme/Cycle.antt =====
-- map of am/src/native/vme.c for an address that is mapped already.
use openperf_abstract_machin.Prelude.{
  ℕ, ◌%◌, ◌^◌, ◌≡◌, ◌≢◌, refl, ap, sym, ◌∙◌, true, some, List, [], ◌∷◌, eq_false,
}
use openperf_abstract_machin.Klib.Stdlib.{in_range}
use openperf_abstract_machin.Native.Vme.{
  Host, Search, Vme, user_start, user_end, find_page, link, map,
}
use openperf_abstract_machin.Native.Vme.Lists.{Listed, first_node}
use openperf_abstract_machin.Native.Vme.Nodes.{link_fields}

module _ {H T A : Type 0} where
  cycle_endless :
      (s : Vme H T A) (pp p : ℕ) (l : List ℕ) → pp ≢ 0 → s.next pp ≡ pp → p ≡ pp → ¬ Listed s l p
  cycle_endless s pp p [] some_page cyclic at listed = some_page (sym at ∙ listed)
  cycle_endless s pp p (q ∷ l) some_page cyclic at (here, ne, user, rest) =
      cycle_endless s pp (s.next q) l some_page cyclic (ap s.next (sym here ∙ at) ∙ cyclic) rest

module _ {H T A : Type 0} (ops : Host H) (search : Search T) (pgsize : ℕ)
    (pgalloc : ℕ → A → ℕ × A) where
  find_page-again :
      (s : Vme H T A) (vm_head va pp : ℕ)
      → search.find (va % 2 ^ 32) (s.hash vm_head) ≡ some pp
      → find_page ops search pgsize pgalloc vm_head va s ≡ some (pp, s)
  unfolding find_page
  find_page-again s vm_head va pp found = rw (found, find_page) refl

  -- For an aligned user page whose node is the first of a space other than the current one, map
  -- with an aligned physical page succeeds, and then no list of nodes, however long, is that of
  -- the space.
  pub map-again_endless :
      (s : Vme H T A) (vm_head va pa prot pp : ℕ)
      → in_range va user_start user_end ≡ true
      → va % pgsize ≡ 0
      → pa % pgsize ≡ 0
      → vm_head ≢ 0
      → vm_head ≢ s.vm_head
      → search.find (va % 2 ^ 32) (s.hash vm_head) ≡ some pp
      → s.head vm_head ≡ pp
      → pp ≢ 0
      → (s' : Vme H T A) × (map ops search pgsize pgalloc vm_head va pa prot s ≡ some s')
        × ((l : List ℕ) → ¬ Listed s' l (first_node s' vm_head))
  unfolding map
  map-again_endless s vm_head va pa prot pp user va_aligned pa_aligned space elsewhere found first
        some_page =
      let f = link_fields s vm_head pp va pa prot in
      let s' = link vm_head pp va pa prot s in
      let other : vm_head ≢ s'.vm_head = λ e. elsewhere (e ∙ f.same_space) in
      let start : first_node s' vm_head ≡ pp = rw (eq_false space) f.first in
      let run : map ops search pgsize pgalloc vm_head va pa prot s ≡ some s' =
        rw
          (
            find_page-again s vm_head va pp found,
            user,
            va_aligned,
            pa_aligned,
            eq_false space,
            eq_false other,
          )
          refl in
      (
        s',
        run,
        λ l. cycle_endless s' pp (first_node s' vm_head) l some_page (f.its_next ∙ first) start,
      )
