-- ===== src/Native/Vme/Tests.antt =====
-- Two address spaces, one of them with a page.
use openperf_abstract_machin.Prelude.{
  ℕ, ◌+◌, ◌*◌, ◌≡◌, refl, arith, true, false, Option, none, some, List, [], ◌∷◌, ◌==◌,
  if◌then◌else◌,
}
use openperf_abstract_machin.Native.Vme.{Host, Search, Vme, am_switch, map}
use openperf_abstract_machin.Native.Vme.Lists.{HostLaws, Listed, first_node}
use openperf_abstract_machin.Native.Vme.Switch.{Shows, am_switch-Shows}
use openperf_abstract_machin.Native.Vme.Map.{Added, map-Added}
use openperf_abstract_machin.Native.Vme.Cycle.{map-again_endless}

abbrev HostState : Type 0
HostState = ℕ → Option (ℕ × ℕ)

abbrev plain_host : Host HostState
plain_host = record {
  mmap = λ va offset prot h. some (λ a. if va == a then some (offset, prot) else h a);
  munmap = λ va h. some (λ a. if va == a then none else h a);
}

abbrev plain_laws : HostLaws plain_host
plain_laws = record {
  pgsize = 4096;
  shows = λ h. h;
  maps = λ va offset prot h user page.
      ((λ a. if va == a then some (offset, prot) else h a), refl, λ a. refl);
  unmaps = λ va h user aligned. ((λ a. if va == a then none else h a), refl, λ a. refl);
}

abbrev plain_search : Search (ℕ → Option ℕ)
plain_search = record {
  create = λ n. some (λ k. none);
  find = λ k t. t k;
  enter = λ k v t. some (λ j. if j == k then some v else t j);
}

-- The space at 0x1000 has one page, and that at 0x3000, the current one, none.
abbrev two_spaces : Vme HostState (ℕ → Option ℕ) ℕ
two_spaces = record {
  va = λ q. 0x4000_0000;
  pa = λ q. 0x100_5000;
  next = λ q. 0;
  prot = λ q. 3;
  is_mapped = λ q. false;
  head = λ h. if h == 0x1000 then 0x2000 else 0;
  hash = λ h k. none;
  nr_page = λ h. 0;
  vme_enable = true;
  vm_head = 0x3000;
  host = λ a. none;
  free_pages = 7;
}

abbrev two_spaces_shown : Shows plain_host plain_laws two_spaces []
two_spaces_shown = record { listed = refl; backed = tt; marked = tt; shown = λ a. refl }

am_switch-Shows_example :
    (s' : Vme HostState (ℕ → Option ℕ) ℕ) × (am_switch plain_host 2 0x1000 two_spaces ≡ some s')
    × (s'.vm_head ≡ 0x1000)
    × Shows plain_host plain_laws s' (0x2000 ∷ [])
am_switch-Shows_example =
    am_switch-Shows plain_host plain_laws 2 0x1000 two_spaces [] (0x2000 ∷ []) refl two_spaces_shown
      (refl, omega arith, refl, refl) (omega arith) (omega arith) (omega arith)

abbrev give_page : ℕ → ℕ → ℕ × ℕ
give_page n k = (n * k, k + 1)

map-Added_example :
    (s' : Vme HostState (ℕ → Option ℕ) ℕ) × (map plain_host plain_search 4096 give_page 0x3000
        0x4000_1000 0x100_6000 1 two_spaces
      ≡ some s')
    × Added plain_host plain_laws plain_search give_page two_spaces s' 0x3000 0x4000_1000 0x100_6000
        1 0x7000 [] []
map-Added_example =
    map-Added plain_host plain_laws plain_search give_page two_spaces 0x3000 0x4000_1000 0x100_6000
      1 0x7000 (λ j. if j == 0x4000_1000 then some 0x7000 else none) 8 [] [] refl refl refl
      (omega arith) (omega arith) (omega arith)
      (record { absent = refl; entered = refl; given = refl; some_page = omega arith }) tt tt tt
      two_spaces_shown refl

abbrev one_known : Vme HostState (ℕ → Option ℕ) ℕ
one_known = record two_spaces { hash = λ h k. if k == 0x4000_0000 then some 0x2000 else none }

map-again_endless_example :
    (s' : Vme HostState (ℕ → Option ℕ) ℕ) × (map plain_host plain_search 4096 give_page 0x1000
        0x4000_0000 0x6000 1 one_known
      ≡ some s')
    × ((l : List ℕ) → ¬ Listed s' l (first_node s' 0x1000))
map-again_endless_example =
    map-again_endless plain_host plain_search 4096 give_page one_known 0x1000 0x4000_0000 0x6000 1
      0x2000 refl refl refl (omega arith) (omega arith) refl refl (omega arith)
