-- ===== src/X86/Vme/Tests.antt =====
-- Runs of the page table code, and its theorems at such inputs.
use openperf_abstract_machin.Prelude.{ℕ, ◌≡◌, inl, inr, refl, arith, some, none, ◌>>=◌}
use openperf_abstract_machin.X86.Vme.{
  Machine, map, indexof, baseof, rounddown, ptwalk, walk_from, next_page, pgallocz, zero_words,
  set_entry,
}
use openperf_abstract_machin.X86.Vme.Sample.{
  next_pages, page_supply, empty_space, one_page, empty_space-IsValid, one_page-IsValid,
  user_request,
}
use openperf_abstract_machin.X86.Vme.Entries.{entry}
use openperf_abstract_machin.X86.Vme.Map.{Remapped, map_lem, map-none_lem}
use openperf_abstract_machin.X86.Vme.Refuse.{map-refused, map-remapped, map-unmapped}

map_lem_example :
    (s' : Machine ℕ) × (map next_pages 0x100 0x4000_3000 0x7_5000 2 empty_space ≡ some s')
    × Remapped next_pages page_supply 0x100 0x4000_3000 0x7_5000 user_request 0x7_5007 empty_space
        s'
map_lem_example =
    map_lem next_pages page_supply 0x100 0x4000_3000 0x7_5000 user_request 2 empty_space
      empty_space-IsValid (omega arith) refl (omega arith)

map-none_lem_run :
    (s' : Machine ℕ) × (map next_pages 0x100 0x4000_3000 0x7_5000 0 one_page ≡ some s')
    × Remapped next_pages page_supply 0x100 0x4000_3000 0x7_5000 user_request 0 one_page s'
map-none_lem_run =
    map-none_lem next_pages page_supply 0x100 0x4000_3000 0x7_5000 user_request one_page
      one_page-IsValid refl

map-refused_run : map next_pages 0x100 0x4000_3001 0x7_5000 3 one_page ≡ none
map-refused_run =
    map-refused next_pages 0x100 0x4000_3001 0x7_5000 3 one_page (inr (inr (inl (omega arith))))

map-remapped_run : map next_pages 0x100 0x4000_3000 0x7_5000 3 one_page ≡ none
map-remapped_run =
    map-remapped next_pages page_supply 0x100 0x4000_3000 0x7_5000 user_request 3 one_page
      one_page-IsValid (omega arith) refl

map-unmapped_run : map next_pages 0x100 0x4000_3000 0x7_5000 0 empty_space ≡ none
map-unmapped_run =
    map-unmapped next_pages page_supply 0x100 0x4000_3000 0x7_5000 user_request empty_space
      empty_space-IsValid refl

-- The entry after a run of the code itself.
map_run :
    (map next_pages 0x100 0x4000_3000 0x7_5000 2 empty_space >>= λ s.
    some (entry s.words 0x100 0x4000_3000))
    ≡ some 0x7_5007
unfolding map ptwalk walk_from next_page pgallocz zero_words set_entry indexof baseof rounddown
map_run = refl
