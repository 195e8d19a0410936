-- ===== src/Native/Vme/Map.antt =====
-- map of am/src/native/vme.c adds a page to an address space, and shows it at once in the current one.
use mathlib.Core.Path.{subst}
use native.Mathlib.Decide.{ℕ_discrete}
use openperf_abstract_machin.Prelude.{
  ℕ, ◌+◌, ◌%◌, ◌^◌, ◌≤◌, ◌≡◌, ◌≢◌, refl, ap, sym, ◌∙◌, true, none, some, List, ◌∷◌, write, ◌==◌,
  if◌then◌else◌, eq_true, eq_false,
}
use openperf_abstract_machin.Klib.Stdlib.{in_range}
use openperf_abstract_machin.Native.Vme.{
  Host, Search, Vme, user_start, user_end, pmem, pmem_size, set_mapped, map_page, find_page, link,
  map,
}
use openperf_abstract_machin.Native.Vme.Lists.{
  HostLaws, Listed, Backed, IsPage, backing, Backed-changed, AllMapped, seen, first_node, changed,
  Listed-changed, seen-changed, Listed-unique,
}
use openperf_abstract_machin.Native.Vme.Nodes.{
  NotIn, Unused, Same, Listed-Same, Backed-Same, AllMapped-Same, seen-Same, seen-Unused, Same-link,
  LinkFields, link_fields, AllMapped-other,
}
use openperf_abstract_machin.Native.Vme.Loops.{map_page_lem}
use openperf_abstract_machin.Native.Vme.Switch.{Shows}

module _ {H T A : Type 0} (ops : Host H) (laws : HostLaws ops) (search : Search T)
    (pgalloc : ℕ → A → ℕ × A) where
  -- The table of the space has no entry for the address and takes one, and the page that the
  -- allocator gives is a new node.
  pub record Room (s : Vme H T A) (vm_head va pp : ℕ) (t : T) (free_pages : A) : Type 0 where
    pub absent : search.find (va % 2 ^ 32) (s.hash vm_head) ≡ none
    pub entered : search.enter (va % 2 ^ 32) pp (s.hash vm_head) ≡ some t
    pub given : pgalloc laws.pgsize s.free_pages ≡ (pp, free_pages)
    pub some_page : pp ≢ 0

  -- The state with the new node.
  abbrev with_page : Vme H T A → ℕ → ℕ → ℕ → ℕ → ℕ → T → A → Vme H T A
  with_page s vm_head va pa prot pp t free_pages = link vm_head pp va pa prot (record s {
    hash = λ h. if h == vm_head then t else s.hash h;
    nr_page = write s.nr_page vm_head (s.nr_page vm_head + 1);
    free_pages = free_pages;
  })

  find_page-new :
      (s : Vme H T A) (vm_head va pp : ℕ) (t : T) (free_pages : A)
      → Room s vm_head va pp t free_pages
      → find_page ops search laws.pgsize pgalloc vm_head va s
        ≡ some (
          pp,
          record s {
            hash = λ h. if h == vm_head then t else s.hash h;
            nr_page = write s.nr_page vm_head (s.nr_page vm_head + 1);
            free_pages = free_pages;
          },
        )
  unfolding find_page
  find_page-new s vm_head va pp t free_pages room =
      rw (room.absent, room.given, room.entered, eq_false room.some_page, find_page) refl

  map_run :
      (s : Vme H T A) (vm_head va pa prot pp : ℕ) (t : T) (free_pages : A)
      → in_range va user_start user_end ≡ true
      → va % laws.pgsize ≡ 0
      → pa % laws.pgsize ≡ 0
      → vm_head ≢ 0
      → Room s vm_head va pp t free_pages
      → let s2 = with_page s vm_head va pa prot pp t free_pages in
        map ops search laws.pgsize pgalloc vm_head va pa prot s
        ≡ (if vm_head == s2.vm_head then map_page ops pp s2 else some s2)
  unfolding map
  map_run s vm_head va pa prot pp t free_pages user va_aligned pa_aligned space room =
      rw
        (
          find_page-new s vm_head va pp t free_pages room,
          user,
          va_aligned,
          pa_aligned,
          eq_false space,
        )
        refl

  -- What map leaves behind: `current` are the nodes of the current space, and `l` those of the space
  -- that the page has been added to.
  pub record Added (s s' : Vme H T A) (vm_head va pa prot pp : ℕ) (current l : List ℕ)
      : Type 0 where
    pub listed : Listed s' (pp ∷ l) (first_node s' vm_head)
    pub added :
        (a : ℕ)
        → seen s' (pp ∷ l) a none ≡ (if va == a then some (backing pa prot) else seen s l a none)
    pub here : vm_head ≡ s.vm_head → Shows ops laws s' (pp ∷ l)
    pub elsewhere : vm_head ≢ s.vm_head → Shows ops laws s' current

  linked_lem :
      (s : Vme H T A) (vm_head va pa prot pp : ℕ) (t : T) (free_pages : A) (l : List ℕ)
      → in_range va user_start user_end ≡ true
      → vm_head ≢ 0
      → pp ≢ 0
      → NotIn pp l
      → Unused s va l
      → Listed s l (first_node s vm_head)
      → let s2 = with_page s vm_head va pa prot pp t free_pages in
        Listed s2 (pp ∷ l) (first_node s2 vm_head)
        × ((a : ℕ)
            → seen s2 (pp ∷ l) a none
              ≡ (if va == a then some (backing pa prot) else seen s l a none))
  linked_lem s vm_head va pa prot pp t free_pages l user space some_page away unused listed =
      let base : Vme H T A = record s {
        hash = λ h. if h == vm_head then t else s.hash h;
        nr_page = write s.nr_page vm_head (s.nr_page vm_head + 1);
        free_pages = free_pages;
      } in
      let s2 = link vm_head pp va pa prot base in
      let f = link_fields base vm_head pp va pa prot in
      let same = Same-link s vm_head pp va pa prot base.hash base.nr_page free_pages l away in
      let start : first_node s vm_head ≡ s.head vm_head = rw (eq_false space) refl in
      let start2 : first_node s2 vm_head ≡ pp = rw (eq_false space) f.first in
      (
        (
          start2,
          some_page,
          rw f.its_va user,
          rw f.its_next
              (Listed-Same s s2 l (s.head vm_head) same (subst (Listed s l) start listed)),
        ),
        λ a. elim (ℕ_discrete va a) [
          | yes e ↦
              rw (f.its_va, f.its_pa, f.its_prot, eq_true e)
                (seen-Same s s2 l a (some (backing pa prot)) same
                  ∙ seen-Unused s l a (some (backing pa prot)) (subst (λ v. Unused s v l) e unused))
          | no ne ↦ rw (f.its_va, eq_false ne) (seen-Same s s2 l a none same)
        ],
      )

  -- The two cases: the space is the current one, or another one.
  map-here :
      (s s2 : Vme H T A) (vm_head va pa prot pp : ℕ) (current l : List ℕ)
      → vm_head ≡ s.vm_head
      → LinkFields s s2 vm_head pp va pa prot
      → Same s s2 l
      → in_range va user_start user_end ≡ true
      → IsPage laws.pgsize va pa
      → NotIn pp l
      → Shows ops laws s current
      → Listed s l (first_node s vm_head)
      → Listed s2 (pp ∷ l) (first_node s2 vm_head)
      → ((a : ℕ)
          → seen s2 (pp ∷ l) a none ≡ (if va == a then some (backing pa prot) else seen s l a none))
      → (s' : Vme H T A) × (map_page ops pp s2 ≡ some s')
        × Added s s' vm_head va pa prot pp current l
  map-here s s2 vm_head va pa prot pp current l e f same user page away shows listed listed2 seen2 =
      let (h, run, after) =
        map_page_lem ops laws s2 pp (rw f.its_va user) (rw (f.its_va, f.its_pa) page) in
      let marks = set_mapped pp true s2.is_mapped in
      let lists : current ≡ l =
        Listed-unique s current l (first_node s vm_head)
          (subst (λ r. Listed s current (first_node s r)) (sym e) shows.listed) listed in
      let s' = changed s2 marks h in
      let listed' : Listed s' (pp ∷ l) (first_node s' vm_head) =
        Listed-changed s2 marks h (pp ∷ l) (first_node s2 vm_head) listed2 in
      (
        s',
        run,
        record {
          listed = listed';
          added = λ a. seen-changed s2 marks h (pp ∷ l) a none ∙ seen2 a;
          here = λ same_space. record {
            listed =
                subst (λ r. Listed s' (pp ∷ l) (first_node s' r)) (e ∙ sym f.same_space) listed';
            backed = (
              rw (f.its_va, f.its_pa) page,
              Backed-changed laws.pgsize s2 marks h l (
                  Backed-Same laws.pgsize s s2 l same
                    (subst (Backed laws.pgsize s) lists shows.backed)),
            );
            marked = (
              rw (eq_true {a = pp} refl) refl,
              AllMapped-other s2 pp h l away
                  (AllMapped-Same s s2 l same (subst (AllMapped s) lists shows.marked)),
            );
            shown = λ a.
                after a
                ∙ rw (f.its_va, f.its_pa, f.its_prot, f.same_host, shows.shown a, lists) refl
                ∙ sym (seen-changed s2 marks h (pp ∷ l) a none ∙ seen2 a);
          };
          elsewhere = λ ne. absurd (ne e);
        },
      )

  -- On a host whose calls on aligned user pages with an offset in the physical memory succeed,
  -- with a user page that no node of the space has, both addresses aligned, the physical page in the
  -- physical memory, and a new page for the node, map succeeds: the list of the space has the node
  -- before the others and says the physical page and the rights of that address, and what it said of
  -- all others. If the space is the current one, the host shows what the new list says, and if not,
  -- what the list of the current space says, and nothing else.
  pub map-Added :
      (s : Vme H T A) (vm_head va pa prot pp : ℕ) (t : T) (free_pages : A) (current l : List ℕ)
      → in_range va user_start user_end ≡ true
      → va % laws.pgsize ≡ 0
      → pa % laws.pgsize ≡ 0
      → pmem ≤ pa
      → pa + laws.pgsize ≤ pmem + pmem_size
      → vm_head ≢ 0
      → Room s vm_head va pp t free_pages
      → NotIn pp current
      → NotIn pp l
      → Unused s va l
      → Shows ops laws s current
      → Listed s l (first_node s vm_head)
      → (s' : Vme H T A) × (map ops search laws.pgsize pgalloc vm_head va pa prot s ≡ some s')
        × Added s s' vm_head va pa prot pp current l
  map-Added s vm_head va pa prot pp t free_pages current l user va_aligned pa_aligned above below
        space room apart away unused shows listed =
      let s2 = with_page s vm_head va pa prot pp t free_pages in
      let hash : ℕ → T = λ h. if h == vm_head then t else s.hash h in
      let nr_page : ℕ → ℕ = write s.nr_page vm_head (s.nr_page vm_head + 1) in
      let base : Vme H T A = record s { hash = hash; nr_page = nr_page; free_pages = free_pages } in
      let f : LinkFields s s2 vm_head pp va pa prot =
        let g = link_fields base vm_head pp va pa prot in
        record {
          its_va = g.its_va;
          its_pa = g.its_pa;
          its_prot = g.its_prot;
          its_next = g.its_next;
          first = g.first;
          other_first = g.other_first;
          same_space = g.same_space;
          same_host = g.same_host;
        } in
      let (listed2, seen2) =
        linked_lem s vm_head va pa prot pp t free_pages l user space room.some_page away unused
          listed in
      let run =
        map_run s vm_head va pa prot pp t free_pages user va_aligned pa_aligned space room in
      elim (ℕ_discrete vm_head s.vm_head) [
        | yes e ↦
            let same = Same-link s vm_head pp va pa prot hash nr_page free_pages l away in
            let (s', mapped, added) =
              map-here s s2 vm_head va pa prot pp current l e f same user
                (va_aligned, pa_aligned, above, below) away shows listed listed2 seen2 in
            (s', run ∙ rw (eq_true (e ∙ sym f.same_space)) mapped, added)
        | no ne ↦
            let same = Same-link s vm_head pp va pa prot hash nr_page free_pages current apart in
            let other : vm_head ≢ s2.vm_head = λ e. ne (e ∙ f.same_space) in
            let start : first_node s2 s2.vm_head ≡ first_node s s.vm_head =
              rw (f.same_space, f.other_first s.vm_head ne) refl in
            (
              s2,
              run ∙ rw (eq_false other) refl,
              record {
                listed = listed2;
                added = seen2;
                here = λ e. absurd (ne e);
                elsewhere = λ ne'. record {
                  listed =
                      subst (Listed s2 current) (sym start)
                        (Listed-Same s s2 current (first_node s s.vm_head) same shows.listed);
                  backed = Backed-Same laws.pgsize s s2 current same shows.backed;
                  marked = AllMapped-Same s s2 current same shows.marked;
                  shown = λ a.
                      ap (λ h. laws.shows h a) f.same_host
                      ∙ shows.shown a
                      ∙ sym (seen-Same s s2 current a none same);
                };
              },
            )
      ]
