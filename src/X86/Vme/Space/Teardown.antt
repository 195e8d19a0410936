-- ===== src/X86/Vme/Space/Teardown.antt =====
-- unprotect of am/src/x86/qemu/vme.c: how often each page is handed to pgfree.
use Prim.Native.Nat.{bit_and}
use native.Mathlib.Decide.{ℕ_discrete}
use openperf_abstract_machin.Prelude.{
  ℕ, zero, suc, ◌+◌, ◌*◌, ◌/◌, ◌%◌, ◌≤◌, ◌<◌, ◌≡◌, ◌≢◌, inl, inr, ◌∙◌, refl, sym, arith, Memory,
  Bool, Bool-cases, true, not, ◌&&◌, List, [], ◌∷◌, ◌++◌, ◌==◌, if◌then◌else◌, eq_false,
}
use openperf_abstract_machin.Prelude.Bits.{bit_and_field}
use openperf_abstract_machin.X86.Vme.{pte_p, pte_u, slot, pd_info, pt_info}
use openperf_abstract_machin.X86.Vme.Fields.{present_bit, baseof_lem}
use openperf_abstract_machin.X86.Vme.Entries.{frame, dir_entry, IsValid}
use openperf_abstract_machin.X86.Vme.Space.{teardown, teardown_entries, unprotect}

-- How often a page is in a list.
abbrev pub count : ℕ → List ℕ → ℕ
count p [] = 0
count p (q ∷ qs) = (if q == p then 1 else 0) + count p qs

count-append : (p : ℕ) (xs ys : List ℕ) → count p (xs ++ ys) ≡ count p xs + count p ys
count-append p [] ys = omega arith
count-append p (x ∷ xs) ys = omega (arith, count-append p xs ys)

-- Present, and for the user.
abbrev pub is_user : ℕ → Bool
is_user e = not (e % 2 == 0) && not (e / 4 % 2 == 0)

user_bit : (e : ℕ) → bit_and e pte_u ≡ e / 4 % 2 * 4
user_bit e = omega (arith, bit_and_field 2 1 e)

user_test : (e : ℕ) → (not (bit_and e pte_p == 0) && not (bit_and e pte_u == 0)) ≡ is_user e
user_test e = ground (arith, present_bit e, user_bit e)

module _ (inner : ℕ → List ℕ) (p pt : ℕ) (w : Memory) where
  -- A page that no entry leads to is not freed.
  entries_none :
      (n i : ℕ)
      → ((j : ℕ)
          → i ≤ j
          → j < i + n
          → is_user (w (slot pt j)) ≡ true
          → count p (inner (frame (w (slot pt j)) * 4096)) ≡ 0)
      → count p (teardown_entries inner n i pt w) ≡ 0
  unfolding teardown_entries
  entries_none zero i h = refl
  entries_none (suc n) i h =
      let later = entries_none n (i + 1) (λ j l m u. h j (omega arith) (omega arith) u) in
      rw (user_test (w (slot pt i)), baseof_lem (w (slot pt i)))
        (elim (Bool-cases (is_user (w (slot pt i)))) [
          | inl on ↦ rw on (
              count-append p (inner (frame (w (slot pt i)) * 4096)) _
              ∙ omega (arith, h i (omega arith) (omega arith) on, later))
          | inr off ↦ rw off later
        ])

  -- A page that one entry leads to once is freed once.
  entries_one :
      (n i k : ℕ)
      → i ≤ k
      → k < i + n
      → is_user (w (slot pt k)) ≡ true
      → count p (inner (frame (w (slot pt k)) * 4096)) ≡ 1
      → ((j : ℕ)
          → i ≤ j
          → j < i + n
          → j ≢ k
          → is_user (w (slot pt j)) ≡ true
          → count p (inner (frame (w (slot pt j)) * 4096)) ≡ 0)
      → count p (teardown_entries inner n i pt w) ≡ 1
  unfolding teardown_entries
  entries_one zero i k l m on one h = absurd (omega arith)
  entries_one (suc n) i k l m on one h = elim (ℕ_discrete i k) [
    | yes e ↦
        let later =
          entries_none n (k + 1) (λ j lj mj u. h j (omega arith) (omega arith) (omega arith) u) in
        rw (user_test (w (slot pt i)), baseof_lem (w (slot pt i)), e, on)
          (count-append p (inner (frame (w (slot pt k)) * 4096)) _ ∙ omega (arith, one, later))
    | no ne ↦
        let later =
          entries_one n (i + 1) k (omega arith) (omega arith) on one
            (λ j lj mj nj u. h j (omega arith) (omega arith) nj u) in
        rw (user_test (w (slot pt i)), baseof_lem (w (slot pt i)))
          (elim (Bool-cases (is_user (w (slot pt i)))) [
            | inl user ↦ rw user (
                count-append p (inner (frame (w (slot pt i)) * 4096)) _
                ∙ omega (arith, h i (omega arith) (omega arith) ne user, later))
            | inr off ↦ rw off later
          ])
  ]

  -- The only entry of the first level.
  entries_single :
      is_user (w pt) ≡ true
      → count p (teardown_entries inner 1 0 pt w) ≡ count p (inner (frame (w pt) * 4096))
  unfolding teardown_entries
  entries_single on =
      let at : pt + 4 * 0 ≡ pt = omega arith in
      rw (at, user_test (w pt), on, baseof_lem (w pt))
        (count-append p (inner (frame (w pt) * 4096)) [] ∙ omega arith)

-- A page table is freed itself, with nothing that its entries lead to.
table_count :
    (p pt : ℕ) (w : Memory) → count p (teardown (pt_info ∷ []) true pt w) ≡ count p (pt ∷ [])
unfolding teardown
table_count p pt w =
    count-append p (teardown_entries (λ q. []) 1024 0 pt w) (pt ∷ [])
    ∙ omega (arith, entries_none (λ q. []) p pt w 1024 0 (λ j l m u. refl))

user_present : (e : ℕ) → is_user e ≡ true → e % 2 ≡ 1
user_present e u = ground arith

-- The call of teardown one level below the directory.
abbrev table_down : Memory → ℕ → List ℕ
table_down w q = teardown (pt_info ∷ []) true q w

table_down_other : (p q : ℕ) (w : Memory) → q ≢ p → count p (table_down w q) ≡ 0
table_down_other p q w ne = table_count p q w ∙ rw (eq_false ne) (omega arith)

table_down_self : (q : ℕ) (w : Memory) → count q (table_down w q) ≡ 1
table_down_self q w = table_count q q w ∙ ground arith

directory_down : Memory → ℕ → List ℕ
directory_down w q = teardown (pd_info ∷ pt_info ∷ []) true q w

directory_count :
    (p d : ℕ) (w : Memory)
    → count p (directory_down w d)
      ≡ count p (teardown_entries (table_down w) 1024 0 d w) + count p (d ∷ [])
unfolding teardown directory_down
directory_count p d w = count-append p (teardown_entries (table_down w) 1024 0 d w) (d ∷ [])

module _ (w : Memory) (space : ℕ) where
  -- What is freed: the tables, then the directory.
  unprotect_split :
      (p : ℕ)
      → is_user (w space) ≡ true
      → count p (unprotect space w)
        ≡ count p (teardown_entries (table_down w) 1024 0 (frame (w space) * 4096) w)
          + count p (frame (w space) * 4096 ∷ [])
  unfolding unprotect teardown directory_down
  unprotect_split p on =
      count-append p (teardown_entries (directory_down w) 1 0 space w) []
      ∙ omega (
        arith,
        entries_single (directory_down w) p space w on,
        directory_count p (frame (w space) * 4096) w,
      )

  -- In a valid address space whose pointer has the user bit, unprotect hands to pgfree the
  -- directory once, each table whose directory entry is present and has the user bit once, and no
  -- other page.
  pub unprotect_count :
      {used : ℕ → Type 0}
      → IsValid used w space
      → is_user (w space) ≡ true
      → (count (frame (w space) * 4096) (unprotect space w) ≡ 1)
        × ((i : ℕ)
            → i < 1024
            → is_user (dir_entry w space i) ≡ true
            → count (frame (dir_entry w space i) * 4096) (unprotect space w) ≡ 1)
        × ((p : ℕ)
            → p ≢ frame (w space) * 4096
            → ((i : ℕ)
                → i < 1024
                → is_user (dir_entry w space i) ≡ true
                → p ≢ frame (dir_entry w space i) * 4096)
            → count p (unprotect space w) ≡ 0)
  unprotect_count u on = (
    rw (unprotect_split d on) (
        omega (
          arith,
          entries_none (table_down w) d d w 1024 0 (λ j l m v.
              let own = (u.table_own j m (user_present (dir_entry w space j) v)).0 in
              table_down_other d (frame (dir_entry w space j) * 4096) w (omega arith)),
          single d,
        )),
    (λ i l v.
        let p = frame (dir_entry w space i) * 4096 in
        let on_i = user_present (dir_entry w space i) v in
        let own = (u.table_own i l on_i).0 in
        rw (unprotect_split p on) (
          omega (
            arith,
            entries_one (table_down w) p d w 1024 0 i (omega arith) l v (table_down_self p w)
                (λ j lj mj nj vj.
                  let far = u.apart j i mj l nj (user_present (dir_entry w space j) vj) on_i in
                  table_down_other p (frame (dir_entry w space j) * 4096) w (omega arith)),
            no_other p d (omega arith),
          ))),
    (λ p nd nt. rw (unprotect_split p on) (
        omega (
          arith,
          entries_none (table_down w) p d w 1024 0 (λ j l m v.
              table_down_other p (frame (dir_entry w space j) * 4096) w (λ e. nt j m v (sym e))),
          no_other p d (λ e. nd (sym e)),
        ))),
  )
    where
      d : ℕ
      d = frame (w space) * 4096

      single : (p : ℕ) → count p (p ∷ []) ≡ 1
      single p = ground arith

      no_other : (p q : ℕ) → q ≢ p → count p (q ∷ []) ≡ 0
      no_other p q ne = rw (eq_false ne) (omega arith)
