-- ===== src/X86/Cte/Idt.antt =====
-- The table of interrupts that cte_init of am/src/x86/qemu/cte.c fills in.
use native.Mathlib.Decide.{ℕ_discrete}
use openperf_abstract_machin.Prelude.{
  ℕ, zero, suc, ◌^◌, ◌<◌, ◌≡◌, inl, inr, ◌∙◌, refl, ap, arith, Bool, true, false, Option,
  Option-cases, none, some, ◌&&◌, ◌||◌, List, [], ◌∷◌, leb, ◌==◌, ==_iff, eq_true, eq_false,
  if◌then◌else◌,
}
use openperf_abstract_machin.X86.Desc.{sts_tg, seg_kcode, ksel, dpl_kern, GateDesc32, gate32}
use openperf_abstract_machin.X86.Desc.Decode.{offset_of, offset_of-gate32, gate32_fields}
use openperf_abstract_machin.X86.Cte.{irqs, set_entries, cte_idt}

-- The privilege level of a vector in a list of entries, of which the last counts.
level : List (ℕ × ℕ) → ℕ → Option ℕ
level [] i = none
level ((id, dpl) ∷ rest) i = elim (level rest i) [
  | some d ↦ some d
  | none ↦ if i == id then some dpl else none
]

-- The vectors with a handler of their own: the exceptions, the two spurious ones, the interrupts of
-- the devices, and those of `int`.
abbrev pub is_user : ℕ → Bool
is_user i = i == 128 || i == 129

abbrev pub has_handler : ℕ → Bool
has_handler i = is_user i || (leb i 16 || i == 19 || i == 31 || (leb 32 i && leb i 47))

abbrev gate_level : ℕ → Option ℕ
gate_level i = if is_user i then some 3 else if has_handler i then some 0 else none

abbrev same_level : Option ℕ → Option ℕ → Bool
same_level none none = true
same_level (some a) (some b) = a == b
same_level a b = false

same_level-eq : (a b : Option ℕ) → same_level a b ≡ true → a ≡ b
same_level-eq none none h = refl
same_level-eq none (some b) h = cc
same_level-eq (some a) none h = cc
same_level-eq (some a) (some b) h = ap some ((==_iff a b).0 h)

both_true : (a b : Bool) → (a && b) ≡ true → (a ≡ true) × (b ≡ true)
both_true true b h = (refl, h)
both_true false b h = cc

-- The first `n` vectors, one after the other.
levels_agree : ℕ → Bool
levels_agree zero = true
levels_agree (suc n) = same_level (level irqs n) (gate_level n) && levels_agree n

levels_agree-all : (n i : ℕ) → levels_agree n ≡ true → i < n → level irqs i ≡ gate_level i
unfolding levels_agree
levels_agree-all zero i h l = absurd (omega arith)
levels_agree-all (suc n) i h l =
    let (here, below) = both_true (same_level (level irqs n) (gate_level n)) (levels_agree n) h in
    elim (ℕ_discrete i n) [
      | yes e ↦ rw e (same_level-eq (level irqs n) (gate_level n) here)
      | no ne ↦ levels_agree-all n i below (omega arith)
    ]

every_level : levels_agree 256 ≡ true
unfolding levels_agree level
every_level = refl

module _ (irqall : ℕ) (irq : ℕ → ℕ) where
  set_entries_lem :
      (es : List (ℕ × ℕ)) (idt : ℕ → GateDesc32) (i : ℕ)
      → set_entries irqall irq es idt i
        ≡ elim (level es i) [ none ↦ idt i | some dpl ↦ gate32 sts_tg (ksel seg_kcode) (irq i) dpl ]
  unfolding set_entries level
  set_entries_lem [] idt i = refl
  set_entries_lem ((id, dpl) ∷ rest) idt i =
      let ih =
        set_entries_lem rest
          (λ j. if j == id then gate32 sts_tg (ksel seg_kcode) (irq id) dpl else idt j) i in
      ih ∙ elim (Option-cases (level rest i)) [
        | inl e ↦ rw e (elim (ℕ_discrete i id) [
          | yes same ↦ rw (eq_true same, same) refl
          | no other ↦ rw (eq_false other) refl
        ])
        | inr (d, e) ↦ rw e refl
      ]

-- A gate for the given answers to the two tests.
gate_facts :
    (user other : Bool) (all own : ℕ)
    → all < 2 ^ 32
    → own < 2 ^ 32
    → let level : Option ℕ = if user then some 3 else if user || other then some 0 else none in
      let g : GateDesc32 = elim level [
        | none ↦ gate32 sts_tg (ksel seg_kcode) all dpl_kern
        | some dpl ↦ gate32 sts_tg (ksel seg_kcode) own dpl
      ] in
      (offset_of g ≡ (if user || other then own else all))
      × (g.dpl ≡ (if user then 3 else 0))
      × (g.cs ≡ 8)
      × (g.p ≡ 1)
gate_facts true other all own ha ho =
    let (d, c, p) = gate32_fields sts_tg 8 own 3 (omega arith) (omega arith) in
    (offset_of-gate32 sts_tg 8 own 3 ho, d, c, p)
gate_facts false true all own ha ho =
    let (d, c, p) = gate32_fields sts_tg 8 own 0 (omega arith) (omega arith) in
    (offset_of-gate32 sts_tg 8 own 0 ho, d, c, p)
gate_facts false false all own ha ho =
    let (d, c, p) = gate32_fields sts_tg 8 all 0 (omega arith) (omega arith) in
    (offset_of-gate32 sts_tg 8 all 0 ha, d, c, p)

-- Each of the 256 gates that cte_init sets is present, in the kernel code segment, and leads to
-- the own entry point of its number if IRQS lists the number, and to the common one otherwise;
-- user code may use exactly the gates 128 and 129.
pub cte_idt_lem :
    (irqall : ℕ) (irq : ℕ → ℕ) (i : ℕ)
    → irqall < 2 ^ 32
    → irq i < 2 ^ 32
    → i < 256
    → let g = cte_idt irqall irq i in
      (offset_of g ≡ (if has_handler i then irq i else irqall))
      × (g.dpl ≡ (if is_user i then 3 else 0))
      × (g.cs ≡ 8)
      × (g.p ≡ 1)
unfolding cte_idt
cte_idt_lem irqall irq i all_fits fits l =
    let e =
      set_entries_lem irqall irq irqs (λ j. gate32 sts_tg (ksel seg_kcode) irqall dpl_kern) i in
    let known = levels_agree-all 256 i every_level l in
    let other : Bool = leb i 16 || i == 19 || i == 31 || (leb 32 i && leb i 47) in
    rw e (rw known (gate_facts (is_user i) other irqall (irq i) all_fits fits))
