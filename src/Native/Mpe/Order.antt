-- ===== src/Native/Mpe/Order.antt =====
-- am/src/native/mpe.c: what comes before the entry.
use native.Mathlib.Decide.{ℕ_discrete, dec_lt}
use openperf_abstract_machin.Prelude.{
  ℕ, ◌≡◌, ◌⊎◌, inl, inr, refl, ap, ◌∙◌, arith, Bool, true, ◌||◌, List, [], ◌∷◌, eq_true, eq_false,
  lt→ltb, lt_false,
}
use openperf_abstract_machin.Native.Mpe.{
  ParentPc, forking, before_ioe, writing, parent_runs, ChildPc, no_child, reading, child_runs,
  NativeMpe, put_child, parent_next, child_next, native_step, native_run, native_boot,
}

-- A child that does not run, and one that runs with its own number, if it may.
pub data IsChild (may_run : Type 0) (i : ℕ) : ChildPc → Type 0 where
  absent : IsChild may_run i no_child
  waits : IsChild may_run i reading
  runs : may_run → IsChild may_run i (child_runs i)

-- Whether the parent has come to the loop over write.
pub Released : ParentPc → Type 0
Released (forking i) = ⊥
Released before_ioe = ⊥
Released (writing i) = Unit
Released parent_runs = Unit

pub record IsOrdered (s : NativeMpe) : Type 0 where
  pub children : (i : ℕ) → IsChild (Released s.parent) i (s.child i)
  pub empty : (Released s.parent → ⊥) → s.pipe ≡ 0
  pub ready : Released s.parent → s.has_ioe ≡ true → s.ioe_ready ≡ true

IsChild-map : {P Q : Type 0} {i : ℕ} {pc : ChildPc} → (P → Q) → IsChild P i pc → IsChild Q i pc
IsChild-map f absent = absent
IsChild-map f waits = waits
IsChild-map f (runs h) = runs (f h)

put_child-IsChild :
    {P : Type 0} (i j : ℕ) (pc : ChildPc) (child : ℕ → ChildPc)
    → IsChild P i pc
    → IsChild P j (child j)
    → IsChild P j (put_child i pc child j)
put_child-IsChild i j pc child here there = elim (ℕ_discrete j i) [
  | yes e ↦ rw (eq_true e, e) here
  | no ne ↦ rw (eq_false ne) there
]

or_true : (a b : Bool) → a ≡ true → (a || b) ≡ true
or_true a b h = rw h refl

parent_next-IsOrdered :
    (ncpu : ℕ) (p : ParentPc) (s : NativeMpe)
    → ((i : ℕ) → IsChild (Released p) i (s.child i))
    → ((Released p → ⊥) → s.pipe ≡ 0)
    → (Released p → s.has_ioe ≡ true → s.ioe_ready ≡ true)
    → IsOrdered (parent_next ncpu p s)
unfolding parent_next Released
parent_next-IsOrdered ncpu (forking k) s children empty ready = elim (dec_lt k ncpu) [
  | yes more ↦ rw (lt→ltb k ncpu more) (record {
    children = λ i. put_child-IsChild k i reading s.child waits (children i);
    empty = empty;
    ready = ready;
  })
  | no done ↦
      rw (lt_false {a = k} {b = ncpu} (omega arith))
        (record { children = children; empty = empty; ready = ready })
]
parent_next-IsOrdered ncpu before_ioe s children empty ready = record {
  children = λ i. IsChild-map (λ h. tt) (children i);
  empty = λ h. absurd (h tt);
  ready = λ h has. or_true s.has_ioe s.ioe_ready has;
}
parent_next-IsOrdered ncpu (writing k) s children empty ready = elim (dec_lt k ncpu) [
  | yes more ↦
      rw (lt→ltb k ncpu more)
        (record { children = children; empty = λ h. absurd (h tt); ready = ready })
  | no done ↦
      rw (lt_false {a = k} {b = ncpu} (omega arith))
        (record { children = children; empty = λ h. absurd (h tt); ready = ready })
]
parent_next-IsOrdered ncpu parent_runs s children empty ready = record {
  children = children;
  empty = empty;
  ready = ready;
}

Released-cases : (p : ParentPc) → Released p ⊎ (Released p → ⊥)
unfolding Released
Released-cases (forking k) = inr (λ h. h)
Released-cases before_ioe = inr (λ h. h)
Released-cases (writing k) = inl tt
Released-cases parent_runs = inl tt

child_next-IsOrdered :
    (i : ℕ) (pc : ChildPc) (s : NativeMpe) → IsOrdered s → IsOrdered (child_next i pc s)
unfolding child_next
child_next-IsOrdered i no_child s o = o
child_next-IsOrdered i (child_runs k) s o = o
child_next-IsOrdered i reading s o = elim (ℕ_discrete s.pipe 0) [
  | yes e ↦ rw (eq_true e) o
  | no ne ↦ rw (eq_false ne) (elim (Released-cases s.parent) [
    | inl h ↦ record {
      children = λ j. put_child-IsChild i j (child_runs i) s.child (runs h) (o.children j);
      empty = λ held. absurd (held h);
      ready = o.ready;
    }
    | inr held ↦ absurd (ne (o.empty held))
  ])
]

native_run-IsOrdered :
    (ncpu : ℕ) (l : List ℕ) (s : NativeMpe) → IsOrdered s → IsOrdered (native_run ncpu l s)
unfolding native_run native_step
native_run-IsOrdered ncpu [] s o = o
native_run-IsOrdered ncpu (i ∷ l) s o = elim (ℕ_discrete i 0) [
  | yes e ↦ rw (eq_true e) (
      native_run-IsOrdered ncpu l (parent_next ncpu s.parent s)
        (parent_next-IsOrdered ncpu s.parent s o.children o.empty o.ready))
  | no ne ↦ rw (eq_false ne) (
      native_run-IsOrdered ncpu l (child_next i (s.child i) s)
        (child_next-IsOrdered i (s.child i) s o))
]

native_boot-IsOrdered : (has_ioe : Bool) → IsOrdered (native_boot has_ioe)
unfolding Released
native_boot-IsOrdered has_ioe = record {
  children = λ i. absent;
  empty = λ h. refl;
  ready = λ h. absurd h;
}

parent_keeps :
    (ncpu : ℕ) (p : ParentPc) (s : NativeMpe) → (parent_next ncpu p s).has_ioe ≡ s.has_ioe
unfolding parent_next
parent_keeps ncpu (forking k) s = ground arith
parent_keeps ncpu before_ioe s = refl
parent_keeps ncpu (writing k) s = ground arith
parent_keeps ncpu parent_runs s = refl

child_keeps : (i : ℕ) (pc : ChildPc) (s : NativeMpe) → (child_next i pc s).has_ioe ≡ s.has_ioe
unfolding child_next
child_keeps i no_child s = refl
child_keeps i reading s = ground arith
child_keeps i (child_runs k) s = refl

native_step-has_ioe : (ncpu i : ℕ) (s : NativeMpe) → (native_step ncpu i s).has_ioe ≡ s.has_ioe
unfolding native_step
native_step-has_ioe ncpu i s = elim (ℕ_discrete i 0) [
  | yes e ↦
      let here : native_step ncpu i s ≡ parent_next ncpu s.parent s = rw (eq_true e) refl in
      ap (λ t. t.has_ioe) here ∙ parent_keeps ncpu s.parent s
  | no ne ↦
      let here : native_step ncpu i s ≡ child_next i (s.child i) s = rw (eq_false ne) refl in
      ap (λ t. t.has_ioe) here ∙ child_keeps i (s.child i) s
]

native_run-has_ioe :
    (ncpu : ℕ) (l : List ℕ) (s : NativeMpe) → (native_run ncpu l s).has_ioe ≡ s.has_ioe
unfolding native_run
native_run-has_ioe ncpu [] s = refl
native_run-has_ioe ncpu (i ∷ l) s =
    native_run-has_ioe ncpu l (native_step ncpu i s) ∙ native_step-has_ioe ncpu i s

runs-Released :
    (P : Type 0) (i k : ℕ) (pc : ChildPc) → pc ≡ child_runs k → IsChild P i pc → P × (k ≡ i)
runs-Released P i k pc e absent = absurd (ground arith)
runs-Released P i k pc e waits = absurd (ground arith)
runs-Released P i k pc e (runs h) = (h, ground arith)

-- In every schedule of the processes, if ioe_init has been called before mpe_init, a child that
-- runs the entry has its own number as `cpuid`, and the parent has set the devices up before.
pub native_run-child_runs :
    (ncpu i k : ℕ) (l : List ℕ)
    → (native_run ncpu l (native_boot true)).child i ≡ child_runs k
    → (k ≡ i) × ((native_run ncpu l (native_boot true)).ioe_ready ≡ true)
native_run-child_runs ncpu i k l e =
    let t = native_run ncpu l (native_boot true) in
    let o = native_run-IsOrdered ncpu l (native_boot true) (native_boot-IsOrdered true) in
    let (released, own) = runs-Released (Released t.parent) i k (t.child i) e (o.children i) in
    (own, o.ready released (native_run-has_ioe ncpu l (native_boot true)))
