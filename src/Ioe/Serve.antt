-- ===== src/Ioe/Serve.antt =====
-- What a device register is served by after ioe_init.
use native.Mathlib.Decide.{ℕ_discrete, dec_lt}
use openperf_abstract_machin.Prelude.{
  ℕ, zero, suc, ◌<◌, ◌≡◌, inl, inr, refl, sym, ap, ◌∙◌, arith, Option, none, some, Option-cases,
  List, [], ◌∷◌, ltb, ◌==◌, if◌then◌else◌, eq_true, eq_false, lt→ltb, lt_false,
}
use openperf_abstract_machin.Ioe.{Handler, on_fail, am_devreg, Lut, initialized, set_fail, ioe_read}
use openperf_abstract_machin.Ioe.Tables.{
  native_table, nemu_table, npc_table, ysyxsoc_table, spike_table, qemu_table,
}

-- Each function stands at the register that it is written for.
abbrev pub InPlace : List (ℕ × Handler) → Type 0
InPlace [] = Unit
InPlace (e ∷ l) = (am_devreg e.1 ≡ some e.0) × InPlace l

pick :
    (k reg : ℕ) (h' h : Handler)
    → am_devreg h' ≡ some k
    → (if k == reg then some h' else none) ≡ some h
    → am_devreg h ≡ some reg
pick k reg h' h place found = elim (ℕ_discrete k reg) [
  | yes e ↦ let same : h' ≡ h = ground arith in sym (ap am_devreg same) ∙ place ∙ ap some e
  | no ne ↦ absurd (ground arith)
]

initialized-InPlace :
    (l : List (ℕ × Handler)) (reg : ℕ) (h : Handler)
    → InPlace l
    → initialized l reg ≡ some h
    → am_devreg h ≡ some reg
unfolding initialized
initialized-InPlace [] reg h places found = absurd (ground arith)
initialized-InPlace (e ∷ l) reg h places found = elim (Option-cases (initialized l reg)) [
  | inr (k, later) ↦ initialized-InPlace l reg h places.1 (later ∙ rw (later) at found)
  | inl none_later ↦ pick e.0 reg e.1 h places.0 (rw (none_later) at found)
]

abbrev or_fail : Option Handler → Option Handler
or_fail (some h) = some h
or_fail none = some on_fail

or_fail-twice :
    (o : Option Handler)
    → elim o as (λ x. Option Handler) [ some h ↦ some h | none ↦ some on_fail ] ≡ or_fail o
or_fail-twice (some h) = refl
or_fail-twice none = refl

set_fail_lem :
    (n reg : ℕ) (lut : Lut)
    → set_fail n lut reg ≡ (if ltb reg n then or_fail (lut reg) else lut reg)
unfolding set_fail
set_fail_lem zero reg lut = rw (lt_false {a = reg} {b = 0} (omega arith)) refl
set_fail_lem (suc n) reg lut = elim (ℕ_discrete reg n) [
  | yes e ↦
      let before : set_fail n lut reg ≡ lut reg =
        set_fail_lem n reg lut ∙ rw (lt_false {a = reg} {b = n} (omega arith)) refl in
      rw (eq_true e, before, lt→ltb reg (suc n) (omega arith)) (or_fail-twice (lut reg))
  | no ne ↦ rw (eq_false ne) (
      set_fail_lem n reg lut ∙ elim (dec_lt reg n) [
        | yes low ↦ rw (lt→ltb reg n low, lt→ltb reg (suc n) (omega arith)) refl
        | no high ↦
            rw
              (
                lt_false {a = reg} {b = n} (omega arith),
                lt_false {a = reg} {b = suc n} (omega arith),
              )
              refl
      ])
]

-- What a register with a table is served by: its own function if it is in the table, and `fail` if
-- it is not.
pub data IsServed (l : List (ℕ × Handler)) (reg : ℕ) : Handler → Type 0 where
  own : (h : Handler) → initialized l reg ≡ some h → am_devreg h ≡ some reg → IsServed l reg h
  missing : initialized l reg ≡ none → IsServed l reg on_fail

pub data IsTable : List (ℕ × Handler) → Type 0 where
  of_native : IsTable native_table
  of_nemu : IsTable nemu_table
  of_npc : IsTable npc_table
  of_ysyxsoc : IsTable ysyxsoc_table
  of_spike : IsTable spike_table
  of_qemu : IsTable qemu_table

table-InPlace : (l : List (ℕ × Handler)) → IsTable l → InPlace l
unfolding am_devreg
table-InPlace l of_native = search tt
table-InPlace l of_nemu = search tt
table-InPlace l of_npc = search tt
table-InPlace l of_ysyxsoc = search tt
table-InPlace l of_spike = search tt
table-InPlace l of_qemu = search tt

-- For each of the tables, after ioe_init has filled it up, an access to a register below 128 calls
-- a function, never NULL: the one that is written for this register if the table lists it, and
-- fail if it does not.
pub ioe_read-IsServed :
    (l : List (ℕ × Handler)) (reg : ℕ)
    → IsTable l
    → reg < 128
    → (h : Handler) × (ioe_read reg (set_fail 128 (initialized l)) ≡ some h) × IsServed l reg h
unfolding ioe_read
ioe_read-IsServed l reg table low =
    let filled : set_fail 128 (initialized l) reg ≡ or_fail (initialized l reg) =
      set_fail_lem 128 reg (initialized l) ∙ rw (lt→ltb reg 128 low) refl in
    elim (Option-cases (initialized l reg)) [
      | inl e ↦ (on_fail, rw (lt→ltb reg 128 low) (filled ∙ ap or_fail e), missing e)
      | inr (h, e) ↦ (
        h,
        rw (lt→ltb reg 128 low) (filled ∙ ap or_fail e),
        own h e (initialized-InPlace l reg h (table-InPlace l table) e),
      )
    ]

pub set_fail-listed :
    (l : List (ℕ × Handler)) (reg : ℕ) (h : Handler)
    → initialized l reg ≡ some h
    → reg < 128
    → set_fail 128 (initialized l) reg ≡ some h
set_fail-listed l reg h e low =
    set_fail_lem 128 reg (initialized l) ∙ rw (lt→ltb reg 128 low) (ap or_fail e)
