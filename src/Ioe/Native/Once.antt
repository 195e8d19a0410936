-- ===== src/Ioe/Native/Once.antt =====
-- am/src/native/ioe.c: the devices are set up once, before the first access to a register.
use mathlib.Core.List.{append-nil, append_assoc}
use openperf_abstract_machin.Prelude.{
  ℕ, ◌<◌, ◌≡◌, refl, sym, ap, ◌∙◌, Bool, true, false, none, some, List, [], ◌∷◌, ◌++◌, lt→ltb,
}
use openperf_abstract_machin.Ioe.{Handler, initialized, set_fail, ioe_read}
use openperf_abstract_machin.Ioe.Tables.{native_table}
use openperf_abstract_machin.Ioe.Serve.{set_fail-listed}
use openperf_abstract_machin.Ioe.Native.{
  IoeCall, set_up, call, NativeIoe, native_start, native_ioe_init, am_ioe_init, is_fail, called,
  do_io, accesses,
}

-- Registers of the native table, and the functions that they stand for.
pub data Registers : List ℕ → List Handler → Type 0 where
  no_register : Registers [] []
  register :
      {l : List ℕ} {hs : List Handler} (reg : ℕ) (h : Handler)
      → reg < 128
      → is_fail h ≡ false
      → initialized native_table reg ≡ some h
      → Registers l hs
      → Registers (reg ∷ l) (h ∷ hs)

abbrev calls : List Handler → List IoeCall
calls [] = []
calls (h ∷ hs) = call h ∷ calls hs

-- The state in which the devices are set up and have seen some calls.
abbrev ready : Bool → List IoeCall → NativeIoe
ready has_ioe seen = record {
  has_ioe = has_ioe;
  ioe_init_done = true;
  lut = set_fail 128 (initialized native_table);
  seen = seen;
}

do_io-ready :
    (has_ioe : Bool) (seen : List IoeCall) (reg : ℕ) (h : Handler)
    → reg < 128
    → is_fail h ≡ false
    → initialized native_table reg ≡ some h
    → do_io reg (ready has_ioe seen) ≡ some (ready has_ioe (seen ++ (call h ∷ [])))
unfolding do_io ioe_read called
do_io-ready has_ioe seen reg h low own listed =
    rw (lt→ltb reg 128 low, set_fail-listed native_table reg h listed low, own) refl

accesses-ready :
    (has_ioe : Bool) (seen : List IoeCall) (l : List ℕ) (hs : List Handler)
    → Registers l hs
    → accesses l (ready has_ioe seen) ≡ some (ready has_ioe (seen ++ calls hs))
unfolding accesses
accesses-ready has_ioe seen l hs no_register =
    ap (λ k. some (ready has_ioe k)) (sym (append-nil seen))
accesses-ready has_ioe seen l hs (register {l = t} {hs = ks} reg h low own listed rest) =
    rw (do_io-ready has_ioe seen reg h low own listed) (
      accesses-ready has_ioe (seen ++ (call h ∷ [])) t ks rest
      ∙ ap (λ k. some (ready has_ioe k)) (append_assoc seen (call h ∷ []) (calls ks)))

do_io-first :
    (reg : ℕ) (h : Handler)
    → reg < 128
    → is_fail h ≡ false
    → initialized native_table reg ≡ some h
    → do_io reg (record native_start { has_ioe = true }) ≡ some (ready true (set_up ∷ call h ∷ []))
unfolding do_io am_ioe_init ioe_read called
do_io-first reg h low own listed =
    rw (lt→ltb reg 128 low, set_fail-listed native_table reg h listed low, own) refl

accesses-first :
    (l : List ℕ) (hs : List Handler) (reg : ℕ) (h : Handler)
    → reg < 128
    → is_fail h ≡ false
    → initialized native_table reg ≡ some h
    → Registers l hs
    → accesses (reg ∷ l) (record native_start { has_ioe = true })
      ≡ some (ready true (set_up ∷ call h ∷ calls hs))
unfolding accesses
accesses-first l hs reg h low own listed rest =
    rw (do_io-first reg h low own listed) (accesses-ready true (set_up ∷ call h ∷ []) l hs rest)

-- On the boot processor, ioe_init before any access to a register succeeds and sets no device up.
-- Accesses to registers that the table lists, at least one, then set the devices up once, before
-- the function of the first register is called, and call the functions of the registers in order.
-- If ioe_init is called after them, it panics.
pub accesses-once :
    (l : List ℕ) (hs : List Handler) (reg : ℕ) (h : Handler)
    → reg < 128
    → is_fail h ≡ false
    → initialized native_table reg ≡ some h
    → Registers l hs
    → (s s' : NativeIoe) × (native_ioe_init 0 native_start ≡ some s)
      × (s.seen ≡ [])
      × (accesses (reg ∷ l) s ≡ some s')
      × (s'.seen ≡ set_up ∷ call h ∷ calls hs)
      × (native_ioe_init 0 s' ≡ none)
unfolding native_ioe_init
accesses-once l hs reg h low own listed rest = (
  record native_start { has_ioe = true },
  ready true (set_up ∷ call h ∷ calls hs),
  refl,
  refl,
  accesses-first l hs reg h low own listed rest,
  refl,
  refl,
)
