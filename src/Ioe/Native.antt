-- ===== src/Ioe/Native.antt =====
-- am/src/native/ioe.c: the devices are set up by the first access, and not before.
pub mod Once
use openperf_abstract_machin.Prelude.{
  ℕ, Bool, true, false, Option, none, some, List, [], ◌∷◌, ◌++◌, ◌==◌, if◌then◌else◌, ◌>>=◌,
}
use openperf_abstract_machin.Ioe.{Handler, on_fail, am_devreg, Lut, initialized, set_fail, ioe_read}
use openperf_abstract_machin.Ioe.Tables.{native_table}

-- What the devices see: that they are set up, and the calls of their functions.
pub data IoeCall : Type 0 where
  set_up : IoeCall
  call : Handler → IoeCall

pub record NativeIoe : Type 0 where
  pub has_ioe : Bool
  pub ioe_init_done : Bool
  pub lut : Lut
  pub seen : List IoeCall

abbrev pub native_start : NativeIoe
native_start = record {
  has_ioe = false;
  ioe_init_done = false;
  lut = initialized native_table;
  seen = [];
}

-- `ioe_init` on a processor; a panic is `none`.
pub native_ioe_init : ℕ → NativeIoe → Option NativeIoe
native_ioe_init cpu s =
    if cpu == 0 then if s.ioe_init_done then none else some (record s { has_ioe = true }) else none

-- `__am_ioe_init`
pub am_ioe_init : NativeIoe → NativeIoe
am_ioe_init s = record s {
  lut = set_fail 128 s.lut;
  ioe_init_done = true;
  seen = s.seen ++ (set_up ∷ []);
}

unfoldable pub is_fail : Handler → Bool
is_fail on_fail = true
is_fail _ = false

-- The function that the table gives is called; `fail` panics.
pub called : NativeIoe → Handler → Option NativeIoe
called s h = if is_fail h then none else some (record s { seen = s.seen ++ (call h ∷ []) })

pub do_io : ℕ → NativeIoe → Option NativeIoe
do_io reg s =
    let s1 = if s.ioe_init_done then s else am_ioe_init s in
    ioe_read reg s1.lut >>= λ h. called s1 h

-- The same accesses one after the other.
pub accesses : List ℕ → NativeIoe → Option NativeIoe
accesses [] s = some s
accesses (reg ∷ l) s = do_io reg s >>= λ s1. accesses l s1
