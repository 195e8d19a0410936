-- ===== src/Native/Mpe.antt =====
-- mpe_init of am/src/native/mpe.c: processors as processes of Linux. A process does one step at a time,
-- in any order with the others; fork and the pipe do what Linux documents, and a process that reads
-- from the empty pipe waits.
pub mod Order
mod Tests
use openperf_abstract_machin.Prelude.{
  ℕ, zero, suc, ◌+◌, ◌-◌, Bool, true, false, not, ◌||◌, List, [], ◌∷◌, ltb, ◌==◌, if◌then◌else◌,
}

-- The parent: in the loop over fork, before __am_ioe_init, in the loop over write, and in the entry.
pub data ParentPc : Type 0 where
  forking : ℕ → ParentPc
  before_ioe : ParentPc
  writing : ℕ → ParentPc
  parent_runs : ParentPc

-- A child: not forked, before its read, and in the entry with its `cpuid`.
pub data ChildPc : Type 0 where
  no_child : ChildPc
  reading : ChildPc
  child_runs : ℕ → ChildPc

-- `pipe` counts the bytes that are in it.
pub record NativeMpe : Type 0 where
  pub parent : ParentPc
  pub child : ℕ → ChildPc
  pub pipe : ℕ
  pub has_ioe : Bool
  pub ioe_ready : Bool

abbrev pub put_child : ℕ → ChildPc → (ℕ → ChildPc) → ℕ → ChildPc
put_child i pc child j = if j == i then pc else child j

pub parent_next : ℕ → ParentPc → NativeMpe → NativeMpe
parent_next ncpu (forking i) s =
    if ltb i ncpu
    then record s { parent = forking (i + 1); child = put_child i reading s.child }
    else record s { parent = before_ioe }
parent_next ncpu before_ioe s = record s {
  parent = writing 1;
  ioe_ready = s.has_ioe || s.ioe_ready;
}
parent_next ncpu (writing i) s =
    if ltb i ncpu
    then record s { parent = writing (i + 1); pipe = s.pipe + 1 }
    else record s { parent = parent_runs }
parent_next ncpu parent_runs s = record s { parent = parent_runs }

pub child_next : ℕ → ChildPc → NativeMpe → NativeMpe
child_next i no_child s = s
child_next i reading s =
    if s.pipe == 0
    then s
    else record s { pipe = s.pipe - 1; child = put_child i (child_runs i) s.child }
child_next i (child_runs k) s = s

pub native_step : ℕ → ℕ → NativeMpe → NativeMpe
native_step ncpu i s = if i == 0 then parent_next ncpu s.parent s else child_next i (s.child i) s

pub native_run : ℕ → List ℕ → NativeMpe → NativeMpe
native_run ncpu [] s = s
native_run ncpu (i ∷ l) s = native_run ncpu l (native_step ncpu i s)

abbrev pub native_boot : Bool → NativeMpe
native_boot has_ioe = record {
  parent = forking 1;
  child = λ i. no_child;
  pipe = 0;
  has_ioe = has_ioe;
  ioe_ready = false;
}
