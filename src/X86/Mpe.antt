-- ===== src/X86/Mpe.antt =====
-- am/src/x86/qemu/mpe.c and _start_c of trm.c: how the processors start. A processor does one step at
-- a time, in any order with the others; a step is one access to the variables that they share, and
-- what it does before the next one. A processor that the local controller starts runs the boot record,
-- which jumps to _start_c.
pub mod Order
pub mod Progress
pub mod Rounds
pub mod Start
mod Tests
use openperf_abstract_machin.Prelude.{
  ℕ, zero, suc, ◌+◌, Bool, true, false, List, [], ◌∷◌, ltb, ◌==◌, if◌then◌else◌,
}

-- Where the boot processor is: before mpe_init, at the test of the loop, in the loop over xchg, before
-- the call of the entry, and in it.
pub data BootPc : Type 0 where
  before_init : BootPc
  at_cpu : ℕ → BootPc
  waiting_for : ℕ → BootPc
  before_entry : BootPc
  running : ℕ → BootPc

-- Where another processor is: not started, at _start_c, before its xchg, before the call of the entry,
-- in it, and in __am_bootcpu_init.
pub data ApPc : Type 0 where
  stopped : ApPc
  at_start : ApPc
  before_xchg : ApPc
  before_call : ApPc
  in_entry : ℕ → ApPc
  in_bootcpu : ApPc

pub record Mpe : Type 0 where
  pub boot : BootPc
  pub ap : ℕ → ApPc
  pub ap_ready : ℕ
  pub is_ap : Bool
  pub user_entry : ℕ

abbrev pub put : ℕ → ApPc → (ℕ → ApPc) → ℕ → ApPc
put i pc ap j = if j == i then pc else ap j

-- _start_c and othercpu_entry.
pub ap_next : Bool → ℕ → ApPc → ApPc
ap_next is_ap user_entry stopped = stopped
ap_next is_ap user_entry at_start = if is_ap then before_xchg else in_bootcpu
ap_next is_ap user_entry before_xchg = before_call
ap_next is_ap user_entry before_call = in_entry user_entry
ap_next is_ap user_entry (in_entry e) = in_entry e
ap_next is_ap user_entry in_bootcpu = in_bootcpu

-- `ap_ready` after the step; `xchg(&ap_ready, 1)`.
pub ap_xchg : ApPc → ℕ → ℕ
ap_xchg before_xchg r = 1
ap_xchg _ r = r

pub ap_step : ℕ → Mpe → Mpe
ap_step i s = record s {
  ap = put i (ap_next s.is_ap s.user_entry (s.ap i)) s.ap;
  ap_ready = ap_xchg (s.ap i) s.ap_ready;
}

-- `mpe_init` with the given entry.
pub boot_next : ℕ → ℕ → BootPc → Mpe → Mpe
boot_next ncpu entry before_init s = record s { boot = at_cpu 1; user_entry = entry }
boot_next ncpu entry (at_cpu cpu) s =
    if ltb cpu ncpu
    then record s { boot = waiting_for cpu; is_ap = true; ap = put cpu at_start s.ap }
    else record s { boot = before_entry }
boot_next ncpu entry (waiting_for cpu) s = record s {
  boot = if s.ap_ready == 1 then at_cpu (cpu + 1) else waiting_for cpu;
  ap_ready = 0;
}
boot_next ncpu entry before_entry s = record s { boot = running s.user_entry }
boot_next ncpu entry (running e) s = record s { boot = running e }

pub step : ℕ → ℕ → ℕ → Mpe → Mpe
step ncpu entry cpu s = if cpu == 0 then boot_next ncpu entry s.boot s else ap_step cpu s

-- The processors do steps in the order of the list.
pub run : ℕ → ℕ → List ℕ → Mpe → Mpe
run ncpu entry [] s = s
run ncpu entry (cpu ∷ l) s = run ncpu entry l (step ncpu entry cpu s)

-- Before mpe_init: `ap_ready` is 0, and the other processors do not run.
abbrev pub power_on : Bool → ℕ → Mpe
power_on is_ap user_entry = record {
  boot = before_init;
  ap = λ i. stopped;
  ap_ready = 0;
  is_ap = is_ap;
  user_entry = user_entry;
}
