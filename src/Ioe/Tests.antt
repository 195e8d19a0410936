-- ===== src/Ioe/Tests.antt =====
-- An access to a register that the table of NEMU lacks, and three accesses on Linux.
use openperf_abstract_machin.Prelude.{◌≡◌, refl, arith, none, some, [], ◌∷◌}
use openperf_abstract_machin.Ioe.{
  Handler, on_timer_config, on_timer_uptime, initialized, set_fail, ioe_read,
}
use openperf_abstract_machin.Ioe.Tables.{nemu_table}
use openperf_abstract_machin.Ioe.Serve.{IsServed, of_nemu, ioe_read-IsServed}
use openperf_abstract_machin.Ioe.Native.{
  set_up, call, is_fail, NativeIoe, native_start, native_ioe_init, accesses,
}
use openperf_abstract_machin.Ioe.Native.Once.{no_register, register, accesses-once}

ioe_read-IsServed_run :
    (h : Handler) × (ioe_read 2 (set_fail 128 (initialized nemu_table)) ≡ some h)
    × IsServed nemu_table 2 h
ioe_read-IsServed_run = ioe_read-IsServed nemu_table 2 of_nemu (omega arith)

accesses-once_example :
    (s s' : NativeIoe) × (native_ioe_init 0 native_start ≡ some s)
    × (s.seen ≡ [])
    × (accesses (4 ∷ 6 ∷ []) s ≡ some s')
    × (s'.seen ≡ set_up ∷ call on_timer_config ∷ call on_timer_uptime ∷ [])
    × (native_ioe_init 0 s' ≡ none)
unfolding initialized is_fail
accesses-once_example =
    accesses-once (6 ∷ []) (on_timer_uptime ∷ []) 4 on_timer_config (omega arith) refl refl
      (register 6 on_timer_uptime (omega arith) refl refl no_register)
