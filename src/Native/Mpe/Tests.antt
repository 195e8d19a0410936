-- ===== src/Native/Mpe/Tests.antt =====
-- Two processes.
use openperf_abstract_machin.Prelude.{ℕ, ◌≡◌, refl, true, List, [], ◌∷◌}
use openperf_abstract_machin.Native.Mpe.{
  parent_next, child_next, native_step, native_run, native_boot,
}
use openperf_abstract_machin.Native.Mpe.Order.{native_run-child_runs}

abbrev schedule : List ℕ
schedule = 0 ∷ 1 ∷ 0 ∷ 0 ∷ 1 ∷ 0 ∷ 1 ∷ []

abbrev client_cpu : ℕ
client_cpu = 1

native_run-child_runs_example :
    (client_cpu ≡ 1) × ((native_run 2 schedule (native_boot true)).ioe_ready ≡ true)
unfolding native_run native_step parent_next child_next
native_run-child_runs_example = native_run-child_runs 2 1 1 schedule refl
