-- ===== src/X86/Mpe/Tests.antt =====
-- Two processors.
use openperf_abstract_machin.Prelude.{
  ℕ, zero, suc, ◌<◌, ◌≡◌, inl, inr, refl, arith, false, some, List, [], ◌∷◌, ◌++◌,
}
use openperf_abstract_machin.X86.Mpe.{run, power_on}
use openperf_abstract_machin.X86.Mpe.Order.{IsUp}
use openperf_abstract_machin.X86.Mpe.Start.{
  IsIn, Rounds, no_round, round, called, run-IsUp, run-called,
}

abbrev client : ℕ
client = 0x5000

abbrev turns : ℕ → List ℕ
turns zero = []
turns (suc n) = (1 ∷ 0 ∷ []) ++ turns n

both-IsIn : (i : ℕ) → i < 2 → IsIn i (1 ∷ 0 ∷ [])
unfolding IsIn
both-IsIn zero low = inr (inl refl)
both-IsIn (suc zero) low = inl refl
both-IsIn (suc (suc i)) low = absurd (omega arith)

turns-Rounds : (n : ℕ) → Rounds 2 n (turns n)
turns-Rounds zero = no_round
turns-Rounds (suc n) = round (1 ∷ 0 ∷ []) both-IsIn (turns-Rounds n)

run-called_example : called 1 (run 2 client (turns 13) (power_on false 0)) ≡ some client
run-called_example =
    run-called 2 client 1 13 (turns 13) false 0 (omega arith) (turns-Rounds 13) (omega arith)

run-IsUp_example :
    (client ≡ client) × IsUp client ((run 2 client (turns 13) (power_on false 0)).ap 1)
run-IsUp_example =
    run-IsUp 2 client (turns 13) false 0 client 1 (omega arith) (omega arith)
      (run-called 2 client 0 13 (turns 13) false 0 (omega arith) (turns-Rounds 13) (omega arith))
