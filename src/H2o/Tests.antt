-- ===== src/H2o/Tests.antt =====
-- A run of two threads of each kind: H, H and O are printed, the counters are reset, and H follows.
use mod_cpp.Common.{ℕ, ◌*◌, ◌<◌, ◌≡◌, ◌≢◌, refl, List, [], ◌∷◌, arith}
use mod_cpp.H2o.{hydrogen, oxygen, sleeping, System, turn, start, take_turn, Reach, begin, later}
use mod_cpp.H2o.Output.{IsWater, output-IsWater}
use mod_cpp.H2o.Progress.{never_all_asleep}

abbrev run : System → List ℕ → System
run s [] = s
run s (i ∷ l) = run (turn 2 s i) l

abbrev sample : System
sample = run (start 2) (0 ∷ 1 ∷ 2 ∷ 3 ∷ 0 ∷ [])

sample-Reach : Reach 2 sample
unfolding turn
sample-Reach =
    later
      (later
        (later
          (later (later begin (take_turn 0 (omega arith) refl)) (take_turn 1 (omega arith) refl))
          (take_turn 2 (omega arith) refl))
        (take_turn 3 (omega arith) refl))
      (take_turn 0 (omega arith) refl)

sample_output : sample.shared.out ≡ hydrogen ∷ oxygen ∷ hydrogen ∷ hydrogen ∷ []
unfolding turn
sample_output = refl

output-IsWater_example : IsWater sample.shared
output-IsWater_example = output-IsWater sample-Reach

never_all_asleep_example : (i : ℕ) × (i < 2 * 2) × (sample.pc i ≢ sleeping)
never_all_asleep_example = never_all_asleep sample sample-Reach (omega arith)
