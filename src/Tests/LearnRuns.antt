-- ===== src/Tests/LearnRuns.antt =====
-- Runs of lib/learn: an infrared remote that is pressed three times, and a window that runs out.
use homekit_rf_ir_blaster.Base.{ℕ, ◌≡◌, refl, List, [], ◌∷◌, All, arith}
use homekit_rf_ir_blaster.Learn.Match.{
  Source, durations_match, well_formed, bursts_match, entries_match,
}
use homekit_rf_ir_blaster.Learn.Track.{feed_track}
use homekit_rf_ir_blaster.Learn.Track.Invariant.{IsBurst}
use homekit_rf_ir_blaster.Learn.Machine.{captured, Event, begins, bursts, run, reset, take_code}
use homekit_rf_ir_blaster.Learn.Machine.Captured.{IsCaptured}
use homekit_rf_ir_blaster.Learn.Machine.History.{IsInput, run-take_code-IsCaptured}

abbrev ir_pulses : List ℕ
ir_pulses =
    9000 ∷ 4500 ∷ 560 ∷ 560 ∷ 560 ∷ 1690 ∷ 560 ∷ 560 ∷ 560 ∷ 1690 ∷ 560 ∷ 1690 ∷ 560 ∷ 560 ∷ 560
    ∷ 1690 ∷ 560 ∷ []

abbrev rf_pulses : List ℕ
rf_pulses = 350 ∷ 1050 ∷ 350 ∷ 1050 ∷ 1050 ∷ 350 ∷ 350 ∷ 1050 ∷ 1050 ∷ []

abbrev press : ℕ → Event
press now = bursts Source.ir ir_pulses 38000 now

abbrev three_presses : List Event
three_presses = begins 0 ∷ press 1000 ∷ press 2000 ∷ press 3000 ∷ []

ir_pulses-IsBurst : IsBurst Source.ir ir_pulses
ir_pulses-IsBurst = record { ranged = ground arith; marked = tt }

three_presses-IsInput : All IsInput three_presses
three_presses-IsInput = (tt, (ir_pulses-IsBurst, (ir_pulses-IsBurst, (ir_pulses-IsBurst, tt))))

three_presses_captured : (run three_presses reset).state ≡ captured
unfolding run feed_track well_formed bursts_match entries_match durations_match
three_presses_captured = refl

run-take_code-IsCaptured_example : IsCaptured (take_code (run three_presses reset)).0
run-take_code-IsCaptured_example =
    run-take_code-IsCaptured three_presses three_presses-IsInput three_presses_captured
