-- ===== src/Tests/DeviceRuns.antt =====
-- Runs of src/rmt_pulse.h, on a mark that needs two halves and a space, and of src/web_auth.cpp.
use homekit_rf_ir_blaster.Base.{ℕ, ◌≡◌, true, false, List, [], ◌∷◌, arith}
use homekit_rf_ir_blaster.Device.Rmt.{pack_pulses_to_symbols}
use homekit_rf_ir_blaster.Device.Rmt.Timing.{pair_time, time_at, time_at-pack_pulses_to_symbols}

abbrev long_mark : List ℕ
long_mark = 40000 ∷ 560 ∷ []

time_at-pack_pulses_to_symbols_example :
    (time_at 1 (pack_pulses_to_symbols long_mark 4) ≡ pair_time true long_mark)
    × (time_at 0 (pack_pulses_to_symbols long_mark 4) ≡ pair_time false long_mark)
time_at-pack_pulses_to_symbols_example =
    time_at-pack_pulses_to_symbols long_mark 4 (ground arith) (omega arith)
