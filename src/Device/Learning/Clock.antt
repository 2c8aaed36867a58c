-- ===== src/Device/Learning/Clock.antt =====
-- src/learn.cpp: the clock that the driver hands to the capture machine, which is the 32-bit
-- `millis()` in a uint64_t.
use homekit_rf_ir_blaster.Base.{
  ℕ, ◌+◌, ◌%◌, ◌^◌, ◌≤◌, ◌<◌, ◌≡◌, refl, List, [], ◌∷◌, arith, true, map,
}
use homekit_rf_ir_blaster.Learn.Machine.{listening, begin, tick, window_ms}
use homekit_rf_ir_blaster.Device.Learning.{
  Driver, StartAnswers, Frames, polls, start_learn, drain_ir, drain_rf, drain_all, finish_poll,
  poll_learn, call, calls,
}

abbrev pub silence : Frames
silence = record { ir = []; rf315 = []; rf433 = [] }

-- A session that is under way, with its deadline.
record Waits (deadline : ℕ) (d : Driver) : Type 0 where
  active : d.active ≡ true
  waits : d.machine.state ≡ listening
  ends : d.machine.deadline ≡ deadline

poll_learn-Waits :
    (deadline now : ℕ) (d : Driver)
    → now % 2 ^ 32 < deadline
    → Waits deadline d
    → Waits deadline (poll_learn now silence d)
unfolding poll_learn drain_all drain_ir drain_rf finish_poll tick
poll_learn-Waits deadline now d early k = record {
  active = ground arith;
  waits = ground arith;
  ends = ground arith;
}

calls-Waits :
    (deadline : ℕ) (times : List ℕ) (d : Driver)
    → 2 ^ 32 ≤ deadline
    → Waits deadline d
    → Waits deadline (calls (map (λ now. polls now silence) times) d)
unfolding calls call
calls-Waits deadline [] d late k = k
calls-Waits deadline (now ∷ times) d late k =
    calls-Waits deadline times (poll_learn now silence d) late
      (poll_learn-Waits deadline now d (omega (arith, late)) k)

-- A session that starts in the last 30 seconds before the 32-bit clock wraps stays open: while
-- nothing is received, no poll closes it, at whatever time.
pub start_learn-stays_open :
    (start : ℕ) (k : StartAnswers) (times : List ℕ) (d : Driver)
    → 2 ^ 32 ≤ start % 2 ^ 32 + window_ms
    → (calls (map (λ now. polls now silence) times) (start_learn start k d)).machine.state
      ≡ listening
unfolding start_learn begin
start_learn-stays_open start k times d late =
    (calls-Waits (start % 2 ^ 32 + window_ms) times (start_learn start k d) late
      (record { active = refl; waits = refl; ends = refl })).waits
