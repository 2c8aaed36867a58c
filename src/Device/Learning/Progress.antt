-- ===== src/Device/Learning/Progress.antt =====
-- src/learn.cpp, pollLearn: a session moves towards its end.
use homekit_rf_ir_blaster.Base.{
  ℕ, ◌%◌, ◌^◌, ◌≤◌, ◌≡◌, ◌⊎◌, inl, inr, refl, ◌∙◌, Bool, true, false, not, List, [], ◌∷◌, Option,
  none, some, arith, Bool-cases,
}
use homekit_rf_ir_blaster.Learn.Match.{Source}
use homekit_rf_ir_blaster.Learn.Track.{Placed, feed_track}
use homekit_rf_ir_blaster.Learn.Machine.{
  Machine, State, idle, listening, captured, failed, capture, check_rolling, conclude, listen,
  feed_burst, tick, fail, track_of, set_track, is_listening,
}
use homekit_rf_ir_blaster.Device.Rmt.{RmtSymbol}
use homekit_rf_ir_blaster.Device.Radio.{Band}
use homekit_rf_ir_blaster.Device.Learning.Quiet.{drain_all-IsKept}
use homekit_rf_ir_blaster.Device.Learning.{
  Driver, Frames, source_of, feed_ir, feed_rf, turn_ir, turn_rf, drain_ir, drain_rf, drain_all,
  finish_poll, poll_learn,
}

abbrev pub is_done : State → Bool
is_done idle = false
is_done listening = false
is_done captured = true
is_done failed = true

-- Listening until the deadline, or done.
abbrev pub IsUnderWay : ℕ → Machine → Type 0
IsUnderWay deadline m = ((m.state ≡ listening) × (m.deadline ≡ deadline)) ⊎ (is_done m.state ≡ true)

conclude-IsUnderWay :
    (src : Source) (cl : Option ℕ) (deadline : ℕ) (m : Machine)
    → IsUnderWay deadline m
    → IsUnderWay deadline (conclude src cl m)
unfolding conclude capture check_rolling fail
conclude-IsUnderWay src none deadline m k = ground arith
conclude-IsUnderWay src (some i) deadline m k = ground arith

set_track-IsUnderWay :
    (src : Source) (p : Placed) (deadline : ℕ) (m : Machine)
    → IsUnderWay deadline m
    → IsUnderWay deadline (set_track src p.track m)
set_track-IsUnderWay Source.rf315 p deadline m k = k
set_track-IsUnderWay Source.rf433 p deadline m k = k
set_track-IsUnderWay Source.ir p deadline m k = k

feed_burst-IsUnderWay :
    (src : Source) (pulses : List ℕ) (hz now deadline : ℕ) (m : Machine)
    → IsUnderWay deadline m
    → IsUnderWay deadline (feed_burst src pulses hz now m)
unfolding feed_burst listen
feed_burst-IsUnderWay src pulses hz now deadline m k =
    let p = feed_track src pulses hz now (track_of src m) in
    let active : Machine = record m { saw_activity = true } in
    ground (
      arith,
      conclude-IsUnderWay src p.index deadline (set_track src p.track active),
      set_track-IsUnderWay src p deadline active,
    )

feed_ir-IsUnderWay :
    (now deadline : ℕ) (o : Option (List ℕ × ℕ)) (m : Machine)
    → IsUnderWay deadline m
    → IsUnderWay deadline (feed_ir now o m)
feed_ir-IsUnderWay now deadline none m k = k
feed_ir-IsUnderWay now deadline (some (out, hz)) m k =
    feed_burst-IsUnderWay Source.ir out hz now deadline m k

feed_rf-IsUnderWay :
    (band : Band) (now deadline : ℕ) (o : Option (List ℕ)) (m : Machine)
    → IsUnderWay deadline m
    → IsUnderWay deadline (feed_rf band now o m)
feed_rf-IsUnderWay band now deadline none m k = k
feed_rf-IsUnderWay band now deadline (some out) m k =
    feed_burst-IsUnderWay (source_of band) out 0 now deadline m k

drain_ir-IsUnderWay :
    (now deadline : ℕ) (frames : List (List RmtSymbol)) (d : Driver)
    → IsUnderWay deadline d.machine
    → IsUnderWay deadline (drain_ir now frames d).machine
unfolding drain_ir
drain_ir-IsUnderWay now deadline [] d k = k
drain_ir-IsUnderWay now deadline (frame ∷ frames) d k =
    let fed : IsUnderWay deadline (turn_ir now frame d).1.machine =
      unfold turn_ir in feed_ir-IsUnderWay now deadline _ d.machine k in
    let rest = drain_ir-IsUnderWay now deadline frames (turn_ir now frame d).1 fed in ground arith

drain_rf-IsUnderWay :
    (band : Band) (now deadline : ℕ) (frames : List (List RmtSymbol)) (d : Driver)
    → IsUnderWay deadline d.machine
    → IsUnderWay deadline (drain_rf band now frames d).machine
unfolding drain_rf
drain_rf-IsUnderWay band now deadline [] d k = k
drain_rf-IsUnderWay band now deadline (frame ∷ frames) d k =
    let fed : IsUnderWay deadline (turn_rf band now frame d).1.machine =
      unfold turn_rf in feed_rf-IsUnderWay band now deadline _ d.machine k in
    let rest = drain_rf-IsUnderWay band now deadline frames (turn_rf band now frame d).1 fed in
    ground arith

tick-IsUnderWay :
    (now deadline : ℕ) (m : Machine)
    → IsUnderWay deadline m
    → IsUnderWay deadline (tick now m) × (deadline ≤ now → is_done (tick now m).state ≡ true)
unfolding tick fail
tick-IsUnderWay now deadline m k = ground arith

not_listening : (st : State) → is_listening st ≡ false → st ≡ listening → ⊥
not_listening idle e h = cc h
not_listening listening e h = cc e
not_listening captured e h = cc h
not_listening failed e h = cc h

finish_poll-active :
    (now : ℕ) (d : Driver)
    → d.active ≡ true
    → (finish_poll now d).machine.state ≡ listening
    → (finish_poll now d).active ≡ true
unfolding finish_poll
finish_poll-active now d a = elim (Bool-cases (is_listening (tick now d.machine).state)) [
  | inl e ↦ rw e (λ h. a)
  | inr e ↦ rw e (λ h. absurd (not_listening (tick now d.machine).state e h))
]

finish_poll-machine : (now : ℕ) (d : Driver) → (finish_poll now d).machine ≡ tick now d.machine
unfolding finish_poll
finish_poll-machine now d = elim (Bool-cases (is_listening (tick now d.machine).state)) [
  | inl e ↦ rw e refl
  | inr e ↦ rw e refl
]

not_active : (d : Driver) → d.active ≡ true → not d.active ≡ false
not_active d a = rw a refl

-- A poll that leaves the machine listening leaves the session active.
pub poll_learn-active :
    (now : ℕ) (f : Frames) (d : Driver)
    → d.active ≡ true
    → (poll_learn now f d).machine.state ≡ listening
    → (poll_learn now f d).active ≡ true
unfolding poll_learn
poll_learn-active now f d a = rw (not_active d a) (
    finish_poll-active (now % 2 ^ 32) (drain_all (now % 2 ^ 32) f d)
      ((drain_all-IsKept (now % 2 ^ 32) f d).active ∙ a))

-- While its session is active, a poll leaves the machine listening until the deadline or done; at or
-- after the deadline, as the 32-bit clock shows it, it leaves it done.
pub poll_learn-IsUnderWay :
    (now deadline : ℕ) (f : Frames) (d : Driver)
    → d.active ≡ true
    → IsUnderWay deadline d.machine
    → IsUnderWay deadline (poll_learn now f d).machine
      × (deadline ≤ now % 2 ^ 32 → is_done (poll_learn now f d).machine.state ≡ true)
unfolding poll_learn drain_all
poll_learn-IsUnderWay now deadline f d a k =
    let shown = now % 2 ^ 32 in
    let drained = drain_rf-IsUnderWay Band.mhz433 shown deadline f.rf433 _ (
      drain_rf-IsUnderWay Band.mhz315 shown deadline f.rf315 _
        (drain_ir-IsUnderWay shown deadline f.ir d k)) in
    rw (not_active d a, finish_poll-machine shown (drain_all shown f d))
      (tick-IsUnderWay shown deadline _ drained)
