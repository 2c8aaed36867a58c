-- ===== src/Learn/Machine.antt =====
-- lib/learn/learn_machine.h and learn_machine.cpp: the capture state machine. Times are ms in a
-- uint64_t, which does not wrap; a buffer that is null in the source is no argument here.
pub mod Captured
pub mod History
pub mod Window
use homekit_rf_ir_blaster.Base.{
  ℕ, ◌+◌, ◌-◌, ◌*◌, ◌/◌, ◌%◌, ◌^◌, ◌≤◌, ◌≡◌, refl, Bool, true, false, ◌&&◌, ◌||◌, not, List, [],
  ◌∷◌, ◌++◌, Option, none, some, ltb, leb, ◌==◌, if◌then◌else◌, length, map, get_or, null, max, min,
  replicate,
}
use homekit_rf_ir_blaster.Config.Model.{CodeKind, StoredCode, empty_code, max_frame_repeat}
use homekit_rf_ir_blaster.Learn.Match.{Source, is_ir}
use homekit_rf_ir_blaster.Learn.Merge.{stored_frame_count}
use homekit_rf_ir_blaster.Learn.Track.{
  Cluster, Track, Placed, empty_cluster, empty_track, matches_needed, rf_presses_needed, feed_track,
  is_rolling,
}

pub data State : Type 0 where
  idle listening captured failed : State

pub data FailReason : Type 0 where
  timeout noisy rolling : FailReason

abbrev pub window_ms : ℕ
window_ms = 30000

abbrev pub default_trail_gap_us : ℕ
default_trail_gap_us = 30000

abbrev pub min_trail_gap_us : ℕ
min_trail_gap_us = 5000

pub record Machine : Type 0 where
  pub track315 : Track
  pub track433 : Track
  pub track_ir : Track
  pub code : StoredCode
  pub deadline : ℕ
  pub state : State
  pub reason : FailReason
  pub saw_activity : Bool

abbrev pub is_listening : State → Bool
is_listening idle = false
is_listening listening = true
is_listening captured = false
is_listening failed = false

abbrev pub is_captured : State → Bool
is_captured idle = false
is_captured listening = false
is_captured captured = true
is_captured failed = false

-- tracks_[src].
abbrev pub track_of : Source → Machine → Track
track_of Source.rf315 m = m.track315
track_of Source.rf433 m = m.track433
track_of Source.ir m = m.track_ir

abbrev pub set_track : Source → Track → Machine → Machine
set_track Source.rf315 t m = record m { track315 = t }
set_track Source.rf433 t m = record m { track433 = t }
set_track Source.ir t m = record m { track_ir = t }

abbrev pub clear_tracks : Machine → Machine
clear_tracks m = record m { track315 = empty_track; track433 = empty_track; track_ir = empty_track }

-- Also the state of a new machine.
unfoldable pub reset : Machine
reset = record {
  track315 = empty_track;
  track433 = empty_track;
  track_ir = empty_track;
  code = empty_code;
  deadline = 0;
  state = idle;
  reason = timeout;
  saw_activity = false;
}

-- `begin` and `cancel` forget whatever there was.
unfoldable pub begin : ℕ → Machine → Machine
unfolding reset
begin now m = record reset { state = listening; deadline = now + window_ms }

unfoldable pub cancel : Machine → Machine
unfolding reset
cancel m = reset

unfoldable pub fail : FailReason → Machine → Machine
fail r m = record (clear_tracks m) { reason = r; state = failed }

unfoldable pub tick : ℕ → Machine → Machine
unfolding fail
tick now m =
    if is_listening m.state && leb m.deadline now
    then fail (if m.saw_activity then noisy else timeout) m
    else m

-- takeCode: the code, and the machine that is left.
unfoldable pub take_code : Machine → StoredCode × Machine
unfolding reset
take_code m = if is_captured m.state then (m.code, reset) else (empty_code, m)

-- The rounded average of an entry, as a uint16_t.
abbrev pub average : ℕ → ℕ → ℕ
average count total = (total + count / 2) / count % 2 ^ 16

-- The measured gap between captures, else the default.
unfoldable pub measured_gap : Cluster → ℕ
measured_gap c =
    if ltb 0 c.gap_count
    then (c.gap_sum_us + c.gap_count / 2) / c.gap_count
    else default_trail_gap_us

unfoldable pub clamp_gap : ℕ → ℕ
clamp_gap gap = min (max gap min_trail_gap_us) 65535

unfoldable pub stored_frame : Cluster → List ℕ
stored_frame c = map (average c.count) c.sum

unfoldable pub captured_rf : ℕ → Track → Cluster → StoredCode
unfolding measured_gap clamp_gap stored_frame
captured_rf freq t c =
    let gap = if ltb 0 t.reset_gap_us then t.reset_gap_us else measured_gap c in
    let frames = if ltb t.frame_count 1 then stored_frame_count else t.frame_count in
    record empty_code {
      kind = CodeKind.rf;
      freq_mhz = freq;
      pulses = stored_frame c ++ (clamp_gap gap % 2 ^ 16 ∷ []);
      frame_repeat = min frames max_frame_repeat % 256;
    }

unfoldable pub captured_ir : Cluster → StoredCode
unfolding measured_gap clamp_gap stored_frame
captured_ir c = record empty_code {
  kind = CodeKind.ir;
  carrier_hz = average c.count c.carrier_sum;
  pulses =
      if length c.repr % 2 == 0
      then stored_frame c
      else stored_frame c ++ (clamp_gap (measured_gap c) % 2 ^ 16 ∷ []);
}

unfoldable pub captured_code : Source → Track → Cluster → StoredCode
unfolding captured_rf captured_ir
captured_code Source.rf315 t c = captured_rf 315 t c
captured_code Source.rf433 t c = captured_rf 433 t c
captured_code Source.ir t c = captured_ir c

unfoldable pub capture : Source → Cluster → Machine → Machine
unfolding captured_code
capture src c m = record (clear_tracks m) {
  code = captured_code src (track_of src m) c;
  state = captured;
}

unfoldable pub qualifies : Source → Cluster → Bool
qualifies src c = leb matches_needed c.count && (is_ir src || leb rf_presses_needed c.group_count)

unfoldable pub check_rolling : Source → Machine → Machine
unfolding fail
check_rolling src m =
    if is_ir src then m else if is_rolling (track_of src m) then fail rolling m else m

-- The cluster that took the burst is captured if it qualifies.
unfoldable pub conclude : Source → Option ℕ → Machine → Machine
unfolding capture qualifies check_rolling
conclude src none m = check_rolling src m
conclude src (some i) m =
    let c = get_or (track_of src m).clusters i empty_cluster in
    if qualifies src c then capture src c m else check_rolling src m

unfoldable pub listen : Source → Placed → Machine → Machine
unfolding conclude
listen src p m = conclude src p.index (set_track src p.track (record m { saw_activity = true }))

unfoldable pub feed_burst : Source → List ℕ → ℕ → ℕ → Machine → Machine
unfolding listen
feed_burst src pulses carrier_hz now m =
    if not (is_listening m.state) || null pulses
    then m
    else listen src (feed_track src pulses carrier_hz now (track_of src m)) m

-- What the driver does to the machine between two polls.
pub data Event : Type 0 where
  begins ticks : ℕ → Event
  cancels takes : Event
  bursts : Source → List ℕ → ℕ → ℕ → Event

unfoldable pub step : Event → Machine → Machine
unfolding begin cancel tick take_code feed_burst
step (begins now) m = begin now m
step cancels m = cancel m
step takes m = (take_code m).1
step (ticks now) m = tick now m
step (bursts src pulses carrier_hz now) m = feed_burst src pulses carrier_hz now m

unfoldable pub run : List Event → Machine → Machine
unfolding step
run [] m = m
run (e ∷ es) m = run es (step e m)
