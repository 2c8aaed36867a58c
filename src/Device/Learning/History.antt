-- ===== src/Device/Learning/History.antt =====
-- src/learn.cpp over lib/learn/learn_machine.cpp: what a driver's calls do to its capture machine.
use homekit_rf_ir_blaster.Base.{
  ℕ, ◌%◌, ◌^◌, ◌≡◌, refl, ap, subst, ◌∙◌, Bool, false, ◌||◌, not, List, [], ◌∷◌, ◌++◌, Option, none,
  some, All, All-append, Bool-cases, inl, inr, arith,
}
use homekit_rf_ir_blaster.Config.Model.{max_pulses}
use homekit_rf_ir_blaster.Learn.Match.{Source}
use homekit_rf_ir_blaster.Learn.Track.Invariant.{IsBurst}
use homekit_rf_ir_blaster.Learn.Machine.{
  Machine, Event, begins, ticks, bursts, run, step, tick, reset, captured, is_listening,
}
use homekit_rf_ir_blaster.Learn.Machine.Captured.{IsCaptured}
use homekit_rf_ir_blaster.Learn.Machine.History.{IsInput, run-take_code-IsCaptured}
use homekit_rf_ir_blaster.Device.Rmt.{RmtSymbol}
use homekit_rf_ir_blaster.Device.Receive.{RfBand, collapse_band, poll_ir_burst, halves}
use homekit_rf_ir_blaster.Device.Receive.Bursts.{
  IsFrame, collapse_band-IsBurst, poll_ir_burst-IsDelivered,
}
use homekit_rf_ir_blaster.Device.Radio.{
  Band, Receivers, RxAnswers, band_of, set_band, arm_band, disarm_band, open_rx, enable_rx,
}
use homekit_rf_ir_blaster.Device.Learning.{
  Driver, Frames, Call, starts, polls, start_learn, start_all, stop_all, cancel_learn, source_of,
  feed_ir, feed_rf, turn_ir, turn_rf, rf_rx_done, ir_rx_done, drain_ir, drain_rf, drain_all,
  finish_poll, poll_learn, take_learned_code, call, calls, at_start,
}

-- One machine is reached from another by events whose bursts are well shaped.
pub record IsRun (m m' : Machine) : Type 0 where
  pub events : List Event
  pub inputs : All IsInput events
  pub reached : run events m ≡ m'

run-append : (es es' : List Event) (m : Machine) → run (es ++ es') m ≡ run es' (run es m)
unfolding run
run-append [] es' m = refl
run-append (e ∷ es) es' m = run-append es es' (step e m)

IsRun-step : {m m' : Machine} (e : Event) → IsInput e → IsRun m m' → IsRun m (step e m')
unfolding run
IsRun-step {m} {m'} e i k = record {
  events = k.events ++ (e ∷ []);
  inputs = All-append IsInput k.events (e ∷ []) k.inputs (i, tt);
  reached = run-append k.events (e ∷ []) m ∙ ap (step e) k.reached;
}

-- The machine of a driver is reached from `m`, and the frames that the bands hold alternate.
pub record Follows (m : Machine) (d : Driver) : Type 0 where
  pub reached : IsRun m d.machine
  pub frames : (b : Band) → IsFrame (band_of b d.receivers).frame

-- Every RF frame that arrives alternates its levels; an infrared frame may be anything.
pub record AreFrames (f : Frames) : Type 0 where
  pub rf315 : All IsFrame f.rf315
  pub rf433 : All IsFrame f.rf433

abbrev pub IsArrival : Call → Type 0
IsArrival (polls now f) = AreFrames f
IsArrival _ = Unit {0}

feed_rf-IsRun :
    {m : Machine} (band : Band) (now : ℕ) (o : Option (List ℕ)) (m' : Machine)
    → ((out : List ℕ) → o ≡ some out → IsBurst (source_of band) out)
    → IsRun m m'
    → IsRun m (feed_rf band now o m')
unfolding step
feed_rf-IsRun band now none m' shaped k = k
feed_rf-IsRun band now (some out) m' shaped k =
    IsRun-step (bursts (source_of band) out 0 now) (shaped out refl) k

feed_ir-IsRun :
    {m : Machine} (now : ℕ) (o : Option (List ℕ × ℕ)) (m' : Machine)
    → ((out : List ℕ) (hz : ℕ) → o ≡ some (out, hz) → IsBurst Source.ir out)
    → IsRun m m'
    → IsRun m (feed_ir now o m')
unfolding step
feed_ir-IsRun now none m' shaped k = k
feed_ir-IsRun now (some (out, hz)) m' shaped k =
    IsRun-step (bursts Source.ir out hz now) (shaped out hz refl) k

rf_rx_done-IsFrame :
    (frame : List RmtSymbol) (b : RfBand)
    → IsFrame frame
    → IsFrame b.frame
    → IsFrame (rf_rx_done frame b).frame
unfolding rf_rx_done
rf_rx_done-IsFrame frame b new held = elim (Bool-cases b.rx_enabled) [
  | inl e ↦ rw e new
  | inr e ↦ rw e held
]

collapse_band-frame : (b : RfBand) (n : ℕ) → (collapse_band b n).1.frame ≡ b.frame
unfolding collapse_band
collapse_band-frame b n = elim (Bool-cases (not b.rx || not b.frame_ready)) [
  | inl e ↦ rw e refl
  | inr e ↦ rw e refl
]

arm_band-frame : (k : RxAnswers) (b : RfBand) → (arm_band k b).frame ≡ b.frame
unfolding arm_band open_rx enable_rx
arm_band-frame k b = ground arith

set_band-IsFrame :
    (band : Band) (b : RfBand) (s : Receivers)
    → IsFrame b.frame
    → ((b' : Band) → IsFrame (band_of b' s).frame)
    → (b' : Band) → IsFrame (band_of b' (set_band band b s)).frame
set_band-IsFrame Band.mhz315 b s new held Band.mhz315 = new
set_band-IsFrame Band.mhz315 b s new held Band.mhz433 = held Band.mhz433
set_band-IsFrame Band.mhz433 b s new held Band.mhz315 = held Band.mhz315
set_band-IsFrame Band.mhz433 b s new held Band.mhz433 = new

IsBurst-source_of :
    (band : Band) (out : List ℕ) → IsBurst Source.rf315 out → IsBurst (source_of band) out
IsBurst-source_of Band.mhz315 out b = b
IsBurst-source_of Band.mhz433 out b = record { ranged = b.ranged; marked = b.marked }

turn_rf-Follows :
    {m : Machine} (band : Band) (now : ℕ) (frame : List RmtSymbol) (d : Driver)
    → IsFrame frame
    → Follows m d
    → Follows m (turn_rf band now frame d).1
unfolding turn_rf
turn_rf-Follows band now frame d new k =
    let b = rf_rx_done frame (band_of band d.receivers) in
    let held = rf_rx_done-IsFrame frame (band_of band d.receivers) new (k.frames band) in
    record {
      reached =
          feed_rf-IsRun band now (collapse_band b max_pulses).0 d.machine
            (λ out e. IsBurst-source_of band out (collapse_band-IsBurst b max_pulses out held e).0)
            k.reached;
      frames =
          set_band-IsFrame band (collapse_band b max_pulses).1 d.receivers
            (rw (collapse_band-frame b max_pulses) held) k.frames;
    }

same_frames :
    (s s' : Receivers)
    → s'.band315.frame ≡ s.band315.frame
    → s'.band433.frame ≡ s.band433.frame
    → ((b : Band) → IsFrame (band_of b s).frame)
    → (b : Band) → IsFrame (band_of b s').frame
same_frames s s' e e' held Band.mhz315 = rw e (held Band.mhz315)
same_frames s s' e e' held Band.mhz433 = rw e' (held Band.mhz433)

turn_ir-Follows :
    {m : Machine} (now : ℕ) (frame : List RmtSymbol) (d : Driver)
    → Follows m d
    → Follows m (turn_ir now frame d).1
unfolding turn_ir
turn_ir-Follows now frame d k =
    let r = ir_rx_done frame d.receivers.ir in
    record {
      reached =
          feed_ir-IsRun now (poll_ir_burst r max_pulses).0 d.machine
            (λ out hz e. (poll_ir_burst-IsDelivered r max_pulses hz out e).burst) k.reached;
      frames =
          same_frames d.receivers (record d.receivers { ir = (poll_ir_burst r max_pulses).1 }) refl
            refl k.frames;
    }

drain_rf-Follows :
    {m : Machine} (band : Band) (now : ℕ) (frames : List (List RmtSymbol)) (d : Driver)
    → All IsFrame frames
    → Follows m d
    → Follows m (drain_rf band now frames d)
unfolding drain_rf
drain_rf-Follows band now [] d new k = k
drain_rf-Follows band now (frame ∷ frames) d new k =
    let fed = turn_rf-Follows band now frame d new.0 k in
    let rest = drain_rf-Follows band now frames (turn_rf band now frame d).1 new.1 fed in
    ground arith

drain_ir-Follows :
    {m : Machine} (now : ℕ) (frames : List (List RmtSymbol)) (d : Driver)
    → Follows m d
    → Follows m (drain_ir now frames d)
unfolding drain_ir
drain_ir-Follows now [] d k = k
drain_ir-Follows now (frame ∷ frames) d k =
    let fed = turn_ir-Follows now frame d k in
    let rest = drain_ir-Follows now frames (turn_ir now frame d).1 fed in ground arith

-- A step of the machine, with the receivers' frames as they were.
steps :
    {m : Machine} (e : Event) (d d' : Driver)
    → IsInput e
    → step e d.machine ≡ d'.machine
    → d'.receivers.band315.frame ≡ d.receivers.band315.frame
    → d'.receivers.band433.frame ≡ d.receivers.band433.frame
    → Follows m d
    → Follows m d'
steps {m} e d d' i same e315 e433 k = record {
  reached = subst (IsRun m) same (IsRun-step e i k.reached);
  frames = same_frames d.receivers d'.receivers e315 e433 k.frames;
}

finish_poll-Follows :
    {m : Machine} (now : ℕ) (d : Driver) → Follows m d → Follows m (finish_poll now d)
unfolding finish_poll stop_all disarm_band step
finish_poll-Follows now d k = elim (Bool-cases (is_listening (tick now d.machine).state)) [
  | inl e ↦
      rw e (steps (ticks now) d (record d { machine = tick now d.machine }) tt refl refl refl k)
  | inr e ↦ rw e (
      steps (ticks now) d
        (record { machine = tick now d.machine; active = false; receivers = stop_all d.receivers })
        tt refl refl refl k)
]

poll_learn-Follows :
    {m : Machine} (now : ℕ) (f : Frames) (d : Driver)
    → AreFrames f
    → Follows m d
    → Follows m (poll_learn now f d)
unfolding poll_learn drain_all
poll_learn-Follows now f d new k = elim (Bool-cases (not d.active)) [
  | inl e ↦ rw e k
  | inr e ↦ rw e (
      finish_poll-Follows (now % 2 ^ 32) (drain_all (now % 2 ^ 32) f d) (
        drain_rf-Follows Band.mhz433 (now % 2 ^ 32) f.rf433 _ new.rf433 (
          drain_rf-Follows Band.mhz315 (now % 2 ^ 32) f.rf315 _ new.rf315
            (drain_ir-Follows (now % 2 ^ 32) f.ir d k))))
]

pub call-Follows :
    {m : Machine} (c : Call) (d : Driver) → IsArrival c → Follows m d → Follows m (call c d)
unfolding call start_learn start_all cancel_learn stop_all disarm_band take_learned_code step
call-Follows (starts now a) d i k =
    steps (begins (now % 2 ^ 32)) d (start_learn now a d) tt refl
      (arm_band-frame a.rf315 d.receivers.band315) (arm_band-frame a.rf433 d.receivers.band433) k
call-Follows Call.cancels d i k = steps Event.cancels d (cancel_learn d) tt refl refl refl k
call-Follows Call.takes d i k = steps Event.takes d (take_learned_code d).1 tt refl refl refl k
call-Follows (polls now f) d i k = poll_learn-Follows now f d i k

-- Whatever the calls of the driver and the frames that arrive, if the levels of each RF frame
-- alternate, the machine goes through a history of well-shaped events: what is shown of every
-- such history of the machine holds of the driver.
pub calls-Follows :
    {m : Machine} (cs : List Call) (d : Driver)
    → All IsArrival cs
    → Follows m d
    → Follows m (calls cs d)
unfolding calls
calls-Follows [] d i k = k
calls-Follows (c ∷ cs) d i k = calls-Follows cs (call c d) i.1 (call-Follows c d i.0 k)

at_start-frames :
    (ir_opened : Bool) (b : Band) → IsFrame (band_of b (at_start ir_opened).receivers).frame
unfolding at_start halves
at_start-frames ir_opened Band.mhz315 = record {
  level = 0;
  is_level = omega arith;
  alternates = tt;
}
at_start-frames ir_opened Band.mhz433 = record {
  level = 0;
  is_level = omega arith;
  alternates = tt;
}

pub at_start-Follows : (ir_opened : Bool) → Follows reset (at_start ir_opened)
unfolding at_start run
at_start-Follows ir_opened = record {
  reached = record { events = []; inputs = tt; reached = refl };
  frames = at_start-frames ir_opened;
}

pub taken-IsCaptured :
    (d : Driver) → Follows reset d → d.machine.state ≡ captured → IsCaptured (take_learned_code d).0
unfolding take_learned_code
taken-IsCaptured d k e =
    let r = k.reached in
    let taken = run-take_code-IsCaptured r.events r.inputs (ap (λ m. m.state) r.reached ∙ e) in
    rw r.reached at taken

-- From the driver's start, whatever was called and whatever frames arrived, if the levels of each RF
-- frame alternate: a code that is taken from a captured session is learned, passes every check that
-- validate makes of a code, and has no zero duration.
pub calls-take_learned_code-IsCaptured :
    (ir_opened : Bool) (cs : List Call)
    → All IsArrival cs
    → (calls cs (at_start ir_opened)).machine.state ≡ captured
    → IsCaptured (take_learned_code (calls cs (at_start ir_opened))).0
calls-take_learned_code-IsCaptured ir_opened cs i e =
    taken-IsCaptured (calls cs (at_start ir_opened))
      (calls-Follows cs (at_start ir_opened) i (at_start-Follows ir_opened)) e
