-- ===== src/Device/Learning.antt =====
-- src/learn.cpp: the learn session. Arrived frames are arguments of a poll, in the order in which
-- they complete; the receive callback (rfRxDoneCb, rxDoneCb) marks one as ready, and only it does.
-- The milliseconds since the start are an argument, of which the 32-bit `millis()` shows the rest
-- modulo 2^32.
pub mod History
pub mod Quiet
pub mod Clock
pub mod Progress
use homekit_rf_ir_blaster.Base.{
  ℕ, ◌%◌, ◌^◌, ◌≡◌, refl, Bool, true, false, ◌&&◌, ◌||◌, not, List, [], ◌∷◌, Option, none, some,
  is_some, if◌then◌else◌,
}
use homekit_rf_ir_blaster.Config.Model.{StoredCode, max_pulses}
use homekit_rf_ir_blaster.Learn.Match.{Source}
use homekit_rf_ir_blaster.Learn.Machine.{
  Machine, begin, cancel, tick, take_code, feed_burst, is_listening, reset,
}
use homekit_rf_ir_blaster.Device.Rmt.{RmtSymbol}
use homekit_rf_ir_blaster.Device.Receive.{RfBand, IrReceiver, collapse_band, poll_ir_burst}
use homekit_rf_ir_blaster.Device.Radio.{
  RxAnswers, Receivers, Band, band_of, set_band, arm_band, disarm_band, start_ir_rx, stop_ir_rx,
}

pub record Driver : Type 0 where
  pub machine : Machine
  pub active : Bool
  pub receivers : Receivers

-- What the RMT driver answers while the receivers are started.
pub record StartAnswers : Type 0 where
  pub rf315 : RxAnswers
  pub rf433 : RxAnswers
  pub ir_enabled : Bool

unfoldable pub start_all : StartAnswers → Receivers → Receivers
unfolding arm_band start_ir_rx
start_all k s = record {
  band315 = arm_band k.rf315 s.band315;
  band433 = arm_band k.rf433 s.band433;
  ir = start_ir_rx k.ir_enabled s.ir;
}

unfoldable pub stop_all : Receivers → Receivers
unfolding disarm_band stop_ir_rx
stop_all s = record {
  band315 = disarm_band s.band315;
  band433 = disarm_band s.band433;
  ir = stop_ir_rx s.ir;
}

unfoldable pub start_learn : ℕ → StartAnswers → Driver → Driver
unfolding start_all begin
start_learn now k d = record {
  machine = begin (now % 2 ^ 32) d.machine;
  active = true;
  receivers = start_all k d.receivers;
}

unfoldable pub cancel_learn : Driver → Driver
unfolding stop_all cancel
cancel_learn d = record {
  machine = cancel d.machine;
  active = false;
  receivers = stop_all d.receivers;
}

-- The receive callbacks. A channel that is off completes no frame.
unfoldable pub ir_rx_done : List RmtSymbol → IrReceiver → IrReceiver
ir_rx_done frame r = if r.rx_enabled then record r { frame = frame; frame_ready = true } else r

unfoldable pub rf_rx_done : List RmtSymbol → RfBand → RfBand
rf_rx_done frame b = if b.rx_enabled then record b { frame = frame; frame_ready = true } else b

abbrev pub source_of : Band → Source
source_of Band.mhz315 = Source.rf315
source_of Band.mhz433 = Source.rf433

abbrev pub feed_ir : ℕ → Option (List ℕ × ℕ) → Machine → Machine
feed_ir now none m = m
feed_ir now (some (pulses, carrier_hz)) m = feed_burst Source.ir pulses carrier_hz now m

abbrev pub feed_rf : Band → ℕ → Option (List ℕ) → Machine → Machine
feed_rf band now none m = m
feed_rf band now (some pulses) m = feed_burst (source_of band) pulses 0 now m

-- One turn of a loop: the next frame completes and is polled, and its burst is fed.
unfoldable pub turn_ir : ℕ → List RmtSymbol → Driver → Option (List ℕ × ℕ) × Driver
unfolding ir_rx_done
turn_ir now frame d =
    let (burst, r) = poll_ir_burst (ir_rx_done frame d.receivers.ir) max_pulses in
    (
      burst,
      record d { machine = feed_ir now burst d.machine; receivers = record d.receivers { ir = r } },
    )

unfoldable pub turn_rf : Band → ℕ → List RmtSymbol → Driver → Option (List ℕ) × Driver
unfolding rf_rx_done
turn_rf band now frame d =
    let (burst, b) = collapse_band (rf_rx_done frame (band_of band d.receivers)) max_pulses in
    (
      burst,
      record d {
        machine = feed_rf band now burst d.machine;
        receivers = set_band band b d.receivers;
      },
    )

-- A loop ends when no frame is ready, when a frame has no burst, or when the machine is done.
unfoldable pub drain_ir : ℕ → List (List RmtSymbol) → Driver → Driver
drain_ir now [] d = d
drain_ir now (frame ∷ frames) d =
    let (burst, fed) = turn_ir now frame d in
    let rest = drain_ir now frames fed in
    if is_some burst && is_listening fed.machine.state then rest else fed

unfoldable pub drain_rf : Band → ℕ → List (List RmtSymbol) → Driver → Driver
drain_rf band now [] d = d
drain_rf band now (frame ∷ frames) d =
    let (burst, fed) = turn_rf band now frame d in
    let rest = drain_rf band now frames fed in
    if not (is_listening d.machine.state)
    then d
    else if is_some burst && is_listening fed.machine.state
    then rest
    else fed

-- The frames that complete before and during a poll.
pub record Frames : Type 0 where
  pub ir : List (List RmtSymbol)
  pub rf315 : List (List RmtSymbol)
  pub rf433 : List (List RmtSymbol)

unfoldable pub drain_all : ℕ → Frames → Driver → Driver
unfolding drain_ir drain_rf
drain_all now frames d =
    drain_rf Band.mhz433 now frames.rf433
      (drain_rf Band.mhz315 now frames.rf315 (drain_ir now frames.ir d))

-- The machine's clock moves on; a machine that is done has its receivers stopped.
unfoldable pub finish_poll : ℕ → Driver → Driver
unfolding tick stop_all
finish_poll now d =
    let m = tick now d.machine in
    if is_listening m.state
    then record d { machine = m }
    else record { machine = m; active = false; receivers = stop_all d.receivers }

unfoldable pub poll_learn : ℕ → Frames → Driver → Driver
unfolding drain_all finish_poll
poll_learn now frames d =
    let shown = now % 2 ^ 32 in
    if not d.active then d else finish_poll shown (drain_all shown frames d)

unfoldable pub take_learned_code : Driver → StoredCode × Driver
unfolding take_code
take_learned_code d = ((take_code d.machine).0, record d { machine = (take_code d.machine).1 })

-- What the rest of the program calls.
pub data Call : Type 0 where
  starts : ℕ → StartAnswers → Call
  cancels takes : Call
  polls : ℕ → Frames → Call

unfoldable pub call : Call → Driver → Driver
unfolding start_learn cancel_learn take_learned_code poll_learn
call (starts now k) d = start_learn now k d
call cancels d = cancel_learn d
call takes d = (take_learned_code d).1
call (polls now frames) d = poll_learn now frames d

unfoldable pub calls : List Call → Driver → Driver
unfolding call
calls [] d = d
calls (c ∷ cs) d = calls cs (call c d)

-- The driver before its first session; the infrared channel is open if its initialisation was.
unfoldable pub at_start : Bool → Driver
unfolding reset
at_start ir_opened = record {
  machine = reset;
  active = false;
  receivers = record {
    band315 = record { rx = false; rx_enabled = false; frame_ready = false; frame = [] };
    band433 = record { rx = false; rx_enabled = false; frame_ready = false; frame = [] };
    ir = record { rx = ir_opened; rx_enabled = false; frame_ready = false; frame = [] };
  };
}
