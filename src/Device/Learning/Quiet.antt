-- ===== src/Device/Learning/Quiet.antt =====
-- src/learn.cpp: which receivers are open while no session is under way.
use homekit_rf_ir_blaster.Base.{
  ℕ, ◌%◌, ◌^◌, ◌≡◌, refl, ◌∙◌, sym, ap, Bool, true, false, ◌||◌, not, List, [], ◌∷◌, Bool-cases,
  inl, inr, arith,
}
use homekit_rf_ir_blaster.Config.Model.{max_pulses}
use homekit_rf_ir_blaster.Learn.Machine.{
  Machine, State, idle, listening, captured, failed, begin, cancel, tick, take_code, reset,
  is_listening, is_captured,
}
use homekit_rf_ir_blaster.Device.Rmt.{RmtSymbol}
use homekit_rf_ir_blaster.Device.Receive.{RfBand, IrReceiver, poll_ir_burst}
use homekit_rf_ir_blaster.Device.Radio.{
  Band, Receivers, set_band, disarm_band, start_ir_rx, stop_ir_rx,
}
use homekit_rf_ir_blaster.Device.Learning.{
  Driver, Frames, Call, starts, polls, start_learn, start_all, stop_all, cancel_learn, turn_ir,
  turn_rf, ir_rx_done, drain_ir, drain_rf, drain_all, finish_poll, poll_learn, take_learned_code,
  call, calls, at_start,
}

-- Neither band has a receive channel, and the infrared receiver is disabled.
pub record AreOff (s : Receivers) : Type 0 where
  pub off315 : s.band315.rx ≡ false
  pub off433 : s.band433.rx ≡ false
  pub off_ir : s.ir.rx_enabled ≡ false

pub record IsQuiet (d : Driver) : Type 0 where
  pub agrees : d.active ≡ is_listening d.machine.state
  pub quiet : d.active ≡ false → AreOff d.receivers
  pub opened : d.receivers.ir.rx_enabled ≡ true → d.receivers.ir.rx ≡ true

-- The loops of a poll leave the session and the infrared channel as they are.
pub record IsKept (d d' : Driver) : Type 0 where
  pub active : d'.active ≡ d.active
  rx : d'.receivers.ir.rx ≡ d.receivers.ir.rx
  rx_enabled : d'.receivers.ir.rx_enabled ≡ d.receivers.ir.rx_enabled

IsKept-trans : (d d' d'' : Driver) → IsKept d d' → IsKept d' d'' → IsKept d d''
IsKept-trans d d' d'' k l = record {
  active = l.active ∙ k.active;
  rx = l.rx ∙ k.rx;
  rx_enabled = l.rx_enabled ∙ k.rx_enabled;
}

set_band-ir : (band : Band) (b : RfBand) (s : Receivers) → (set_band band b s).ir ≡ s.ir
set_band-ir Band.mhz315 b s = refl
set_band-ir Band.mhz433 b s = refl

poll_ir_burst-rx :
    (r : IrReceiver) (n : ℕ)
    → ((poll_ir_burst r n).1.rx ≡ r.rx) × ((poll_ir_burst r n).1.rx_enabled ≡ r.rx_enabled)
unfolding poll_ir_burst
poll_ir_burst-rx r n = elim (Bool-cases (not r.rx || not r.frame_ready)) [
  | inl e ↦ rw e (refl, refl)
  | inr e ↦ rw e (refl, refl)
]

ir_rx_done-rx :
    (frame : List RmtSymbol) (r : IrReceiver)
    → ((ir_rx_done frame r).rx ≡ r.rx) × ((ir_rx_done frame r).rx_enabled ≡ r.rx_enabled)
unfolding ir_rx_done
ir_rx_done-rx frame r = ground arith

turn_ir-IsKept : (now : ℕ) (frame : List RmtSymbol) (d : Driver) → IsKept d (turn_ir now frame d).1
unfolding turn_ir
turn_ir-IsKept now frame d =
    let polled = poll_ir_burst-rx (ir_rx_done frame d.receivers.ir) max_pulses in
    let arrived = ir_rx_done-rx frame d.receivers.ir in
    record { active = refl; rx = polled.0 ∙ arrived.0; rx_enabled = polled.1 ∙ arrived.1 }

turn_rf-IsKept :
    (band : Band) (now : ℕ) (frame : List RmtSymbol) (d : Driver)
    → IsKept d (turn_rf band now frame d).1
unfolding turn_rf
turn_rf-IsKept band now frame d = record {
  active = refl;
  rx = ap (λ r. r.rx) (set_band-ir band _ d.receivers);
  rx_enabled = ap (λ r. r.rx_enabled) (set_band-ir band _ d.receivers);
}

kept : (d : Driver) → IsKept d d
kept d = record { active = refl; rx = refl; rx_enabled = refl }

drain_ir-IsKept :
    (now : ℕ) (frames : List (List RmtSymbol)) (d : Driver) → IsKept d (drain_ir now frames d)
unfolding drain_ir
drain_ir-IsKept now [] d = kept d
drain_ir-IsKept now (frame ∷ frames) d =
    let fed = turn_ir-IsKept now frame d in
    let rest = IsKept-trans d _ _ fed (drain_ir-IsKept now frames (turn_ir now frame d).1) in
    ground arith

drain_rf-IsKept :
    (band : Band) (now : ℕ) (frames : List (List RmtSymbol)) (d : Driver)
    → IsKept d (drain_rf band now frames d)
unfolding drain_rf
drain_rf-IsKept band now [] d = kept d
drain_rf-IsKept band now (frame ∷ frames) d =
    let fed = turn_rf-IsKept band now frame d in
    let same = kept d in
    let rest =
      IsKept-trans d _ _ fed (drain_rf-IsKept band now frames (turn_rf band now frame d).1) in
    ground arith

pub drain_all-IsKept : (now : ℕ) (f : Frames) (d : Driver) → IsKept d (drain_all now f d)
unfolding drain_all
drain_all-IsKept now f d = IsKept-trans d _ _ (drain_ir-IsKept now f.ir d) (
    IsKept-trans _ _ _ (drain_rf-IsKept Band.mhz315 now f.rf315 _)
      (drain_rf-IsKept Band.mhz433 now f.rf433 _))

stop_ir_rx-off :
    (r : IrReceiver) → (r.rx_enabled ≡ true → r.rx ≡ true) → (stop_ir_rx r).rx_enabled ≡ false
unfolding stop_ir_rx
stop_ir_rx-off r o = ground arith

stop_all-AreOff : (s : Receivers) → (s.ir.rx_enabled ≡ true → s.ir.rx ≡ true) → AreOff (stop_all s)
unfolding stop_all disarm_band
stop_all-AreOff s o = record { off315 = refl; off433 = refl; off_ir = stop_ir_rx-off s.ir o }

stopped-IsQuiet :
    (m : Machine) (s : Receivers)
    → is_listening m.state ≡ false
    → (s.ir.rx_enabled ≡ true → s.ir.rx ≡ true)
    → IsQuiet (record { machine = m; active = false; receivers = stop_all s })
unfolding stop_all
stopped-IsQuiet m s e o = record {
  agrees = sym e;
  quiet = λ h. stop_all-AreOff s o;
  opened = λ h. absurd (cc (stop_ir_rx-off s.ir o, h));
}

start_ir_rx-opened :
    (enabled : Bool) (r : IrReceiver)
    → (r.rx_enabled ≡ true → r.rx ≡ true)
    → (start_ir_rx enabled r).rx_enabled ≡ true
    → (start_ir_rx enabled r).rx ≡ true
unfolding start_ir_rx
start_ir_rx-opened enabled r o h = ground arith

finish_poll-IsQuiet :
    (now : ℕ) (d : Driver)
    → d.active ≡ true
    → (d.receivers.ir.rx_enabled ≡ true → d.receivers.ir.rx ≡ true)
    → IsQuiet (finish_poll now d)
unfolding finish_poll
finish_poll-IsQuiet now d a o = elim (Bool-cases (is_listening (tick now d.machine).state)) [
  | inl e ↦
      let k : IsQuiet (record d { machine = tick now d.machine }) = record {
        agrees = a ∙ sym e;
        quiet = λ h. absurd (cc (a, h));
        opened = o;
      } in
      rw e k
  | inr e ↦ rw e (stopped-IsQuiet (tick now d.machine) d.receivers e o)
]

poll_learn-IsQuiet : (now : ℕ) (f : Frames) (d : Driver) → IsQuiet d → IsQuiet (poll_learn now f d)
unfolding poll_learn
poll_learn-IsQuiet now f d k = elim (Bool-cases (not d.active)) [
  | inl e ↦ rw e k
  | inr e ↦
      let same = drain_all-IsKept (now % 2 ^ 32) f d in
      let active : d.active ≡ true = ground arith in
      rw e (
        finish_poll-IsQuiet (now % 2 ^ 32) (drain_all (now % 2 ^ 32) f d) (same.active ∙ active)
          (rw (same.rx, same.rx_enabled) k.opened))
]

captured_not_listening : (s : State) → is_captured s ≡ true → is_listening s ≡ false
captured_not_listening idle e = refl
captured_not_listening listening e = absurd cc
captured_not_listening captured e = refl
captured_not_listening failed e = refl

take_code-listening : (m : Machine) → is_listening (take_code m).1.state ≡ is_listening m.state
unfolding take_code
take_code-listening m = elim (Bool-cases (is_captured m.state)) [
  | inl e ↦ rw e (unfold reset in sym (captured_not_listening m.state e))
  | inr e ↦ rw e refl
]

call-IsQuiet : (c : Call) (d : Driver) → IsQuiet d → IsQuiet (call c d)
unfolding call start_learn start_all cancel_learn take_learned_code begin cancel reset
call-IsQuiet (starts now a) d k = record {
  agrees = refl;
  quiet = λ h. absurd (cc h);
  opened = start_ir_rx-opened a.ir_enabled d.receivers.ir k.opened;
}
call-IsQuiet Call.cancels d k = stopped-IsQuiet reset d.receivers refl k.opened
call-IsQuiet Call.takes d k = record {
  agrees = k.agrees ∙ sym (take_code-listening d.machine);
  quiet = k.quiet;
  opened = k.opened;
}
call-IsQuiet (polls now f) d k = poll_learn-IsQuiet now f d k

calls_from-IsQuiet : (cs : List Call) (d : Driver) → IsQuiet d → IsQuiet (calls cs d)
unfolding calls
calls_from-IsQuiet [] d k = k
calls_from-IsQuiet (c ∷ cs) d k = calls_from-IsQuiet cs (call c d) (call-IsQuiet c d k)

at_start-IsQuiet : (ir_opened : Bool) → IsQuiet (at_start ir_opened)
unfolding at_start reset
at_start-IsQuiet ir_opened = record {
  agrees = refl;
  quiet = λ h. record { off315 = refl; off433 = refl; off_ir = refl };
  opened = λ h. absurd (cc h);
}

-- From the driver's start, after any calls, whatever the hardware answered and whatever frames
-- arrived: a session is under way exactly where the machine listens; and where none is, both bands'
-- receive channels are gone and the infrared receiver is disabled.
pub calls-IsQuiet : (ir_opened : Bool) (cs : List Call) → IsQuiet (calls cs (at_start ir_opened))
calls-IsQuiet ir_opened cs = calls_from-IsQuiet cs (at_start ir_opened) (at_start-IsQuiet ir_opened)
