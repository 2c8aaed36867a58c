-- ===== src/Device/LearnApi.antt =====
-- src/web_config_api.cpp, the learn session's part: the handlers of the server's task and
-- pollLearnApi on the loop's task. They share the phase under a mutex, which the loop's task gives
-- back while it calls the driver; requests that come then are steps between `act` and `publish`.
pub mod Published
pub mod LostStart
pub mod Settled
use homekit_rf_ir_blaster.Base.{
  ℕ, ◌≡◌, refl, Bool, true, false, List, [], ◌∷◌, Option, none, some, if◌then◌else◌,
}
use homekit_rf_ir_blaster.Config.Model.{StoredCode, empty_code}
use homekit_rf_ir_blaster.Learn.Machine.{State, FailReason, timeout, noisy, rolling}
use homekit_rf_ir_blaster.Device.Learning.{
  Driver, StartAnswers, Frames, start_learn, cancel_learn, poll_learn, take_learned_code, at_start,
}

pub data LearnPhase : Type 0 where
  idle start_req listening captured failed cancel_req : LearnPhase

-- What the two tasks share; `code` is valid in the phase `captured`, `reason` in `failed`.
pub record LearnApi : Type 0 where
  pub phase : LearnPhase
  pub code : StoredCode
  pub reason : FailReason

pub data LearnReply : Type 0 where
  unauthorized accepted still_listening : LearnReply
  learned : StoredCode → LearnReply
  gave_up : FailReason → LearnReply

-- The handlers: whether the session is valid, and the shared state.
unfoldable pub handle_learn_start : Bool → LearnApi → LearnReply × LearnApi
handle_learn_start session a =
    if session then (accepted, record a { phase = start_req }) else (unauthorized, a)

unfoldable pub handle_learn_cancel : Bool → LearnApi → LearnReply × LearnApi
handle_learn_cancel session a =
    if session then (accepted, record a { phase = cancel_req }) else (unauthorized, a)

abbrev pub outcome : LearnPhase → StoredCode → FailReason → LearnReply
outcome captured code reason = learned code
outcome failed code reason = gave_up reason
outcome _ code reason = still_listening

unfoldable pub handle_learn_poll : Bool → LearnApi → LearnReply
handle_learn_poll session a = if session then outcome a.phase a.code a.reason else unauthorized

-- Where the loop's task stands: before a poll, or about to publish what the driver did.
pub data LoopPoint : Type 0 where
  at_top started cancelled : LoopPoint
  took : StoredCode → LoopPoint
  gave : FailReason → LoopPoint

pub record LearnSystem : Type 0 where
  pub api : LearnApi
  pub driver : Driver
  pub point : LoopPoint

-- What one poll sees of its surroundings.
pub record Surroundings : Type 0 where
  pub now : ℕ
  pub answers : StartAnswers
  pub frames : Frames

-- After pollLearn, a terminal state of the machine is to be published.
unfoldable pub after_poll : State → LearnApi → Driver → LearnSystem
unfolding take_learned_code
after_poll State.idle a d = record { api = a; driver = d; point = at_top }
after_poll State.listening a d = record { api = a; driver = d; point = at_top }
after_poll State.captured a d = record {
  api = a;
  driver = (take_learned_code d).1;
  point = took (take_learned_code d).0;
}
after_poll State.failed a d = record { api = a; driver = d; point = gave d.machine.reason }

abbrev pub is_listening_phase : LearnPhase → Bool
is_listening_phase idle = false
is_listening_phase start_req = false
is_listening_phase listening = true
is_listening_phase captured = false
is_listening_phase failed = false
is_listening_phase cancel_req = false

-- The phase is read, and the driver is called outside the mutex.
unfoldable pub act : LearnPhase → Surroundings → LearnSystem → LearnSystem
unfolding after_poll
act start_req e s = record s { driver = start_learn e.now e.answers s.driver; point = started }
act cancel_req e s = record s { driver = cancel_learn s.driver; point = cancelled }
act listening e s = let d = poll_learn e.now e.frames s.driver in after_poll d.machine.state s.api d
act idle e s = s
act captured e s = s
act failed e s = s

-- A cancel that came while the driver started is kept.
unfoldable pub publish_started : LearnPhase → LearnPhase
publish_started idle = idle
publish_started start_req = listening
publish_started listening = listening
publish_started captured = captured
publish_started failed = failed
publish_started cancel_req = cancel_req

-- The result is published under the mutex: an outcome only while the phase is still `listening`.
unfoldable pub publish : LoopPoint → LearnApi → LearnApi
unfolding publish_started
publish at_top a = a
publish started a = record a { phase = publish_started a.phase }
publish cancelled a = record a { phase = idle }
publish (took code) a =
    if is_listening_phase a.phase then record a { code = code; phase = captured } else a
publish (gave reason) a =
    if is_listening_phase a.phase then record a { reason = reason; phase = failed } else a

unfoldable pub finish : LearnSystem → LearnSystem
unfolding publish
finish s = record s { api = publish s.point s.api; point = at_top }

-- pollLearnApi without a request in between; a poll that finds the mutex taken does nothing.
unfoldable pub poll_learn_api : Surroundings → LearnSystem → LearnSystem
unfolding act finish
poll_learn_api e s = finish (act s.api.phase e s)

unfoldable pub poll_all : List Surroundings → LearnSystem → LearnSystem
unfolding poll_learn_api
poll_all [] s = s
poll_all (e ∷ es) s = poll_all es (poll_learn_api e s)

-- The steps of the two tasks, in the order in which they happen.
pub data Move : Type 0 where
  requests_start requests_cancel : Bool → Move
  acts : Surroundings → Move
  publishes : Move

abbrev pub act_at : LoopPoint → Surroundings → LearnSystem → LearnSystem
act_at at_top e s = act s.api.phase e s
act_at _ e s = s

unfoldable pub move : Move → LearnSystem → LearnSystem
unfolding handle_learn_start handle_learn_cancel act finish
move (requests_start session) s = record s { api = (handle_learn_start session s.api).1 }
move (requests_cancel session) s = record s { api = (handle_learn_cancel session s.api).1 }
move (acts e) s = act_at s.point e s
move publishes s = finish s

unfoldable pub moves : List Move → LearnSystem → LearnSystem
unfolding move
moves [] s = s
moves (m ∷ ms) s = moves ms (move m s)

-- The first system, before any request.
unfoldable pub learn_at_start : Bool → LearnSystem
unfolding at_start
learn_at_start ir_opened = record {
  api = record { phase = idle; code = empty_code; reason = timeout };
  driver = at_start ir_opened;
  point = at_top;
}
