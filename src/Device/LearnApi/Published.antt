-- ===== src/Device/LearnApi/Published.antt =====
-- src/web_config_api.cpp: what the learn session's poll handler reports, over the interleavings of
-- the requests with the loop's task.
use homekit_rf_ir_blaster.Base.{
  ◌≡◌, refl, Bool, true, false, List, [], ◌∷◌, All, Bool-cases, inl, inr,
}
use homekit_rf_ir_blaster.Config.Model.{StoredCode}
use homekit_rf_ir_blaster.Learn.Machine.{State, FailReason, reset}
use homekit_rf_ir_blaster.Learn.Machine.Captured.{IsCaptured}
use homekit_rf_ir_blaster.Device.Learning.{Driver, Call, starts, polls, call, poll_learn}
use homekit_rf_ir_blaster.Device.Learning.History.{
  AreFrames, Follows, call-Follows, taken-IsCaptured, at_start-Follows,
}
use homekit_rf_ir_blaster.Device.LearnApi.{
  LearnPhase, idle, start_req, listening, captured, failed, cancel_req, LearnApi, learned,
  handle_learn_start, handle_learn_cancel, handle_learn_poll, outcome, LoopPoint, at_top, started,
  cancelled, took, gave, LearnSystem, Surroundings, after_poll, is_listening_phase, act, act_at,
  publish_started, publish, finish, Move, requests_start, requests_cancel, acts, publishes, move,
  moves, learn_at_start,
}

-- The frames that a move brings alternate their levels.
abbrev pub IsArrival : Move → Type 0
IsArrival (acts e) = AreFrames e.frames
IsArrival _ = Unit {0}

abbrev Waiting : LoopPoint → Type 0
Waiting (took code) = IsCaptured code
Waiting _ = Unit {0}

abbrev Shown : LearnPhase → StoredCode → Type 0
Shown captured code = IsCaptured code
Shown _ code = Unit {0}

-- Every code that is shown or about to be shown is one of a captured session.
record IsPublished (s : LearnSystem) : Type 0 where
  follows : Follows reset s.driver
  waiting : Waiting s.point
  shown : Shown s.api.phase s.api.code

after_poll-IsPublished :
    (st : State) (a : LearnApi) (d : Driver)
    → d.machine.state ≡ st
    → Follows reset d
    → Shown a.phase a.code
    → IsPublished (after_poll st a d)
unfolding after_poll
after_poll-IsPublished State.idle a d e k shown = record {
  follows = k;
  waiting = tt;
  shown = shown;
}
after_poll-IsPublished State.listening a d e k shown = record {
  follows = k;
  waiting = tt;
  shown = shown;
}
after_poll-IsPublished State.captured a d e k shown = record {
  follows = unfold call in call-Follows Call.takes d tt k;
  waiting = taken-IsCaptured d k e;
  shown = shown;
}
after_poll-IsPublished State.failed a d e k shown = record {
  follows = k;
  waiting = tt;
  shown = shown;
}

act-IsPublished :
    (p : LearnPhase) (e : Surroundings) (s : LearnSystem)
    → AreFrames e.frames
    → IsPublished s
    → IsPublished (act p e s)
unfolding act
act-IsPublished start_req e s f k = record {
  follows = unfold call in call-Follows (starts e.now e.answers) s.driver tt k.follows;
  waiting = tt;
  shown = k.shown;
}
act-IsPublished cancel_req e s f k = record {
  follows = unfold call in call-Follows Call.cancels s.driver tt k.follows;
  waiting = tt;
  shown = k.shown;
}
act-IsPublished listening e s f k =
    after_poll-IsPublished _ s.api (poll_learn e.now e.frames s.driver) refl
      (unfold call in call-Follows (polls e.now e.frames) s.driver f k.follows) k.shown
act-IsPublished idle e s f k = k
act-IsPublished captured e s f k = k
act-IsPublished failed e s f k = k

act_at-IsPublished :
    (q : LoopPoint) (e : Surroundings) (s : LearnSystem)
    → AreFrames e.frames
    → IsPublished s
    → IsPublished (act_at q e s)
act_at-IsPublished at_top e s f k = act-IsPublished s.api.phase e s f k
act_at-IsPublished started e s f k = k
act_at-IsPublished cancelled e s f k = k
act_at-IsPublished (took code) e s f k = k
act_at-IsPublished (gave reason) e s f k = k

publish_started-Shown :
    (p : LearnPhase) (code : StoredCode) → Shown p code → Shown (publish_started p) code
unfolding publish_started
publish_started-Shown idle code k = tt
publish_started-Shown start_req code k = tt
publish_started-Shown listening code k = tt
publish_started-Shown captured code k = k
publish_started-Shown failed code k = tt
publish_started-Shown cancel_req code k = tt

publish-Shown :
    (q : LoopPoint) (a : LearnApi)
    → Waiting q
    → Shown a.phase a.code
    → Shown (publish q a).phase (publish q a).code
unfolding publish
publish-Shown at_top a w k = k
publish-Shown started a w k = publish_started-Shown a.phase a.code k
publish-Shown cancelled a w k = tt
publish-Shown (took code) a w k = elim (Bool-cases (is_listening_phase a.phase)) [
  | inl e ↦ rw e w
  | inr e ↦ rw e k
]
publish-Shown (gave reason) a w k = elim (Bool-cases (is_listening_phase a.phase)) [
  | inl e ↦ rw e tt
  | inr e ↦ rw e k
]

move-IsPublished :
    (m : Move) (s : LearnSystem) → IsArrival m → IsPublished s → IsPublished (move m s)
unfolding move handle_learn_start handle_learn_cancel finish
move-IsPublished (requests_start true) s f k = record {
  follows = k.follows;
  waiting = k.waiting;
  shown = tt;
}
move-IsPublished (requests_start false) s f k = k
move-IsPublished (requests_cancel true) s f k = record {
  follows = k.follows;
  waiting = k.waiting;
  shown = tt;
}
move-IsPublished (requests_cancel false) s f k = k
move-IsPublished (acts e) s f k = act_at-IsPublished s.point e s f k
move-IsPublished publishes s f k = record {
  follows = k.follows;
  waiting = tt;
  shown = publish-Shown s.point s.api k.waiting k.shown;
}

moves-IsPublished :
    (ms : List Move) (s : LearnSystem) → All IsArrival ms → IsPublished s → IsPublished (moves ms s)
unfolding moves
moves-IsPublished [] s f k = k
moves-IsPublished (m ∷ ms) s f k = moves-IsPublished ms (move m s) f.1 (move-IsPublished m s f.0 k)

learn_at_start-IsPublished : (ir_opened : Bool) → IsPublished (learn_at_start ir_opened)
unfolding learn_at_start
learn_at_start-IsPublished ir_opened = record {
  follows = at_start-Follows ir_opened;
  waiting = tt;
  shown = tt;
}

outcome-learned :
    (p : LearnPhase) (c code : StoredCode) (r : FailReason)
    → outcome p c r ≡ learned code
    → Shown p c
    → IsCaptured code
outcome-learned captured c code r e k = let same : c ≡ code = cc in rw same at k
outcome-learned idle c code r e k = absurd cc
outcome-learned start_req c code r e k = absurd cc
outcome-learned listening c code r e k = absurd cc
outcome-learned failed c code r e k = absurd cc
outcome-learned cancel_req c code r e k = absurd cc

-- In whatever order the requests come between the steps of the loop's task, if the levels of each RF
-- frame that arrives alternate: a code that the poll handler reports is learned, passes every check
-- that validate makes of a code, and has no zero duration.
pub moves-handle_learn_poll-IsCaptured :
    (ir_opened session : Bool) (ms : List Move) (code : StoredCode)
    → All IsArrival ms
    → handle_learn_poll session (moves ms (learn_at_start ir_opened)).api ≡ learned code
    → IsCaptured code
unfolding handle_learn_poll
moves-handle_learn_poll-IsCaptured ir_opened true ms code f e =
    outcome-learned _ _ code _ e
      (moves-IsPublished ms (learn_at_start ir_opened) f
        (learn_at_start-IsPublished ir_opened)).shown
moves-handle_learn_poll-IsCaptured ir_opened false ms code f e = absurd cc
