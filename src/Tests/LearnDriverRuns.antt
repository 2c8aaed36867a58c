-- ===== src/Tests/LearnDriverRuns.antt =====
-- Runs of src/learn.cpp, src/radios.cpp, src/ir.cpp and the learn session of src/web_config_api.cpp:
-- an infrared remote that is pressed three times, and sessions that are cancelled or run out.
use homekit_rf_ir_blaster.Base.{
  ℕ, ◌≤◌, ◌≡◌, refl, true, false, List, [], ◌∷◌, some, length, map, arith,
}
use homekit_rf_ir_blaster.Config.Model.{StoredCode}
use homekit_rf_ir_blaster.Learn.Match.{
  Source, durations_match, well_formed, bursts_match, entries_match,
}
use homekit_rf_ir_blaster.Learn.Track.{feed_track}
use homekit_rf_ir_blaster.Learn.Track.Invariant.{IsBurst}
use homekit_rf_ir_blaster.Learn.Machine.{listening, reset, feed_burst}
use homekit_rf_ir_blaster.Learn.Machine.Captured.{IsCaptured}
use homekit_rf_ir_blaster.Device.Rmt.{Half, RmtSymbol}
use homekit_rf_ir_blaster.Device.Receive.{RfBand, IrReceiver, halves, collapse_band, poll_ir_burst}
use homekit_rf_ir_blaster.Device.Receive.Bursts.{
  IsFrame, IsDelivered, collapse_band-IsBurst, poll_ir_burst-IsDelivered,
}
use homekit_rf_ir_blaster.Device.Radio.{RxAnswers}
use homekit_rf_ir_blaster.Device.Learning.{
  StartAnswers, Frames, Call, starts, polls, cancels, calls, at_start, start_learn, poll_learn,
  drain_ir, turn_ir, take_learned_code,
}
use homekit_rf_ir_blaster.Device.Learning.History.{
  Follows, AreFrames, calls-Follows, at_start-Follows,
}
use homekit_rf_ir_blaster.Device.Learning.Quiet.{IsQuiet, calls-IsQuiet}
use homekit_rf_ir_blaster.Device.Learning.Clock.{silence, start_learn-stays_open}
use homekit_rf_ir_blaster.Device.LearnApi.{
  Surroundings, LearnSystem, Move, requests_start, acts, publishes, moves, learn_at_start,
  handle_learn_poll, learned, cancel_req, idle, at_top, still_listening, poll_all, poll_learn_api,
  start_req,
}
use homekit_rf_ir_blaster.Device.LearnApi.Published.{moves-handle_learn_poll-IsCaptured}
use homekit_rf_ir_blaster.Device.LearnApi.LostStart.{start_during_cancel_lost}
use homekit_rf_ir_blaster.Device.LearnApi.Settled.{is_settled, poll_all-settles}

abbrev half : ℕ → ℕ → Half
half level duration = record { level = level; duration = duration }

abbrev symbol : ℕ → RmtSymbol
symbol space = record { first = half 0 26; second = half 1 space }

-- One press: marks of one carrier cycle, with these spaces.
abbrev ir_frame : List RmtSymbol
ir_frame = map symbol (450 ∷ 450 ∷ 1690 ∷ 450 ∷ 1690 ∷ 1690 ∷ 450 ∷ 1690 ∷ 450 ∷ [])

abbrev rf_frame : List RmtSymbol
rf_frame =
    record { first = half 1 350; second = half 0 1050 }
    ∷ record { first = half 1 350; second = half 0 9000 }
    ∷ []

rf_frame-IsFrame : IsFrame rf_frame
unfolding halves
rf_frame-IsFrame = record {
  level = 1;
  is_level = omega arith;
  alternates = (refl, (refl, (refl, (refl, tt))));
}

abbrev rf_band : RfBand
rf_band = record { rx = true; rx_enabled = true; frame_ready = true; frame = rf_frame }

abbrev ir_receiver : IrReceiver
ir_receiver = record { rx = true; rx_enabled = true; frame_ready = true; frame = ir_frame }

abbrev rf_pulses : List ℕ
rf_pulses = 350 ∷ 1050 ∷ 350 ∷ []

collapse_band-IsBurst_example : IsBurst Source.rf315 rf_pulses × (length rf_pulses ≤ 512)
collapse_band-IsBurst_example =
    collapse_band-IsBurst rf_band 512 rf_pulses rf_frame-IsFrame rf_band_collapsed
  where
    rf_band_collapsed : (collapse_band rf_band 512).0 ≡ some rf_pulses
    rf_band_collapsed = unfold collapse_band in refl

abbrev ir_pulses : List ℕ
ir_pulses =
    26 ∷ 450 ∷ 26 ∷ 450 ∷ 26 ∷ 1690 ∷ 26 ∷ 450 ∷ 26 ∷ 1690 ∷ 26 ∷ 1690 ∷ 26 ∷ 450 ∷ 26 ∷ 1690 ∷ 26
    ∷ []

ir_receiver_polled : (poll_ir_burst ir_receiver 512).0 ≡ some (ir_pulses, 38461)
unfolding poll_ir_burst
ir_receiver_polled = refl

poll_ir_burst-IsDelivered_example : IsDelivered 512 ir_pulses 38461
poll_ir_burst-IsDelivered_example =
    poll_ir_burst-IsDelivered ir_receiver 512 38461 ir_pulses ir_receiver_polled

abbrev working : RxAnswers
working = record { new_channel = true; registered = true; enabled = true }

abbrev all_working : StartAnswers
all_working = record { rf315 = working; rf433 = working; ir_enabled = true }

abbrev pressed : Frames
pressed = record { ir = ir_frame ∷ []; rf315 = []; rf433 = [] }

abbrev at_time : ℕ → Frames → Surroundings
at_time now frames = record { now = now; answers = all_working; frames = frames }

abbrev three_presses : List Move
three_presses =
    requests_start true
    ∷ acts (at_time 0 silence)
    ∷ publishes
    ∷ acts (at_time 1000 pressed)
    ∷ acts (at_time 2000 pressed)
    ∷ acts (at_time 3000 pressed)
    ∷ publishes
    ∷ []

abbrev code_shown : StoredCode
code_shown = (moves three_presses (learn_at_start true)).api.code

three_presses_learned :
    handle_learn_poll true (moves three_presses (learn_at_start true)).api ≡ learned code_shown
unfolding handle_learn_poll moves learn_at_start start_learn poll_learn drain_ir turn_ir
    poll_ir_burst take_learned_code feed_track feed_burst well_formed bursts_match entries_match
    durations_match
three_presses_learned = refl

no_frames : AreFrames silence
no_frames = record { rf315 = tt; rf433 = tt }

ir_only : AreFrames pressed
ir_only = record { rf315 = tt; rf433 = tt }

moves-handle_learn_poll-IsCaptured_example : IsCaptured code_shown
moves-handle_learn_poll-IsCaptured_example =
    moves-handle_learn_poll-IsCaptured true true three_presses code_shown
      (tt, (no_frames, (tt, (ir_only, (ir_only, (ir_only, (tt, tt))))))) three_presses_learned

abbrev some_calls : List Call
some_calls = starts 0 all_working ∷ polls 1000 pressed ∷ cancels ∷ []

calls-Follows_example : Follows reset (calls some_calls (at_start true))
calls-Follows_example =
    calls-Follows some_calls (at_start true) (tt, (ir_only, (tt, tt))) (at_start-Follows true)

calls-IsQuiet_example : IsQuiet (calls some_calls (at_start true))
calls-IsQuiet_example = calls-IsQuiet true some_calls

-- A session that starts 10 s before the clock wraps, polled just before and an hour after that.
start_learn-stays_open_example :
    (calls
      (map (λ now. polls now silence) (4294967000 ∷ 4298567296 ∷ []))
      (start_learn 4294957296 all_working (at_start true))).machine.state
    ≡ listening
start_learn-stays_open_example =
    start_learn-stays_open 4294957296 all_working (4294967000 ∷ 4298567296 ∷ []) (at_start true)
      (omega arith)

-- A system whose session is being cancelled.
abbrev cancelling : LearnSystem
cancelling = record (learn_at_start true) {
  api = record (learn_at_start true).api { phase = cancel_req };
}

start_during_cancel_lost_example :
    let after =
      poll_all
        (at_time 9 silence ∷ [])
        (moves (acts (at_time 5 silence) ∷ requests_start true ∷ publishes ∷ []) cancelling) in
    (after.api.phase ≡ idle)
    × (after.driver.active ≡ false)
    × (handle_learn_poll true after.api ≡ still_listening)
start_during_cancel_lost_example =
    start_during_cancel_lost (at_time 5 silence) (at_time 9 silence ∷ []) cancelling refl
      at_top_first
  where
    at_top_first : cancelling.point ≡ at_top
    at_top_first = unfold learn_at_start in refl

abbrev requested : LearnSystem
requested = record (learn_at_start true) {
  api = record (learn_at_start true).api { phase = start_req };
}

poll_all-settles_example :
    is_settled
      (poll_learn_api (at_time 30000 silence) (
        poll_all
          (at_time 1000 pressed ∷ [])
          (poll_learn_api (at_time 0 silence) requested))).api.phase
    ≡ true
poll_all-settles_example =
    poll_all-settles (at_time 0 silence) (at_time 30000 silence) (at_time 1000 pressed ∷ [])
      requested refl at_top_first (omega arith)
  where
    at_top_first : requested.point ≡ at_top
    at_top_first = unfold learn_at_start in refl
