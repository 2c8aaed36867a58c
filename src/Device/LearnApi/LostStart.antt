-- ===== src/Device/LearnApi/LostStart.antt =====
-- src/web_config_api.cpp, pollLearnApi: a request that comes while the driver is being cancelled.
use homekit_rf_ir_blaster.Base.{◌≡◌, refl, true, false, List, [], ◌∷◌}
use homekit_rf_ir_blaster.Device.Learning.{cancel_learn}
use homekit_rf_ir_blaster.Device.LearnApi.{
  idle, cancel_req, still_listening, handle_learn_poll, handle_learn_start, at_top, cancelled,
  LearnSystem, Surroundings, act, act_at, finish, publish, poll_learn_api, poll_all, requests_start,
  acts, publishes, move, moves,
}

poll_idle :
    (es : List Surroundings) (s : LearnSystem)
    → s.api.phase ≡ idle
    → s.point ≡ at_top
    → poll_all es s ≡ s
unfolding poll_all poll_learn_api finish act publish
poll_idle [] s e t = refl
poll_idle (x ∷ es) s e t =
    let same : poll_learn_api x s ≡ s = rw (e, t) refl in rw same (poll_idle es s e t)

-- Where the loop's task acts on a cancel request, and a start is requested before it publishes the
-- cancel, the start is lost: whatever polls of the loop's task follow, the phase is idle and the
-- driver has no session, while the poll handler reports that it still listens.
pub start_during_cancel_lost :
    (e : Surroundings) (es : List Surroundings) (s : LearnSystem)
    → s.api.phase ≡ cancel_req
    → s.point ≡ at_top
    → let after = poll_all es (moves (acts e ∷ requests_start true ∷ publishes ∷ []) s) in
      (after.api.phase ≡ idle)
      × (after.driver.active ≡ false)
      × (handle_learn_poll true after.api ≡ still_listening)
unfolding moves move act cancel_learn finish publish handle_learn_start handle_learn_poll
start_during_cancel_lost e es s p t =
    let stopped : LearnSystem = record s { driver = cancel_learn s.driver; point = cancelled } in
    let acted : act_at s.point e s ≡ stopped = rw t (simp p refl) in
    let lost : LearnSystem = record {
      api = record s.api { phase = idle };
      driver = cancel_learn s.driver;
      point = at_top;
    } in
    rw acted (rw (poll_idle es lost refl refl) (refl, refl, refl))
