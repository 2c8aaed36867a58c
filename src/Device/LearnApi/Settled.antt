-- ===== src/Device/LearnApi/Settled.antt =====
-- src/web_config_api.cpp, pollLearnApi: how a session that was requested ends.
use homekit_rf_ir_blaster.Base.{
  ℕ, ◌+◌, ◌%◌, ◌^◌, ◌≤◌, ◌≡◌, ◌⊎◌, inl, inr, refl, sym, ap, subst, Bool, true, false, List, [], ◌∷◌,
}
use homekit_rf_ir_blaster.Learn.Machine.{Machine, State, begin, window_ms}
use homekit_rf_ir_blaster.Device.Learning.{Driver, start_learn, poll_learn}
use homekit_rf_ir_blaster.Device.Learning.Progress.{
  IsUnderWay, is_done, poll_learn-active, poll_learn-IsUnderWay,
}
use homekit_rf_ir_blaster.Device.LearnApi.{
  LearnPhase, idle, start_req, listening, captured, failed, cancel_req, LearnApi, LoopPoint, at_top,
  LearnSystem, Surroundings, after_poll, act, finish, publish, publish_started, poll_learn_api,
  poll_all,
}

-- The phase that waits for the client.
abbrev pub is_settled : LearnPhase → Bool
is_settled idle = false
is_settled start_req = false
is_settled listening = false
is_settled captured = true
is_settled failed = true
is_settled cancel_req = false

-- Listening with a session under way, or settled.
abbrev Awaits : ℕ → LearnSystem → Type 0
Awaits deadline s =
    (s.point ≡ at_top)
    × (((s.api.phase ≡ listening)
          × (s.driver.active ≡ true)
          × (s.driver.machine.state ≡ State.listening)
          × (s.driver.machine.deadline ≡ deadline))
        ⊎ (is_settled s.api.phase ≡ true))

-- What the step of a poll brings about.
abbrev Settles : ℕ → ℕ → LearnSystem → Type 0
Settles deadline now s =
    Awaits deadline s × (deadline ≤ now % 2 ^ 32 → is_settled s.api.phase ≡ true)

after_poll-Settles :
    (st : State) (deadline now : ℕ) (a : LearnApi) (d : Driver)
    → a.phase ≡ listening
    → d.machine.state ≡ st
    → (st ≡ State.listening → d.active ≡ true)
    → IsUnderWay deadline d.machine × (deadline ≤ now % 2 ^ 32 → is_done d.machine.state ≡ true)
    → Settles deadline now (finish (after_poll st a d))
unfolding after_poll finish publish
after_poll-Settles State.idle deadline now a d p e active k =
    absurd (not_idle deadline d.machine e k.0)
  where
    not_idle : (deadline : ℕ) (m : Machine) → m.state ≡ State.idle → IsUnderWay deadline m → ⊥
    not_idle deadline m e (inl (l, h)) = cc (e, l)
    not_idle deadline m e (inr h) = let h' = rw e at h in cc h'
after_poll-Settles State.listening deadline now a d p e active (inl (l, h), late) =
    ((refl, inl (p, active refl, l, h)), λ due. let h' = rw e at (late due) in absurd cc)
after_poll-Settles State.listening deadline now a d p e active (inr done, late) =
    let h' = rw e at done in absurd cc
after_poll-Settles State.captured deadline now a d p e active k =
    rw p ((refl, inr refl), λ due. refl)
after_poll-Settles State.failed deadline now a d p e active k = rw p ((refl, inr refl), λ due. refl)

act-settled :
    (p : LearnPhase) (e : Surroundings) (s : LearnSystem) → is_settled p ≡ true → act p e s ≡ s
unfolding act
act-settled captured e s h = refl
act-settled failed e s h = refl
act-settled idle e s h = absurd cc
act-settled start_req e s h = absurd cc
act-settled listening e s h = absurd cc
act-settled cancel_req e s h = absurd cc

at_top_again : (s : LearnSystem) → s.point ≡ at_top → record s { point = at_top } ≡ s
at_top_again s t = ap (λ (q : LoopPoint). record s { point = q }) (sym t)

finish_settled :
    (s : LearnSystem)
    → s.point ≡ at_top
    → is_settled s.api.phase ≡ true
    → (e : Surroundings) → finish (act s.api.phase e s) ≡ s
unfolding finish publish
finish_settled s t settled e = rw (act-settled s.api.phase e s settled) (simp t (at_top_again s t))

poll_learn_api-Settles :
    (deadline : ℕ) (e : Surroundings) (s : LearnSystem)
    → Awaits deadline s
    → Settles deadline e.now (poll_learn_api e s)
unfolding poll_learn_api
poll_learn_api-Settles deadline e s (t, inl (p, a, l, h)) =
    let d = poll_learn e.now e.frames s.driver in
    let done : Settles deadline e.now (finish (act listening e s)) =
      unfold act in
      after_poll-Settles d.machine.state deadline e.now s.api d p refl
        (poll_learn-active e.now e.frames s.driver a)
        (poll_learn-IsUnderWay e.now deadline e.frames s.driver a (inl (l, h))) in
    subst (λ q. Settles deadline e.now (finish (act q e s))) (sym p) done
poll_learn_api-Settles deadline e s (t, inr settled) =
    subst (Settles deadline e.now) (sym (finish_settled s t settled e))
      ((t, inr settled), λ due. settled)

poll_all-Awaits :
    (deadline : ℕ) (es : List Surroundings) (s : LearnSystem)
    → Awaits deadline s
    → Awaits deadline (poll_all es s)
unfolding poll_all
poll_all-Awaits deadline [] s k = k
poll_all-Awaits deadline (e ∷ es) s k =
    poll_all-Awaits deadline es (poll_learn_api e s) (poll_learn_api-Settles deadline e s k).0

started-Awaits :
    (e : Surroundings) (s : LearnSystem)
    → s.api.phase ≡ start_req
    → s.point ≡ at_top
    → Awaits (e.now % 2 ^ 32 + window_ms) (poll_learn_api e s)
unfolding poll_learn_api act finish publish publish_started start_learn begin
started-Awaits e s p t = rw p (refl, inl (refl, refl, refl, refl))

-- A start that is requested ends: the poll that reads the request starts the session, and after any
-- further polls, a poll at which the 32-bit clock shows at least 30 s more than it showed at the start
-- leaves a code or a failure for the client, if no other request comes.
pub poll_all-settles :
    (first last : Surroundings) (es : List Surroundings) (s : LearnSystem)
    → s.api.phase ≡ start_req
    → s.point ≡ at_top
    → first.now % 2 ^ 32 + window_ms ≤ last.now % 2 ^ 32
    → is_settled (poll_learn_api last (poll_all es (poll_learn_api first s))).api.phase ≡ true
poll_all-settles first last es s p t late =
    let waits =
      poll_all-Awaits (first.now % 2 ^ 32 + window_ms) es _ (started-Awaits first s p t) in
    (poll_learn_api-Settles (first.now % 2 ^ 32 + window_ms) last _ waits).1 late
