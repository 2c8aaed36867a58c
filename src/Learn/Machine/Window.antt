-- ===== src/Learn/Machine/Window.antt =====
-- lib/learn/learn_machine.cpp, begin and tick: the capture window.
use homekit_rf_ir_blaster.Base.{
  ℕ, ◌+◌, ◌≤◌, ◌<◌, ◌≡◌, ◌≢◌, ◌⊎◌, inl, inr, refl, true, false, List, [], ◌∷◌, Option, none, some,
  arith, All, le→leb,
}
use homekit_rf_ir_blaster.Learn.Match.{Source}
use homekit_rf_ir_blaster.Learn.Track.{Placed, feed_track}
use homekit_rf_ir_blaster.Learn.Machine.{
  Machine, State, idle, listening, captured, failed, timeout, noisy, Event, begins, cancels, ticks,
  takes, bursts, capture, check_rolling, conclude, listen, feed_burst, begin, cancel, tick,
  take_code, fail, reset, step, run, track_of, set_track, is_listening, window_ms,
}

-- No call but `begin` opens a session.
abbrev pub IsLater : Event → Type 0
IsLater (begins now) = ⊥
IsLater (ticks now) = Unit {0}
IsLater cancels = Unit {0}
IsLater takes = Unit {0}
IsLater (bursts src pulses hz now) = Unit {0}

-- Closed, or listening with the deadline as it was.
abbrev ClosesBy : ℕ → Machine → Type 0
ClosesBy d m = (is_listening m.state ≡ false) ⊎ (m.deadline ≡ d)

conclude-deadline :
    (src : Source) (cl : Option ℕ) (m : Machine) → (conclude src cl m).deadline ≡ m.deadline
unfolding conclude capture check_rolling fail
conclude-deadline src none m = ground arith
conclude-deadline src (some i) m = ground arith

set_track-deadline :
    (src : Source) (p : Placed) (m : Machine) → (set_track src p.track m).deadline ≡ m.deadline
set_track-deadline Source.rf315 p m = refl
set_track-deadline Source.rf433 p m = refl
set_track-deadline Source.ir p m = refl

feed_burst-deadline :
    (src : Source) (pulses : List ℕ) (hz now : ℕ) (m : Machine)
    → (feed_burst src pulses hz now m).deadline ≡ m.deadline
unfolding feed_burst listen
feed_burst-deadline src pulses hz now m =
    let p = feed_track src pulses hz now (track_of src m) in
    let active : Machine = record m { saw_activity = true } in
    ground (
      arith,
      conclude-deadline src p.index (set_track src p.track active),
      set_track-deadline src p active,
    )

step-ClosesBy : (d : ℕ) (e : Event) (m : Machine) → IsLater e → ClosesBy d m → ClosesBy d (step e m)
unfolding step cancel tick take_code fail reset
step-ClosesBy d (begins now) m l c = elim l [ ]
step-ClosesBy d (ticks now) m l c = ground arith
step-ClosesBy d cancels m l c = inl refl
step-ClosesBy d takes m l c = ground arith
step-ClosesBy d (bursts src pulses hz now) m l (inl c) = inl (unfold feed_burst in rw c c)
step-ClosesBy d (bursts src pulses hz now) m l (inr c) =
    inr (omega (arith, feed_burst-deadline src pulses hz now m))

run-ClosesBy :
    (d : ℕ) (es : List Event) (m : Machine) → All IsLater es → ClosesBy d m → ClosesBy d (run es m)
unfolding run
run-ClosesBy d [] m l c = c
run-ClosesBy d (e ∷ es) m l c = run-ClosesBy d es (step e m) l.1 (step-ClosesBy d e m l.0 c)

tick_closes :
    (d now : ℕ) (m : Machine) → d ≤ now → ClosesBy d m → is_listening (tick now m).state ≡ false
unfolding tick fail
tick_closes d now m h c = ground arith

-- A session begun at `start` is closed by any tick at or after `start + 30000` ms, whatever bursts,
-- ticks, cancels and takes came in between.
pub begin-tick_closed :
    (start now : ℕ) (es : List Event) (m : Machine)
    → All IsLater es
    → start + window_ms ≤ now
    → is_listening (tick now (run es (begin start m))).state ≡ false
unfolding begin
begin-tick_closed start now es m l h =
    tick_closes (start + window_ms) now (run es (begin start m)) h
      (run-ClosesBy (start + window_ms) es (begin start m) l (inr refl))

-- The verdict of a tick: at or after the deadline a listening machine fails, as noisy if it saw a
-- burst and as a timeout if not; before the deadline, or when not listening, nothing changes.
pub tick_lem :
    (now : ℕ) (m : Machine)
    → (m.state ≡ listening
        → m.deadline ≤ now
        → ((tick now m).state ≡ failed)
          × (m.saw_activity ≡ true → (tick now m).reason ≡ noisy)
          × (m.saw_activity ≡ false → (tick now m).reason ≡ timeout))
      × (m.state ≢ listening → tick now m ≡ m)
      × (now < m.deadline → tick now m ≡ m)
unfolding tick fail
tick_lem now m = (
  λ e h. rw (e, le→leb m.deadline now h) (refl, λ a. rw a, λ a. rw a),
  λ ne. tick_idle m.state refl ne,
  λ h. ground arith,
)
  where
    tick_idle : (s : State) → m.state ≡ s → m.state ≢ listening → tick now m ≡ m
    tick_idle idle e ne = rw e
    tick_idle listening e ne = absurd (ne e)
    tick_idle captured e ne = rw e
    tick_idle failed e ne = rw e
