-- ===== src/Learn/Machine/History.antt =====
-- lib/learn/learn_machine.cpp: the machine's invariant, over histories of calls.
use homekit_rf_ir_blaster.Base.{
  ℕ, ◌<◌, ◌≡◌, refl, true, List, [], ◌∷◌, Option, none, some, length, null, arith, All, Bool-cases,
  get_elem?-All, get_or, get_or-of_lt, leb, not, ◌||◌, ◌&&◌, inl, inr, subst,
}
use homekit_rf_ir_blaster.Config.Model.{StoredCode}
use homekit_rf_ir_blaster.Learn.Match.{Source, is_ir}
use homekit_rf_ir_blaster.Learn.Track.{Cluster, Track, Placed, empty_cluster, is_rolling}
use homekit_rf_ir_blaster.Learn.Track.Invariant.{
  IsBurst, IsCluster, Below, IsTrack, empty_track-IsTrack,
}
use homekit_rf_ir_blaster.Learn.Track.Feed.{IsFed, feed_track-IsFed}
use homekit_rf_ir_blaster.Learn.Machine.Captured.{IsCaptured, captured_code-IsCaptured}
use homekit_rf_ir_blaster.Learn.Machine.{
  Machine, State, idle, listening, captured, failed, FailReason, Event, begins, cancels, ticks,
  takes, bursts, captured_code, capture, qualifies, check_rolling, conclude, listen, feed_burst,
  begin, cancel, tick, take_code, fail, reset, step, run, track_of, set_track, clear_tracks,
  is_listening, is_captured,
}

-- A code that waits to be taken is one that validation accepts.
abbrev pub CodeWaits : State → StoredCode → Type 0
CodeWaits idle c = Unit {0}
CodeWaits listening c = Unit {0}
CodeWaits captured c = IsCaptured c
CodeWaits failed c = Unit {0}

pub record IsMachine (m : Machine) : Type 0 where
  pub sound315 : IsTrack Source.rf315 m.track315
  pub sound433 : IsTrack Source.rf433 m.track433
  pub sound_ir : IsTrack Source.ir m.track_ir
  pub waits : CodeWaits m.state m.code

-- What the receivers hand over is a burst of their kind.
abbrev pub IsInput : Event → Type 0
IsInput (begins now) = Unit {0}
IsInput (ticks now) = Unit {0}
IsInput cancels = Unit {0}
IsInput takes = Unit {0}
IsInput (bursts src pulses carrier_hz now) = IsBurst src pulses

track_of-IsTrack : (src : Source) (m : Machine) → IsMachine m → IsTrack src (track_of src m)
track_of-IsTrack Source.rf315 m k = k.sound315
track_of-IsTrack Source.rf433 m k = k.sound433
track_of-IsTrack Source.ir m k = k.sound_ir

-- With the tracks dropped, only the code matters.
cleared-IsMachine :
    (m : Machine) (c : StoredCode) (s : State) (r : FailReason)
    → CodeWaits s c
    → IsMachine (record (clear_tracks m) { code = c; state = s; reason = r })
cleared-IsMachine m c s r w = record {
  sound315 = empty_track-IsTrack Source.rf315;
  sound433 = empty_track-IsTrack Source.rf433;
  sound_ir = empty_track-IsTrack Source.ir;
  waits = w;
}

fail-IsMachine : (r : FailReason) (m : Machine) → IsMachine (fail r m)
unfolding fail
fail-IsMachine r m = cleared-IsMachine m m.code failed r tt

pub reset-IsMachine : IsMachine reset
unfolding reset
reset-IsMachine = record {
  sound315 = empty_track-IsTrack Source.rf315;
  sound433 = empty_track-IsTrack Source.rf433;
  sound_ir = empty_track-IsTrack Source.ir;
  waits = tt;
}

set_track-IsMachine :
    (src : Source) (t : Track) (m : Machine)
    → IsTrack src t
    → IsMachine m
    → IsMachine (set_track src t m)
set_track-IsMachine Source.rf315 t m kt k = record {
  sound315 = kt;
  sound433 = k.sound433;
  sound_ir = k.sound_ir;
  waits = k.waits;
}
set_track-IsMachine Source.rf433 t m kt k = record {
  sound315 = k.sound315;
  sound433 = kt;
  sound_ir = k.sound_ir;
  waits = k.waits;
}
set_track-IsMachine Source.ir t m kt k = record {
  sound315 = k.sound315;
  sound433 = k.sound433;
  sound_ir = kt;
  waits = k.waits;
}

check_rolling-IsMachine :
    (src : Source) (m : Machine) → IsMachine m → IsMachine (check_rolling src m)
unfolding check_rolling
check_rolling-IsMachine src m k = elim (Bool-cases (is_ir src)) [
  | inl i ↦ rw i k
  | inr r ↦ rw r (elim (Bool-cases (is_rolling (track_of src m))) [
    | inl e ↦ rw e (fail-IsMachine FailReason.rolling m)
    | inr e ↦ rw e k
  ])
]

qualifies-count : (src : Source) (c : Cluster) → qualifies src c ≡ true → 0 < c.count
unfolding qualifies
qualifies-count src c q = ground arith

conclude-IsMachine :
    (src : Source) (cl : Option ℕ) (m : Machine)
    → Below (length (track_of src m).clusters) cl
    → IsMachine m
    → IsMachine (conclude src cl m)
unfolding conclude capture
conclude-IsMachine src none m b k = check_rolling-IsMachine src m k
conclude-IsMachine src (some i) m b k =
    let t = track_of src m in
    let c = get_or t.clusters i empty_cluster in
    let kt = track_of-IsTrack src m k in
    let kc =
      get_elem?-All (IsCluster src) t.clusters i c (get_or-of_lt t.clusters i empty_cluster b)
        kt.clustered in
    elim (Bool-cases (qualifies src c)) [
      | inl q ↦ rw q (
          cleared-IsMachine m (captured_code src t c) captured m.reason
            (captured_code-IsCaptured src t c (qualifies-count src c q) kt kc))
      | inr q ↦ rw q (check_rolling-IsMachine src m k)
    ]

track_of-set_track : (src : Source) (t : Track) (m : Machine) → track_of src (set_track src t m) ≡ t
track_of-set_track Source.rf315 t m = refl
track_of-set_track Source.rf433 t m = refl
track_of-set_track Source.ir t m = refl

listen-IsMachine :
    (src : Source) (p : Placed) (m : Machine)
    → IsFed src p
    → IsMachine m
    → IsMachine (listen src p m)
unfolding listen
listen-IsMachine src p m f k =
    let active : Machine = record m { saw_activity = true } in
    conclude-IsMachine src p.index (set_track src p.track active)
      (rw (track_of-set_track src p.track active) f.1)
      (set_track-IsMachine src p.track active f.0 (record {
        sound315 = k.sound315;
        sound433 = k.sound433;
        sound_ir = k.sound_ir;
        waits = k.waits;
      }))

feed_burst-IsMachine :
    (src : Source) (pulses : List ℕ) (hz now : ℕ) (m : Machine)
    → IsBurst src pulses
    → IsMachine m
    → IsMachine (feed_burst src pulses hz now m)
unfolding feed_burst
feed_burst-IsMachine src pulses hz now m b k =
    elim (Bool-cases (not (is_listening m.state) || null pulses)) [
      | inl e ↦ rw e k
      | inr e ↦ rw e (
          listen-IsMachine src _ m
            (feed_track-IsFed src pulses hz now (track_of src m) b (track_of-IsTrack src m k)) k)
    ]

step-IsMachine : (e : Event) (m : Machine) → IsInput e → IsMachine m → IsMachine (step e m)
unfolding step begin cancel tick take_code
step-IsMachine (begins now) m i k = record {
  sound315 = empty_track-IsTrack Source.rf315;
  sound433 = empty_track-IsTrack Source.rf433;
  sound_ir = empty_track-IsTrack Source.ir;
  waits = tt;
}
step-IsMachine (ticks now) m i k = elim (Bool-cases (is_listening m.state && leb m.deadline now)) [
  | inl e ↦ rw e (fail-IsMachine _ m)
  | inr e ↦ rw e k
]
step-IsMachine cancels m i k = reset-IsMachine
step-IsMachine takes m i k = elim (Bool-cases (is_captured m.state)) [
  | inl e ↦ rw (e, step) reset-IsMachine
  | inr e ↦ rw (e, step) k
]
step-IsMachine (bursts src pulses hz now) m b k = feed_burst-IsMachine src pulses hz now m b k

-- Every history of calls with well-shaped bursts keeps the three tracks sound (each index that a
-- track keeps is in range, sums and averages fit their types) and the waiting code acceptable.
pub run-IsMachine :
    (es : List Event) (m : Machine) → All IsInput es → IsMachine m → IsMachine (run es m)
unfolding run
run-IsMachine [] m i k = k
run-IsMachine (e ∷ es) m i k = run-IsMachine es (step e m) i.1 (step-IsMachine e m i.0 k)

waiting_code : (m : Machine) → IsMachine m → m.state ≡ captured → IsCaptured m.code
waiting_code m k e = subst (λ s. CodeWaits s m.code) e k.waits

-- From a new machine, whatever calls were made with uint16_t bursts (an RF burst ending on a mark):
-- once the state is Captured, the code that takeCode hands over is learned, passes every check that
-- validate makes of a code, and has no zero duration.
pub run-take_code-IsCaptured :
    (es : List Event)
    → All IsInput es
    → (run es reset).state ≡ captured
    → IsCaptured (take_code (run es reset)).0
unfolding take_code
run-take_code-IsCaptured es i e =
    let k = waiting_code (run es reset) (run-IsMachine es reset i reset-IsMachine) e in rw e k
