-- ===== src/Learn/Match.antt =====
-- lib/learn/signal_match.h and signal_match.cpp: when two bursts count as the same.
pub mod Symmetry
use homekit_rf_ir_blaster.Base.{
  ℕ, ◌-◌, ◌*◌, Bool, true, false, ◌&&◌, ◌||◌, not, List, [], ◌∷◌, ltb, leb, ◌==◌, if◌then◌else◌,
  length, all, max,
}
use homekit_rf_ir_blaster.Config.Model.{max_pulses}

pub data Source : Type 0 where
  rf315 rf433 ir : Source

abbrev pub is_ir : Source → Bool
is_ir rf315 = false
is_ir rf433 = false
is_ir ir = true

abbrev pub min_burst_pulses : ℕ
min_burst_pulses = 16

abbrev pub max_burst_pulses : ℕ
max_burst_pulses = max_pulses - 1

abbrev pub match_tolerance_percent : ℕ
match_tolerance_percent = 25

abbrev pub match_tolerance_us : ℕ
match_tolerance_us = 100

abbrev pub ir_carrier_min_hz : ℕ
ir_carrier_min_hz = 20000

abbrev pub ir_carrier_max_hz : ℕ
ir_carrier_max_hz = 60000

unfoldable pub durations_match : ℕ → ℕ → Bool
durations_match a b =
    let diff = if ltb b a then a - b else b - a in
    let ref = max a b in
    leb (diff * 100) (ref * match_tolerance_percent) || leb diff match_tolerance_us

unfoldable pub well_formed : Source → List ℕ → ℕ → Bool
well_formed src pulses carrier_hz =
    if ltb (length pulses) min_burst_pulses || ltb max_burst_pulses (length pulses)
    then false
    else if not (all (λ p. not (p == 0)) pulses)
    then false
    else if is_ir src && (ltb carrier_hz ir_carrier_min_hz || ltb ir_carrier_max_hz carrier_hz)
    then false
    else true

-- The lengths are compared first; the loop then runs over both buffers at once.
unfoldable pub entries_match : List ℕ → List ℕ → Bool
entries_match [] bs = true
entries_match (a ∷ as') [] = true
entries_match (a ∷ as') (b ∷ bs) = durations_match a b && entries_match as' bs

unfoldable pub bursts_match : List ℕ → List ℕ → Bool
bursts_match a b = length a == length b && entries_match a b

-- The least entry of a non-empty buffer.
unfoldable pub min_element : ℕ → List ℕ → ℕ
min_element m [] = m
min_element m (x ∷ xs) = min_element (if ltb x m then x else m) xs

unfoldable pub structurally_alike : List ℕ → List ℕ → Bool
structurally_alike [] b = false
structurally_alike (x ∷ xs) [] = false
structurally_alike (x ∷ xs) (y ∷ ys) =
    length (x ∷ xs) == length (y ∷ ys) && durations_match (min_element x xs) (min_element y ys)
