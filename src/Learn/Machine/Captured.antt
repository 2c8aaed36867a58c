-- ===== src/Learn/Machine/Captured.antt =====
-- lib/learn/learn_machine.cpp, capture: the captured code against the checks of validation.
use native.Mathlib.Nat.{le-div_iff_mul-le, div-lt_iff_lt-mul}
use homekit_rf_ir_blaster.Base.{
  ℕ, ◌+◌, ◌*◌, ◌/◌, ◌%◌, ◌^◌, ◌≤◌, ◌<◌, ◌≡◌, refl, true, false, ◌⊎◌, inl, inr, List, [], ◌∷◌, ◌++◌,
  ltb, ◌==◌, if◌then◌else◌, length, null, arith, All, All-append, map, length-append, length-map,
  Bool-cases,
}
use homekit_rf_ir_blaster.Config.Model.{StoredCode, is_learned}
use homekit_rf_ir_blaster.Config.Validate.{fine, check_code}
use homekit_rf_ir_blaster.Learn.Match.{Source}
use homekit_rf_ir_blaster.Learn.Track.{Cluster, Track}
use homekit_rf_ir_blaster.Learn.Track.Invariant.{IsTotal, IsCluster, IsTrack}
use homekit_rf_ir_blaster.Learn.Track.Clusters.{IsPulse}
use homekit_rf_ir_blaster.Learn.Machine.{
  average, measured_gap, clamp_gap, stored_frame, captured_rf, captured_ir, captured_code,
}

-- A rounded average lies between the bounds of what is averaged.
average_bounds :
    (lo hi n total : ℕ)
    → 0 < n
    → lo * n ≤ total
    → total ≤ hi * n
    → hi < 2 ^ 16
    → (lo ≤ average n total) × (average n total ≤ hi)
average_bounds lo hi n total pos l h top =
    let q = (total + n / 2) / n in
    let least : lo ≤ q =
      (le-div_iff_mul-le {k = n} {x = lo} {y = total + n / 2} pos).1 (omega arith) in
    let most : q < hi + 1 =
      (div-lt_iff_lt-mul {k = n} {x = total + n / 2} {y = hi + 1} pos).1 (omega arith) in
    omega arith

stored_entries :
    (n : ℕ) (totals : List ℕ)
    → 0 < n
    → All (IsTotal n) totals
    → All IsPulse (map (average n) totals)
stored_entries n [] pos h = tt
stored_entries n (s ∷ ss) pos h =
    let (lo, hi) = average_bounds 1 65535 n s pos (omega arith) (omega arith) (omega arith) in
    ((lo, omega arith), stored_entries n ss pos h.1)

clamp_gap-IsPulse : (gap : ℕ) → IsPulse (clamp_gap gap % 2 ^ 16)
unfolding clamp_gap
clamp_gap-IsPulse gap = omega arith

-- What a captured code is: validation accepts it, it is learned, and it holds no zero duration.
pub record IsCaptured (c : StoredCode) : Type 0 where
  pub accepted : check_code c ≡ fine
  pub learned : is_learned c ≡ true
  pub pulsed : All IsPulse c.pulses

stored_pulses :
    (src : Source) (c : Cluster) (gap : ℕ)
    → 0 < c.count
    → IsCluster src c
    → All IsPulse (stored_frame c)
      × (length (stored_frame c) ≡ length c.repr)
      × All IsPulse (stored_frame c ++ (clamp_gap gap % 2 ^ 16 ∷ []))
      × (length (stored_frame c ++ (clamp_gap gap % 2 ^ 16 ∷ [])) ≡ length c.repr + 1)
unfolding stored_frame
stored_pulses src c gap pos k =
    let frame = map (average c.count) c.sum in
    let entries = stored_entries c.count c.sum pos k.totals in
    let size : length frame ≡ length c.repr =
      omega (arith, length-map c.sum (average c.count), k.aligned) in
    (
      entries,
      size,
      All-append IsPulse frame _ entries (clamp_gap-IsPulse gap, tt),
      omega (arith, length-append frame (clamp_gap gap % 2 ^ 16 ∷ [])),
    )

null_of_length : (xs : List ℕ) → 0 < length xs → null xs ≡ false
null_of_length [] h = absurd (omega arith)
null_of_length (x ∷ xs) h = refl

captured_rf-IsCaptured :
    (src : Source) (freq : ℕ) (t : Track) (c : Cluster)
    → (freq ≡ 315) ⊎ (freq ≡ 433)
    → length c.repr % 2 ≡ 1
    → 0 < c.count
    → IsTrack src t
    → IsCluster src c
    → IsCaptured (captured_rf freq t c)
unfolding captured_rf check_code is_learned
captured_rf-IsCaptured src freq t c band odd pos kt kc =
    let gap = if ltb 0 t.reset_gap_us then t.reset_gap_us else measured_gap c in
    let pulses = stored_frame c ++ (clamp_gap gap % 2 ^ 16 ∷ []) in
    let (entries, size, all_entries, all_size) = stored_pulses src c gap pos kc in
    let long = kc.long in
    let short = kc.short in
    let filled = null_of_length pulses (omega arith) in
    record { accepted = ground arith; learned = ground arith; pulsed = all_entries }

captured_ir-IsCaptured :
    (c : Cluster) → 0 < c.count → IsCluster Source.ir c → IsCaptured (captured_ir c)
unfolding captured_ir check_code is_learned
captured_ir-IsCaptured c pos kc =
    let (entries, size, all_entries, all_size) =
      stored_pulses Source.ir c (measured_gap c) pos kc in
    let frame = stored_frame c in
    let filled = null_of_length frame (omega (arith, kc.long)) in
    let filled' =
      null_of_length (frame ++ (clamp_gap (measured_gap c) % 2 ^ 16 ∷ [])) (omega arith) in
    let (lo, hi) =
      average_bounds 20000 60000 c.count c.carrier_sum pos kc.carriers.0 kc.carriers.1
        (omega arith) in
    elim (Bool-cases (length c.repr % 2 == 0)) [
      | inl e ↦ rw e (record {
        accepted = ground (arith, kc.long, kc.short);
        learned = ground arith;
        pulsed = entries;
      })
      | inr o ↦ rw o (record {
        accepted = ground (arith, kc.long, kc.short);
        learned = ground arith;
        pulsed = all_entries;
      })
    ]

pub captured_code-IsCaptured :
    (src : Source) (t : Track) (c : Cluster)
    → 0 < c.count
    → IsTrack src t
    → IsCluster src c
    → IsCaptured (captured_code src t c)
unfolding captured_code
captured_code-IsCaptured Source.rf315 t c pos kt kc =
    captured_rf-IsCaptured Source.rf315 315 t c (inl refl) kc.marked pos kt kc
captured_code-IsCaptured Source.rf433 t c pos kt kc =
    captured_rf-IsCaptured Source.rf433 433 t c (inr refl) kc.marked pos kt kc
captured_code-IsCaptured Source.ir t c pos kt kc = captured_ir-IsCaptured c pos kc
