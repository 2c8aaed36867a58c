-- ===== src/Device/Rmt/Cut.antt =====
-- src/rmt_pulse.h, packPulsesToSymbols: what a buffer without room for all halves loses.
use homekit_rf_ir_blaster.Base.{
  ℕ, zero, suc, ◌+◌, ◌-◌, ◌*◌, ◌≤◌, ◌<◌, ◌≡◌, refl, true, false, List, [], ◌∷◌, ◌++◌, ltb, ◌==◌,
  if◌then◌else◌, length, arith, Bool-cases, inl, inr,
}
use homekit_rf_ir_blaster.Device.Rmt.{
  rmt_max_dur, Half, RmtSymbol, push_half, push_pairs, to_words, pack_pulses_to_symbols,
}
use homekit_rf_ir_blaster.Device.Rmt.Timing.{halves_of, halves_needed, pair_time}

-- The time of the words, whatever their levels.
unfoldable pub whole_time : List RmtSymbol → ℕ
whole_time [] = 0
whole_time (w ∷ ws) = w.first.duration + w.second.duration + whole_time ws

total : List Half → ℕ
total [] = 0
total (h ∷ hs) = h.duration + total hs

total-append : (a b : List Half) → total (a ++ b) ≡ total a + total b
unfolding total
total-append [] b = omega arith
total-append (h ∷ hs) b = omega (arith, total-append hs b)

whole_time-to_words : (hs : List Half) → whole_time (to_words hs) ≡ total hs
unfolding whole_time to_words total
whole_time-to_words [] = refl
whole_time-to_words (h ∷ []) = omega arith
whole_time-to_words (h ∷ h' ∷ hs) = omega (arith, whole_time-to_words hs)

-- The chunks hold no more than the duration, and less than it where they lack room; with room for
-- them, they are as many as the duration takes.
record IsCut (room dur : ℕ) (hs : List Half) : Type 0 where
  most : total hs ≤ dur
  less : room < halves_of dur → total hs < dur
  exact : halves_of dur ≤ room → length hs ≡ halves_of dur

push_half-IsCut : (room level dur : ℕ) → IsCut room dur (push_half room level dur)
unfolding push_half total
push_half-IsCut zero level dur = record {
  most = omega arith;
  less = λ h. omega (arith, h);
  exact = λ h. omega (arith, h);
}
push_half-IsCut (suc room) level dur =
    let chunk = if ltb rmt_max_dur dur then rmt_max_dur else dur in
    let k = push_half-IsCut room level (dur - chunk) in
    elim (Bool-cases (dur == 0)) [
      | inl e ↦ rw e (record {
        most = omega arith;
        less = λ h. ground (arith, e, h);
        exact = λ h. ground (arith, e, h);
      })
      | inr e ↦ rw e (record {
        most = ground (arith, k.most);
        less = λ h. ground (arith, k.less, k.most, h, e);
        exact = λ h. ground (arith, k.exact, h, e);
      })
    ]

abbrev pub burst_time : List ℕ → ℕ
burst_time pulses = pair_time true pulses + pair_time false pulses

total-push_pairs :
    (room : ℕ) (pulses : List ℕ)
    → (total (push_pairs room pulses) ≤ burst_time pulses)
      × (room < halves_needed pulses → total (push_pairs room pulses) < burst_time pulses)
unfolding push_pairs total pair_time halves_needed
total-push_pairs room [] = (omega arith, λ h. omega (arith, h))
total-push_pairs room (mark ∷ []) = (omega arith, λ h. omega (arith, h))
total-push_pairs room (mark ∷ space ∷ rest) =
    let on = push_half room 1 mark in
    let off = push_half (room - length on) 0 space in
    let others = push_pairs (room - length on - length off) rest in
    let k = push_half-IsCut room 1 mark in
    let k' = push_half-IsCut (room - length on) 0 space in
    let (most, less) = total-push_pairs (room - length on - length off) rest in
    let parts = total-append on (off ++ others) in
    let parts' = total-append off others in
    elim (Bool-cases (room == 0)) [
      | inl e ↦ rw e (omega arith, λ h. ground (arith, e, h))
      | inr e ↦ rw e (
        omega (arith, parts, parts', k.most, k'.most, most),
        λ h. ground (
          arith, parts, parts', k.most, k'.most, most, k.less, k'.less, less, k.exact, k'.exact, h,
        ),
      )
    ]

-- A buffer without room for all the halves that the pulses take loses time of the burst.
pub pack_pulses_to_symbols_cut :
    (pulses : List ℕ) (max_symbols : ℕ)
    → max_symbols * 2 < halves_needed pulses
    → whole_time (pack_pulses_to_symbols pulses max_symbols) < burst_time pulses
unfolding pack_pulses_to_symbols
pack_pulses_to_symbols_cut pulses max_symbols h =
    let hs = push_pairs (max_symbols * 2) pulses in
    let less = (total-push_pairs (max_symbols * 2) pulses).1 h in
    omega (arith, whole_time-to_words hs, less)
