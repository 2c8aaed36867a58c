-- ===== src/Device/Sends/Burst.antt =====
-- src/accessory_builder.cpp, fireCode: the burst of a radio code, and the words of it that are sent.
use mathlib.Core.List.{append-nil}
use native.Mathlib.Nat.{le-div_iff_mul-le, mul-le-mul_left, le_trans}
use homekit_rf_ir_blaster.Base.{
  ℕ, zero, suc, ◌+◌, ◌++◌, true, false, All, ◌*◌, ◌/◌, ◌%◌, ◌^◌, ◌≤◌, ◌<◌, ◌≡◌, refl, ap, sym, ◌∙◌,
  List, [], ◌∷◌, min, max, leb, if◌then◌else◌, length, length-append, take, arith, Bool-cases, inl,
  inr,
}
use homekit_rf_ir_blaster.Config.Model.{StoredCode, max_pulses}
use homekit_rf_ir_blaster.Device.Radio.{rf_max_symbols}
use homekit_rf_ir_blaster.Device.Rmt.{rmt_max_dur, RmtSymbol, pack_pulses_to_symbols}
use homekit_rf_ir_blaster.Device.Rmt.Timing.{
  halves_needed, time_at, pair_time, pack_pulses_to_symbols_whole,
}
use homekit_rf_ir_blaster.Device.Rmt.Cut.{whole_time, burst_time, pack_pulses_to_symbols_cut}
use homekit_rf_ir_blaster.Device.Sends.{max_reps, rf_reps, copies, view, rf_burst}

length-copies : (n : ℕ) (pulses : List ℕ) → length (copies n pulses) ≡ n * length pulses
unfolding copies
length-copies zero pulses = ground arith
length-copies (suc n) pulses =
    ground (arith, length-append pulses (copies n pulses), length-copies n pulses)

take-length : (xs : List ℕ) → take (length xs) xs ≡ xs
take-length [] = refl
take-length (x ∷ xs) = ap (λ ys. x ∷ ys) (take-length xs)

view-eq : (pulses : List ℕ) → length pulses < 2 ^ 16 → view pulses ≡ pulses
view-eq pulses short =
    let same : length pulses % 2 ^ 16 ≡ length pulses = omega arith in rw same (take-length pulses)

max_reps_bounds :
    (unit : ℕ)
    → 1 ≤ unit
    → unit ≤ max_pulses
    → (max_reps unit ≡ max_pulses / unit) × (1 ≤ max_pulses / unit)
unfolding max_reps
max_reps_bounds unit filled short =
    let once = (le-div_iff_mul-le {k = unit} {x = 1} {y = max_pulses} filled).1 (omega arith) in
    (ground arith, once)

-- Pairs of marks and spaces stay pairs behind other whole pairs.
append-pairs :
    (pulses others : List ℕ)
    → length pulses % 2 ≡ 0
    → (halves_needed (pulses ++ others) ≡ halves_needed pulses + halves_needed others)
      × (pair_time true (pulses ++ others) ≡ pair_time true pulses + pair_time true others)
      × (pair_time false (pulses ++ others) ≡ pair_time false pulses + pair_time false others)
unfolding halves_needed pair_time
append-pairs [] others even = (omega arith, omega arith, omega arith)
append-pairs (mark ∷ []) others even = absurd (omega (arith, even))
append-pairs (mark ∷ space ∷ rest) others even =
    let (needed, marks, spaces) = append-pairs rest others (omega (arith, even)) in
    (omega (arith, needed), omega (arith, marks), omega (arith, spaces))

copies-pairs :
    (n : ℕ) (pulses : List ℕ)
    → length pulses % 2 ≡ 0
    → (halves_needed (copies n pulses) ≡ n * halves_needed pulses)
      × (pair_time true (copies n pulses) ≡ n * pair_time true pulses)
      × (pair_time false (copies n pulses) ≡ n * pair_time false pulses)
unfolding copies halves_needed pair_time
copies-pairs zero pulses even = (omega arith, omega arith, omega arith)
copies-pairs (suc n) pulses even =
    let (needed, marks, spaces) = copies-pairs n pulses even in
    let (needed', marks', spaces') = append-pairs pulses (copies n pulses) even in
    (
      ground (arith, needed, needed'),
      ground (arith, marks, marks'),
      ground (arith, spaces, spaces'),
    )

-- The halves of durations that need no splitting.
halves_needed_short :
    (pulses : List ℕ) → All (λ d. d ≤ rmt_max_dur) pulses → halves_needed pulses ≤ length pulses
unfolding halves_needed
halves_needed_short [] k = omega arith
halves_needed_short (mark ∷ []) k = omega arith
halves_needed_short (mark ∷ space ∷ rest) k =
    let (mark15, (space15, rest15)) = k in omega (arith, halves_needed_short rest rest15)

-- The words that a band's buffer of 256 words, two halves each, takes of a burst.
abbrev pub rf_words : StoredCode → List RmtSymbol
rf_words sc = pack_pulses_to_symbols (rf_burst sc) rf_max_symbols

-- What one keying of n copies of the frame holds.
pub record IsKeyed (sc : StoredCode) (n : ℕ) : Type 0 where
  pub burst : rf_burst sc ≡ copies n sc.pulses
  pub clamped : n ≡ min (max 1 sc.frame_repeat) (max_pulses / length sc.pulses)
  pub once : 1 ≤ n
  pub fits : length (rf_burst sc) ≤ max_pulses
  pub whole :
      n * halves_needed sc.pulses ≤ max_pulses
      → (time_at 1 (rf_words sc) ≡ n * pair_time true sc.pulses)
        × (time_at 0 (rf_words sc) ≡ n * pair_time false sc.pulses)
  pub cut :
      max_pulses < n * halves_needed sc.pulses → whole_time (rf_words sc) < n * burst_time sc.pulses
  pub short : All (λ d. d ≤ rmt_max_dur) sc.pulses → n * halves_needed sc.pulses ≤ max_pulses

rf_reps_lem :
    (sc : StoredCode)
    → 1 ≤ length sc.pulses
    → length sc.pulses ≤ max_pulses
    → sc.frame_repeat < 256
    → rf_reps sc ≡ min (max 1 sc.frame_repeat) (max_pulses / length sc.pulses)
unfolding rf_reps
rf_reps_lem sc filled short byte =
    let (fit, one) = max_reps_bounds (length sc.pulses) filled short in ground (arith, fit, one)

keyed_view :
    (n : ℕ) (pulses : List ℕ)
    → 1 ≤ n
    → length (copies n pulses) ≤ max_pulses
    → (if leb n 1 then view pulses else view (copies n pulses)) ≡ copies n pulses
keyed_view n pulses once small = elim (Bool-cases (leb n 1)) [
  | inl e ↦
      let one : n ≡ 1 = ground arith in
      let small' = rw one at small in
      rw one (
        unfold copies in
        view-eq pulses (omega (arith, small', length-append pulses [])) ∙ sym (append-nil pulses))
  | inr e ↦ rw e (view-eq (copies n pulses) (omega (arith, small)))
]

rf_words_whole :
    (sc : StoredCode) (n : ℕ)
    → length sc.pulses % 2 ≡ 0
    → rf_burst sc ≡ copies n sc.pulses
    → n * halves_needed sc.pulses ≤ max_pulses
    → (time_at 1 (rf_words sc) ≡ n * pair_time true sc.pulses)
      × (time_at 0 (rf_words sc) ≡ n * pair_time false sc.pulses)
rf_words_whole sc n even burst room =
    let (needed, marks, spaces) = copies-pairs n sc.pulses even in
    let fitting : halves_needed (copies n sc.pulses) ≤ rf_max_symbols * 2 = rw needed room in
    let (on, off) = pack_pulses_to_symbols_whole (copies n sc.pulses) rf_max_symbols fitting in
    rw burst (on ∙ marks, off ∙ spaces)

rf_words_cut :
    (sc : StoredCode) (n : ℕ)
    → length sc.pulses % 2 ≡ 0
    → rf_burst sc ≡ copies n sc.pulses
    → max_pulses < n * halves_needed sc.pulses
    → whole_time (rf_words sc) < n * burst_time sc.pulses
rf_words_cut sc n even burst crowded =
    let (needed, marks, spaces) = copies-pairs n sc.pulses even in
    let over : rf_max_symbols * 2 < halves_needed (copies n sc.pulses) = rw needed crowded in
    let lost = pack_pulses_to_symbols_cut (copies n sc.pulses) rf_max_symbols over in
    rw burst (ground (arith, lost, marks, spaces))

halves_needed_reps :
    (n : ℕ) (pulses : List ℕ)
    → n * length pulses ≤ max_pulses
    → All (λ d. d ≤ rmt_max_dur) pulses
    → n * halves_needed pulses ≤ max_pulses
halves_needed_reps n pulses sized k =
    le_trans (mul-le-mul_left n (halves_needed_short pulses k)) sized

-- A radio code of an even number of durations, not zero and at most 512, with a frame repeat of one
-- byte, is keyed as whole copies of its frame: as many as its frame repeat asks for, at least one,
-- and no more than fit 512 durations. The words that the 256-word buffer takes of them hold the time
-- of the marks and of the spaces of all copies, if the copies take at most 512 halves of words, as
-- they do where no duration exceeds 32767; copies that take more lose some of their time.
pub rf_burst-IsKeyed :
    (sc : StoredCode)
    → 1 ≤ length sc.pulses
    → length sc.pulses ≤ max_pulses
    → length sc.pulses % 2 ≡ 0
    → sc.frame_repeat < 256
    → IsKeyed sc (rf_reps sc)
unfolding rf_burst
rf_burst-IsKeyed sc filled short even byte =
    let n = rf_reps sc in
    let clamped = rf_reps_lem sc filled short byte in
    let (fit, one) = max_reps_bounds (length sc.pulses) filled short in
    let below : n ≤ max_pulses / length sc.pulses = omega (arith, clamped) in
    let sized : n * length sc.pulses ≤ max_pulses =
      (le-div_iff_mul-le {k = length sc.pulses} {x = n} {y = max_pulses} filled).0 below in
    let once : 1 ≤ n = omega (arith, clamped, one) in
    let small : length (copies n sc.pulses) ≤ max_pulses = rw (length-copies n sc.pulses) sized in
    let burst : rf_burst sc ≡ copies n sc.pulses = keyed_view n sc.pulses once small in
    record {
      burst = burst;
      clamped = clamped;
      once = once;
      fits = rw burst small;
      whole = rf_words_whole sc n even burst;
      cut = rf_words_cut sc n even burst;
      short = halves_needed_reps n sc.pulses sized;
    }
