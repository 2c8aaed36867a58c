-- ===== src/Device/Rmt/Timing.antt =====
-- src/rmt_pulse.h, packPulsesToSymbols: the sizes and the times of the words.
use homekit_rf_ir_blaster.Base.{
  ℕ, zero, suc, ◌+◌, ◌-◌, ◌*◌, ◌/◌, ◌≤◌, ◌≡◌, ◌∙◌, refl, Bool, true, false, List, [], ◌∷◌, ◌++◌,
  ltb, ◌==◌, if◌then◌else◌, length, length-append, All, All-append, arith, Bool-cases, inl, inr,
}
use homekit_rf_ir_blaster.Learn.Merge.Shape.{IsU16}
use homekit_rf_ir_blaster.Device.Rmt.{
  rmt_max_dur, Half, RmtSymbol, push_half, push_pairs, to_words, pack_pulses_to_symbols,
}

abbrev pub IsShort : Half → Type 0
IsShort h = h.duration ≤ rmt_max_dur

-- A word whose durations fit their 15 bits.
abbrev pub IsWord : RmtSymbol → Type 0
IsWord w = IsShort w.first × IsShort w.second

length-push_half : (room level dur : ℕ) → length (push_half room level dur) ≤ room
unfolding push_half
length-push_half zero level dur = omega arith
length-push_half (suc room) level dur =
    let chunk = if ltb rmt_max_dur dur then rmt_max_dur else dur in
    ground (arith, length-push_half room level (dur - chunk))

push_half-IsShort : (room level dur : ℕ) → All IsShort (push_half room level dur)
unfolding push_half
push_half-IsShort zero level dur = tt
push_half-IsShort (suc room) level dur =
    let chunk = if ltb rmt_max_dur dur then rmt_max_dur else dur in
    ground (arith, push_half-IsShort room level (dur - chunk))

push_pairs_fits :
    (room : ℕ) (pulses : List ℕ)
    → (length (push_pairs room pulses) ≤ room) × All IsShort (push_pairs room pulses)
unfolding push_pairs
push_pairs_fits room [] = (omega arith, tt)
push_pairs_fits room (mark ∷ []) = (omega arith, tt)
push_pairs_fits room (mark ∷ space ∷ rest) =
    let on = push_half room 1 mark in
    let off = push_half (room - length on) 0 space in
    let others = push_pairs (room - length on - length off) rest in
    let (size, short) = push_pairs_fits (room - length on - length off) rest in
    let all =
      All-append IsShort on (off ++ others) (push_half-IsShort room 1 mark)
        (All-append IsShort off others (push_half-IsShort (room - length on) 0 space) short) in
    let a = length-push_half room 1 mark in
    let b = length-push_half (room - length on) 0 space in
    let whole = length-append on (off ++ others) in
    let part = length-append off others in
    elim (Bool-cases (room == 0)) [
      | inl e ↦ rw e (omega arith, tt)
      | inr e ↦ rw e (omega arith, all)
    ]

to_words_fits :
    (hs : List Half)
    → All IsShort hs
    → (length (to_words hs) * 2 ≤ length hs + 1) × All IsWord (to_words hs)
unfolding to_words
to_words_fits [] k = (omega arith, tt)
to_words_fits (h ∷ []) k = (omega arith, ((k.0, omega arith), tt))
to_words_fits (h ∷ h' ∷ hs) k =
    let (size, words) = to_words_fits hs k.1.1 in (omega arith, ((k.0, k.1.0), words))

-- Whatever the pulses, no more words are written than the buffer holds, and every duration fits its
-- 15 bits.
pub pack_pulses_to_symbols-IsWord :
    (pulses : List ℕ) (max_symbols : ℕ)
    → (length (pack_pulses_to_symbols pulses max_symbols) ≤ max_symbols)
      × All IsWord (pack_pulses_to_symbols pulses max_symbols)
unfolding pack_pulses_to_symbols
pack_pulses_to_symbols-IsWord pulses max_symbols =
    let (size, short) = push_pairs_fits (max_symbols * 2) pulses in
    let (words, all) = to_words_fits (push_pairs (max_symbols * 2) pulses) short in
    (omega arith, all)

-- The time at a level.
abbrev pub half_time : ℕ → Half → ℕ
half_time level h = if h.level == level then h.duration else 0

unfoldable pub time_at : ℕ → List RmtSymbol → ℕ
time_at level [] = 0
time_at level (w ∷ ws) = half_time level w.first + half_time level w.second + time_at level ws

-- The durations of the marks, or with `false` of the spaces, of the whole pairs.
unfoldable pub pair_time : Bool → List ℕ → ℕ
pair_time on [] = 0
pair_time on (mark ∷ []) = 0
pair_time on (mark ∷ space ∷ rest) = (if on then mark else space) + pair_time on rest

halves_time : ℕ → List Half → ℕ
halves_time level [] = 0
halves_time level (h ∷ hs) = half_time level h + halves_time level hs

halves_time-append :
    (level : ℕ) (a b : List Half)
    → halves_time level (a ++ b) ≡ halves_time level a + halves_time level b
unfolding halves_time
halves_time-append level [] b = omega arith
halves_time-append level (h ∷ hs) b = omega (arith, halves_time-append level hs b)

time_at-to_words : (level : ℕ) (hs : List Half) → time_at level (to_words hs) ≡ halves_time level hs
unfolding time_at to_words halves_time
time_at-to_words level [] = refl
time_at-to_words level (h ∷ []) = ground arith
time_at-to_words level (h ∷ h' ∷ hs) = omega (arith, time_at-to_words level hs)

length-push_half_le :
    (room level dur : ℕ) → length (push_half room level dur) * rmt_max_dur ≤ dur + 32766
unfolding push_half
length-push_half_le zero level dur = omega arith
length-push_half_le (suc room) level dur =
    let chunk = if ltb rmt_max_dur dur then rmt_max_dur else dur in
    ground (arith, length-push_half_le room level (dur - chunk))

halves_time-push_half :
    (room level dur at : ℕ)
    → dur ≤ room * rmt_max_dur
    → halves_time at (push_half room level dur) ≡ (if level == at then dur else 0)
unfolding push_half halves_time
halves_time-push_half zero level dur at h = ground arith
halves_time-push_half (suc room) level dur at h =
    let chunk = if ltb rmt_max_dur dur then rmt_max_dur else dur in
    ground (arith, halves_time-push_half room level (dur - chunk) at)

-- The halves that a duration takes.
abbrev pub halves_of : ℕ → ℕ
halves_of dur = (dur + 32766) / 32767

-- The halves that the whole pairs take.
unfoldable pub halves_needed : List ℕ → ℕ
halves_needed [] = 0
halves_needed (mark ∷ []) = 0
halves_needed (mark ∷ space ∷ rest) = halves_of mark + halves_of space + halves_needed rest

none_needed :
    (pulses : List ℕ)
    → halves_needed pulses ≡ 0
    → (pair_time true pulses ≡ 0) × (pair_time false pulses ≡ 0)
unfolding halves_needed pair_time
none_needed [] h = (refl, refl)
none_needed (mark ∷ []) h = (refl, refl)
none_needed (mark ∷ space ∷ rest) h =
    let (marks, spaces) = none_needed rest (omega (arith, h)) in
    (omega (arith, h, marks), omega (arith, h, spaces))

halves_time-push_pairs :
    (room : ℕ) (pulses : List ℕ)
    → halves_needed pulses ≤ room
    → (halves_time 1 (push_pairs room pulses) ≡ pair_time true pulses)
      × (halves_time 0 (push_pairs room pulses) ≡ pair_time false pulses)
unfolding push_pairs halves_time pair_time halves_needed
halves_time-push_pairs room [] h = (refl, refl)
halves_time-push_pairs room (mark ∷ []) h = (refl, refl)
halves_time-push_pairs room (mark ∷ space ∷ rest) h =
    let on = push_half room 1 mark in
    let off = push_half (room - length on) 0 space in
    let others = push_pairs (room - length on - length off) rest in
    let a = length-push_half_le room 1 mark in
    let b = length-push_half_le (room - length on) 0 space in
    let (marks, spaces) =
      halves_time-push_pairs (room - length on - length off) rest (omega arith) in
    let on1 = halves_time-push_half room 1 mark 1 (omega arith) in
    let on0 = halves_time-push_half room 1 mark 0 (omega arith) in
    let off1 = halves_time-push_half (room - length on) 0 space 1 (omega arith) in
    let off0 = halves_time-push_half (room - length on) 0 space 0 (omega arith) in
    elim (Bool-cases (room == 0)) [
      | inl e ↦
          let (no_marks, no_spaces) = none_needed (mark ∷ space ∷ rest) (ground (arith, e)) in
          rw e (omega (arith, no_marks), omega (arith, no_spaces))
      | inr e ↦ rw e (
        omega (
          arith,
          halves_time-append 1 on (off ++ others),
          halves_time-append 1 off others,
          on1,
          off1,
          marks,
        ),
        omega (
          arith,
          halves_time-append 0 on (off ++ others),
          halves_time-append 0 off others,
          on0,
          off0,
          spaces,
        ),
      )
    ]

-- If the buffer has room for the halves that the pulses take, the words hold the marks' time at
-- level 1 and the spaces' time at level 0.
pub pack_pulses_to_symbols_whole :
    (pulses : List ℕ) (max_symbols : ℕ)
    → halves_needed pulses ≤ max_symbols * 2
    → (time_at 1 (pack_pulses_to_symbols pulses max_symbols) ≡ pair_time true pulses)
      × (time_at 0 (pack_pulses_to_symbols pulses max_symbols) ≡ pair_time false pulses)
unfolding pack_pulses_to_symbols
pack_pulses_to_symbols_whole pulses max_symbols h =
    let hs = push_pairs (max_symbols * 2) pulses in
    let (marks, spaces) = halves_time-push_pairs (max_symbols * 2) pulses h in
    (time_at-to_words 1 hs ∙ marks, time_at-to_words 0 hs ∙ spaces)

halves_needed_u16 : (pulses : List ℕ) → All IsU16 pulses → halves_needed pulses ≤ length pulses * 3
unfolding halves_needed
halves_needed_u16 [] k = omega arith
halves_needed_u16 (mark ∷ []) k = omega arith
halves_needed_u16 (mark ∷ space ∷ rest) k =
    let (mark16, (space16, rest16)) = k in omega (arith, halves_needed_u16 rest rest16)

-- Where the buffer has three halves for each pulse, the words hold the marks' time at level 1 and
-- the spaces' time at level 0.
pub time_at-pack_pulses_to_symbols :
    (pulses : List ℕ) (max_symbols : ℕ)
    → All IsU16 pulses
    → length pulses * 3 ≤ max_symbols * 2
    → (time_at 1 (pack_pulses_to_symbols pulses max_symbols) ≡ pair_time true pulses)
      × (time_at 0 (pack_pulses_to_symbols pulses max_symbols) ≡ pair_time false pulses)
time_at-pack_pulses_to_symbols pulses max_symbols k h =
    pack_pulses_to_symbols_whole pulses max_symbols (omega (arith, halves_needed_u16 pulses k, h))
