-- ===== src/Device/Rmt.antt =====
-- src/rmt_pulse.h, packPulsesToSymbols: mark and space durations as RMT symbol words.
pub mod Timing
pub mod Cut
use homekit_rf_ir_blaster.Base.{
  ℕ, zero, suc, ◌+◌, ◌-◌, ◌*◌, ◌≡◌, refl, Bool, true, false, List, [], ◌∷◌, ◌++◌, ltb, ◌==◌,
  if◌then◌else◌, length,
}

abbrev pub rmt_max_dur : ℕ
rmt_max_dur = 32767

-- One half of a symbol word.
pub record Half : Type 0 where
  pub level : ℕ
  pub duration : ℕ

pub record RmtSymbol : Type 0 where
  pub first : Half
  pub second : Half

-- pushHalf, with room for so many halves: chunks of a duration until it or the room is used up.
unfoldable pub push_half : ℕ → ℕ → ℕ → List Half
push_half zero level dur = []
push_half (suc room) level dur =
    let chunk = if ltb rmt_max_dur dur then rmt_max_dur else dur in
    let rest = push_half room level (dur - chunk) in
    if dur == 0 then [] else record { level = level; duration = chunk } ∷ rest

-- The loop over the pairs; a trailing entry without a partner is left out.
unfoldable pub push_pairs : ℕ → List ℕ → List Half
unfolding push_half
push_pairs room [] = []
push_pairs room (mark ∷ []) = []
push_pairs room (mark ∷ space ∷ rest) =
    let on = push_half room 1 mark in
    let off = push_half (room - length on) 0 space in
    let others = push_pairs (room - length on - length off) rest in
    if room == 0 then [] else on ++ (off ++ others)

-- Two halves in each word; an unused last half is zero.
unfoldable pub to_words : List Half → List RmtSymbol
to_words [] = []
to_words (h ∷ []) = record { first = h; second = record { level = 0; duration = 0 } } ∷ []
to_words (h ∷ k ∷ rest) = record { first = h; second = k } ∷ to_words rest

-- The words that are written; their number is the result.
unfoldable pub pack_pulses_to_symbols : List ℕ → ℕ → List RmtSymbol
unfolding push_pairs to_words
pack_pulses_to_symbols pulses max_symbols = to_words (push_pairs (max_symbols * 2) pulses)
