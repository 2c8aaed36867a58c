-- ===== src/Learn/Merge.antt =====
-- lib/learn/frame_merge.cpp: the repeated frames of one burst are merged into one.
pub mod Shape
use homekit_rf_ir_blaster.Base.{
  ℕ, zero, suc, ◌+◌, ◌-◌, ◌*◌, ◌%◌, ◌^◌, ◌≤◌, ◌≡◌, refl, Bool, true, false, ◌&&◌, ◌||◌, not, List,
  [], ◌∷◌, ◌++◌, ltb, leb, ◌==◌, if◌then◌else◌, length, take, drop, null, max, min, arith,
}

abbrev pub reset_gap_min_us : ℕ
reset_gap_min_us = 3000

abbrev pub stored_frame_count : ℕ
stored_frame_count = 8

pub record Range : Type 0 where
  pub start : ℕ
  pub stop : ℕ

abbrev pub range_length : Range → ℕ
range_length r = r.stop - r.start

-- The loop's variables. `frames` and `gaps` are in the order of the burst.
pub record Split : Type 0 where
  pub frames : List Range
  pub gaps : List ℕ
  pub frame_start : ℕ

unfoldable pub split_step : ℕ → ℕ → Split → Split
split_step i v s =
    if i % 2 == 1 && leb reset_gap_min_us v
    then record {
      frames =
          if ltb s.frame_start i
          then s.frames ++ (record { start = s.frame_start; stop = i } ∷ [])
          else s.frames;
      gaps = s.gaps ++ (v ∷ []);
      frame_start = i + 1;
    }
    else s

unfoldable pub split_loop : ℕ → List ℕ → Split → Split
unfolding split_step
split_loop i [] s = s
split_loop i (v ∷ vs) s = split_loop (i + 1) vs (split_step i v s)

-- The frames of a burst, the trailing one included.
unfoldable pub split_frames : List ℕ → Split
unfolding split_loop
split_frames pulses =
    let s = split_loop 0 pulses (record { frames = []; gaps = []; frame_start = 0 }) in
    if ltb s.frame_start (length pulses)
    then record s {
      frames = s.frames ++ (record { start = s.frame_start; stop = length pulses } ∷ []);
    }
    else s

unfoldable pub count_length : ℕ → List Range → ℕ
count_length n [] = 0
count_length n (r ∷ rs) = (if range_length r == n then 1 else 0) + count_length n rs

pub record Modal : Type 0 where
  pub modal : ℕ
  pub modal_count : ℕ

unfoldable pub modal_step : List Range → Range → Modal → Modal
unfolding count_length
modal_step frames a m =
    let cnt = count_length (range_length a) frames in
    if ltb m.modal_count cnt || cnt == m.modal_count && ltb m.modal (range_length a)
    then record { modal = range_length a; modal_count = cnt }
    else m

unfoldable pub modal_loop : List Range → List Range → Modal → Modal
unfolding modal_step
modal_loop frames [] m = m
modal_loop frames (a ∷ rest) m = modal_loop frames rest (modal_step frames a m)

-- Longest mark, shortest space: an even index is a mark.
unfoldable pub merge_slots : ℕ → List ℕ → List ℕ → List ℕ
merge_slots i [] vs = []
merge_slots i (o ∷ os) [] = o ∷ os
merge_slots i (o ∷ os) (v ∷ vs) =
    (if i % 2 == 0 then max o v else min o v) ∷ merge_slots (i + 1) os vs

-- The n entries of a frame.
abbrev pub frame_slice : List ℕ → ℕ → Range → List ℕ
frame_slice pulses n r = take n (drop r.start pulses)

-- `first` tells that no frame has been merged yet.
pub record Merged : Type 0 where
  pub first : Bool
  pub out : List ℕ

unfoldable pub merge_step : List ℕ → ℕ → ℕ → Range → Merged → Merged
unfolding merge_slots
merge_step pulses modal n r m = if not (range_length r == modal) then m else record {
  first = false;
  out = if m.first then frame_slice pulses n r else merge_slots 0 m.out (frame_slice pulses n r);
}

unfoldable pub merge_loop : List ℕ → ℕ → ℕ → List Range → Merged → Merged
unfolding merge_step
merge_loop pulses modal n [] m = m
merge_loop pulses modal n (r ∷ rs) m = merge_loop pulses modal n rs (merge_step pulses modal n r m)

unfoldable pub max_element : ℕ → List ℕ → ℕ
max_element m [] = m
max_element m (x ∷ xs) = max_element (if ltb m x then x else m) xs

-- What the call leaves: the frame in `out`, the reset gap and the frame count. An empty frame
-- stands for the result 0.
pub record Declipped : Type 0 where
  pub frame : List ℕ
  pub reset_gap_us : ℕ
  pub frame_count : ℕ

abbrev pub unusable : Declipped
unusable = record { frame = []; reset_gap_us = 0; frame_count = 0 }

-- Several frames: those of the commonest length are merged.
unfoldable pub declip_many : List ℕ → ℕ → Split → Declipped
unfolding modal_loop merge_loop max_element
declip_many pulses cap s =
    let m = modal_loop s.frames s.frames (record { modal = 0; modal_count = 0 }) in
    let n = min m.modal cap in
    let merged = merge_loop pulses m.modal n s.frames (record { first = true; out = [] }) in
    if n == 0 then unusable else if merged.first then unusable else record {
      frame = merged.out;
      reset_gap_us = max_element 0 s.gaps;
      frame_count = m.modal_count % 2 ^ 16;
    }

unfoldable pub declip_frames : List ℕ → ℕ → Split → List Range → Declipped
unfolding declip_many
declip_frames pulses cap s [] = unusable
declip_frames pulses cap s (r ∷ []) = record {
  frame = frame_slice pulses (min (range_length r) cap) r;
  reset_gap_us = 0;
  frame_count = 1;
}
declip_frames pulses cap s (r ∷ q ∷ rs) = declip_many pulses cap s

unfoldable pub declip_burst : List ℕ → ℕ → Declipped
unfolding split_frames declip_frames
declip_burst pulses cap =
    if cap == 0 || null pulses
    then unusable
    else (let s = split_frames pulses in declip_frames pulses cap s s.frames)

two_frames :
    declip_burst (500 ∷ 400 ∷ 510 ∷ 9000 ∷ 480 ∷ 420 ∷ 530 ∷ []) 7
    ≡ record { frame = 500 ∷ 400 ∷ 530 ∷ []; reset_gap_us = 9000; frame_count = 2 }
unfolding declip_burst
two_frames = refl
