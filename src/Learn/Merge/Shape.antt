-- ===== src/Learn/Merge/Shape.antt =====
-- lib/learn/frame_merge.cpp: the shape of a de-clipped frame, its length, parity and range.
use homekit_rf_ir_blaster.Base.{
  ℕ, zero, suc, ◌+◌, ◌%◌, ◌^◌, ◌≤◌, ◌<◌, ◌≡◌, refl, true, ◌⊎◌, inl, List, [], ◌∷◌, ltb,
  if◌then◌else◌, length, take, drop, null, min, arith, All, All-append, ap, subst, length-take,
  length-drop,
}
use homekit_rf_ir_blaster.Learn.Merge.{
  Range, range_length, Split, split_step, split_loop, split_frames, Modal, modal_step, modal_loop,
  merge_slots, frame_slice, Merged, merge_step, merge_loop, max_element, Declipped, declip_many,
  declip_frames, declip_burst,
}

abbrev pub IsU16 : ℕ → Type 0
IsU16 v = v < 2 ^ 16

-- A frame body that lies within the first `n` entries and ends on a mark.
abbrev pub IsFrame : ℕ → Range → Type 0
IsFrame n r = (r.start < r.stop) × (r.stop ≤ n) × (range_length r % 2 ≡ 1)

IsFrame-mono : (m n : ℕ) (rs : List Range) → m ≤ n → All (IsFrame m) rs → All (IsFrame n) rs
IsFrame-mono m n [] h f = tt
IsFrame-mono m n (r ∷ rs) h f = (omega arith, IsFrame-mono m n rs h f.1)

-- Before entry `i` the split holds frames and u16 gaps, and the open frame starts on a mark.
record IsSplit (i : ℕ) (s : Split) : Type 0 where
  framed : All (IsFrame i) s.frames
  gapped : All IsU16 s.gaps
  opened : s.frame_start ≤ i
  on_mark : s.frame_start % 2 ≡ 0

split_step-IsSplit :
    (i v : ℕ) (s : Split) → IsU16 v → IsSplit i s → IsSplit (i + 1) (split_step i v s)
unfolding split_step
split_step-IsSplit i v s hv k = record {
  framed = ground (
    arith,
    IsFrame-mono i (i + 1) s.frames,
    All-append (IsFrame (i + 1)) s.frames (record { start = s.frame_start; stop = i } ∷ []),
  );
  gapped = ground (arith, All-append IsU16 s.gaps (v ∷ []));
  opened = ground arith;
  on_mark = ground arith;
}

split_loop-IsSplit :
    (i : ℕ) (vs : List ℕ) (s : Split)
    → All IsU16 vs
    → IsSplit i s
    → IsSplit (i + length vs) (split_loop i vs s)
unfolding split_loop
split_loop-IsSplit i [] s hv k = subst (λ n. IsSplit n s) (omega arith) k
split_loop-IsSplit i (v ∷ vs) s hv k =
    subst (λ n. IsSplit n (split_loop (i + 1) vs (split_step i v s))) (omega arith)
      (split_loop-IsSplit (i + 1) vs (split_step i v s) hv.1 (split_step-IsSplit i v s hv.0 k))

-- The frames of a burst that ends on a mark, and its gaps.
split_frames-framed :
    (pulses : List ℕ)
    → length pulses % 2 ≡ 1
    → All IsU16 pulses
    → All (IsFrame (length pulses)) (split_frames pulses).frames
      × All IsU16 (split_frames pulses).gaps
unfolding split_frames
split_frames-framed pulses odd hv = closed (split_loop-IsSplit 0 pulses start hv (omega arith))
  where
    start : Split
    start = record { frames = []; gaps = []; frame_start = 0 }

    closed :
        IsSplit (0 + length pulses) (split_loop 0 pulses start)
        → All (IsFrame (length pulses)) (split_frames pulses).frames
          × All IsU16 (split_frames pulses).gaps
    closed k =
        let s = split_loop 0 pulses start in
        ground (
          arith,
          IsFrame-mono (0 + length pulses) (length pulses) s.frames,
          All-append (IsFrame (length pulses)) s.frames
              (record { start = s.frame_start; stop = length pulses } ∷ []),
        )

-- The commonest length is 0, or that of some frame.
abbrev IsModal : ℕ → Modal → Type 0
IsModal n m = ((m.modal ≡ 0) ⊎ (m.modal % 2 ≡ 1)) × (m.modal ≤ n)

modal_loop-IsModal :
    (n : ℕ) (frames rest : List Range) (m : Modal)
    → All (IsFrame n) rest
    → IsModal n m
    → IsModal n (modal_loop frames rest m)
unfolding modal_loop modal_step
modal_loop-IsModal n frames [] m f h = h
modal_loop-IsModal n frames (a ∷ rest) m f h =
    modal_loop-IsModal n frames rest (modal_step frames a m) f.1 (ground arith)

length-merge_slots : (i : ℕ) (os vs : List ℕ) → length (merge_slots i os vs) ≡ length os
unfolding merge_slots
length-merge_slots i [] vs = refl
length-merge_slots i (o ∷ os) [] = refl
length-merge_slots i (o ∷ os) (v ∷ vs) = ap suc (length-merge_slots (i + 1) os vs)

merge_slots-All :
    (i : ℕ) (os vs : List ℕ) → All IsU16 os → All IsU16 vs → All IsU16 (merge_slots i os vs)
unfolding merge_slots
merge_slots-All i [] vs ho hv = tt
merge_slots-All i (o ∷ os) [] ho hv = ho
merge_slots-All i (o ∷ os) (v ∷ vs) ho hv = (ground arith, merge_slots-All (i + 1) os vs ho.1 hv.1)

take-All : (n : ℕ) (xs : List ℕ) → All IsU16 xs → All IsU16 (take n xs)
take-All zero xs h = tt
take-All (suc n) [] h = tt
take-All (suc n) (x ∷ xs) h = (h.0, take-All n xs h.1)

drop-All : (n : ℕ) (xs : List ℕ) → All IsU16 xs → All IsU16 (drop n xs)
drop-All zero xs h = h
drop-All (suc n) [] h = tt
drop-All (suc n) (x ∷ xs) h = drop-All n xs h.1

frame_slice-All :
    (pulses : List ℕ) (n : ℕ) (r : Range) → All IsU16 pulses → All IsU16 (frame_slice pulses n r)
frame_slice-All pulses n r h = take-All n (drop r.start pulses) (drop-All r.start pulses h)

length-frame_slice :
    (pulses : List ℕ) (n : ℕ) (r : Range)
    → r.start + n ≤ length pulses
    → length (frame_slice pulses n r) ≡ n
length-frame_slice pulses n r h =
    omega (arith, length-take n (drop r.start pulses), length-drop r.start pulses)

-- What is merged so far has `n` entries, each a u16.
record IsMerged (n : ℕ) (m : Merged) : Type 0 where
  sized : (m.first ≡ true) ⊎ (length m.out ≡ n)
  ranged : All IsU16 m.out

merge_step-IsMerged :
    (pulses : List ℕ) (modal n : ℕ) (r : Range) (m : Merged)
    → All IsU16 pulses
    → n ≤ modal
    → IsFrame (length pulses) r
    → IsMerged n m
    → IsMerged n (merge_step pulses modal n r m)
unfolding merge_step
merge_step-IsMerged pulses modal n r m hv le f k = record {
  sized =
      ground
        (arith, length-frame_slice pulses n r, length-merge_slots 0 m.out (frame_slice pulses n r));
  ranged =
      ground
        (arith, frame_slice-All pulses n r hv, merge_slots-All 0 m.out (frame_slice pulses n r));
}

merge_loop-IsMerged :
    (pulses : List ℕ) (modal n : ℕ) (rs : List Range) (m : Merged)
    → All IsU16 pulses
    → n ≤ modal
    → All (IsFrame (length pulses)) rs
    → IsMerged n m
    → IsMerged n (merge_loop pulses modal n rs m)
unfolding merge_loop
merge_loop-IsMerged pulses modal n [] m hv le f k = k
merge_loop-IsMerged pulses modal n (r ∷ rs) m hv le f k =
    merge_loop-IsMerged pulses modal n rs (merge_step pulses modal n r m) hv le f.1
      (merge_step-IsMerged pulses modal n r m hv le f.0 k)

max_element-IsU16 : (m : ℕ) (xs : List ℕ) → IsU16 m → All IsU16 xs → IsU16 (max_element m xs)
unfolding max_element
max_element-IsU16 m [] h hx = h
max_element-IsU16 m (x ∷ xs) h hx =
    max_element-IsU16 (if ltb m x then x else m) xs (ground arith) hx.1

-- Unusable, or of odd length within the burst, each entry a u16.
pub record IsShaped (n : ℕ) (d : Declipped) : Type 0 where
  pub odd_length : (null d.frame ≡ true) ⊎ (length d.frame % 2 ≡ 1)
  pub fits : length d.frame ≤ n
  pub ranged : All IsU16 d.frame
  pub gap : IsU16 d.reset_gap_us
  pub count : IsU16 d.frame_count

declip_many-IsShaped :
    (pulses : List ℕ) (s : Split)
    → All IsU16 pulses
    → All (IsFrame (length pulses)) s.frames
    → All IsU16 s.gaps
    → IsShaped (length pulses) (declip_many pulses (length pulses) s)
unfolding declip_many
declip_many-IsShaped pulses s hv f g =
    shaped modality merging (max_element-IsU16 0 s.gaps (omega arith) g)
  where
    m : Modal
    m = modal_loop s.frames s.frames (record { modal = 0; modal_count = 0 })

    n : ℕ
    n = min m.modal (length pulses)

    merged : Merged
    merged = merge_loop pulses m.modal n s.frames (record { first = true; out = [] })

    modality : IsModal (length pulses) m
    modality = modal_loop-IsModal (length pulses) s.frames s.frames _ f (ground arith)

    merging : IsMerged n merged
    merging =
        merge_loop-IsMerged pulses m.modal n s.frames _ hv (omega arith) f
          (record { sized = inl refl; ranged = tt })

    shaped :
        IsModal (length pulses) m
        → IsMerged n merged
        → IsU16 (max_element 0 s.gaps)
        → IsShaped (length pulses) (declip_many pulses (length pulses) s)
    shaped a b c = ground arith

frames_IsShaped :
    (pulses : List ℕ) (s : Split) (fs : List Range)
    → All IsU16 pulses
    → All (IsFrame (length pulses)) s.frames
    → All (IsFrame (length pulses)) fs
    → All IsU16 s.gaps
    → IsShaped (length pulses) (declip_frames pulses (length pulses) s fs)
unfolding declip_frames
frames_IsShaped pulses s [] hv f f' g = ground arith
frames_IsShaped pulses s (r ∷ []) hv f f' g =
    let n = min (range_length r) (length pulses) in
    ground (arith, frame_slice-All pulses n r hv, length-frame_slice pulses n r)
frames_IsShaped pulses s (r ∷ q ∷ rs) hv f f' g = declip_many-IsShaped pulses s hv f g

-- Of a burst of u16 durations that ends on a mark, the de-clipped frame ends on a mark, is no
-- longer than the burst, and has u16 entries; so are the gap and the frame count.
pub declip_burst-IsShaped :
    (pulses : List ℕ)
    → length pulses % 2 ≡ 1
    → All IsU16 pulses
    → IsShaped (length pulses) (declip_burst pulses (length pulses))
unfolding declip_burst
declip_burst-IsShaped pulses odd hv = ground (
  arith,
  frames_IsShaped pulses (split_frames pulses) (split_frames pulses).frames hv
      (split_frames-framed pulses odd hv).0 (split_frames-framed pulses odd hv).0
      (split_frames-framed pulses odd hv).1,
)
