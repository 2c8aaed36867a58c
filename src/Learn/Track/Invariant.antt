-- ===== src/Learn/Track/Invariant.antt =====
-- lib/learn/learn_machine.h, Track: the invariant of a track and the first lemmas about it.
use homekit_rf_ir_blaster.Base.{
  ℕ, ◌-◌, ◌*◌, ◌%◌, ◌≤◌, ◌<◌, ◌≡◌, inl, inr, List, [], ◌∷◌, Option, none, some, ltb, length, arith,
  All, All-append, All-modify, length-append, length-modify, Bool-cases,
}
use homekit_rf_ir_blaster.Learn.Match.{Source, min_burst_pulses, max_burst_pulses}
use homekit_rf_ir_blaster.Learn.Merge.Shape.{IsU16, declip_burst-IsShaped}
use homekit_rf_ir_blaster.Learn.Track.{
  Cluster, Group, Track, empty_track, fresh_group, max_clusters, max_groups, max_cluster_members,
  max_gap_samples, add_gap, starts_press, open_press, note_gap, note_start, frame_of, note_frames,
}

-- An RF burst ends on its final mark, so it has an odd number of entries.
abbrev pub EndsOnMark : Source → ℕ → Type 0
EndsOnMark Source.rf315 n = n % 2 ≡ 1
EndsOnMark Source.rf433 n = n % 2 ≡ 1
EndsOnMark Source.ir n = Unit {0}

-- What the receivers deliver: uint16_t durations, an RF burst ending on a mark.
pub record IsBurst (src : Source) (pulses : List ℕ) : Type 0 where
  pub ranged : All IsU16 pulses
  pub marked : EndsOnMark src (length pulses)

-- The carriers of an infrared cluster's members lie in the accepted window.
abbrev pub CarriersIn : Source → ℕ → ℕ → Type 0
CarriersIn Source.rf315 n total = Unit {0}
CarriersIn Source.rf433 n total = Unit {0}
CarriersIn Source.ir n total = (20000 * n ≤ total) × (total ≤ 60000 * n)

-- The total of `n` positive uint16_t values.
abbrev pub IsTotal : ℕ → ℕ → Type 0
IsTotal n total = (n ≤ total) × (total ≤ n * 65535)

pub record IsCluster (src : Source) (c : Cluster) : Type 0 where
  pub aligned : length c.sum ≡ length c.repr
  pub long : min_burst_pulses ≤ length c.repr
  pub short : length c.repr ≤ max_burst_pulses
  pub marked : EndsOnMark src (length c.repr)
  pub members : c.count ≤ max_cluster_members
  pub carriers : CarriersIn src c.count c.carrier_sum
  pub samples : c.gap_count ≤ max_gap_samples
  pub gaps : c.gap_sum_us ≤ c.gap_count * 65535
  pub totals : All (IsTotal c.count) c.sum

-- An index, where there is one, is in range.
abbrev pub Below : ℕ → Option ℕ → Type 0
Below n none = Unit {0}
Below n (some i) = i < n

abbrev pub GroupBelow : ℕ → Group → Type 0
GroupBelow n g = Below n g.first_cluster

pub record IsTrack (src : Source) (t : Track) : Type 0 where
  pub clustered : All (IsCluster src) t.clusters
  pub few : length t.clusters ≤ max_clusters
  pub grouped : All (GroupBelow (length t.clusters)) t.groups
  pub few_groups : length t.groups ≤ max_groups
  pub last : Below (length t.clusters) t.last_cluster
  pub gap : IsU16 t.reset_gap_us
  pub frames : IsU16 t.frame_count

pub empty_track-IsTrack : (src : Source) → IsTrack src empty_track
empty_track-IsTrack src = record {
  clustered = tt;
  few = omega arith;
  grouped = tt;
  few_groups = omega arith;
  last = tt;
  gap = omega arith;
  frames = omega arith;
}

pub Below-mono : (m n : ℕ) (i : Option ℕ) → m ≤ n → Below m i → Below n i
Below-mono m n none h b = tt
Below-mono m n (some i) h b = omega arith

add_gap-IsCluster :
    (src : Source) (gap : ℕ) (c : Cluster) → IsCluster src c → IsCluster src (add_gap gap c)
unfolding add_gap
add_gap-IsCluster src gap c k = ground arith

open_press-IsTrack : (src : Source) (t : Track) → IsTrack src t → IsTrack src (open_press t)
unfolding open_press
open_press-IsTrack src t k = ground (
  arith,
  length-append t.groups (fresh_group ∷ []),
  All-append (GroupBelow (length t.clusters)) t.groups (fresh_group ∷ []),
)

note_gap-IsTrack :
    (src : Source) (t : Track) (start : ℕ) (i : Option ℕ)
    → IsTrack src t
    → IsTrack src (note_gap t start i)
unfolding note_gap
note_gap-IsTrack src t start none k = k
note_gap-IsTrack src t start (some i) k =
    let f = add_gap ((start - t.last_end) * 1000) in
    let clustered =
      All-modify (IsCluster src) t.clusters i f (add_gap-IsCluster src _) k.clustered in
    elim (Bool-cases (ltb t.last_end start)) [
      | inl e ↦ rw e (record {
        clustered = clustered;
        few = omega (arith, length-modify t.clusters i f, k.few);
        grouped = rw (length-modify t.clusters i f) k.grouped;
        few_groups = k.few_groups;
        last = rw (length-modify t.clusters i f) k.last;
        gap = k.gap;
        frames = k.frames;
      })
      | inr e ↦ rw e k
    ]

pub note_start-IsTrack :
    (src : Source) (t : Track) (start : ℕ) → IsTrack src t → IsTrack src (note_start t start)
unfolding note_start
note_start-IsTrack src t start k = elim (Bool-cases (starts_press t start)) [
  | inl e ↦ rw e (open_press-IsTrack src t k)
  | inr e ↦ rw e (note_gap-IsTrack src t start t.last_cluster k)
]

-- The frame is a burst of the same kind.
pub frame_of-IsBurst :
    (src : Source) (pulses : List ℕ) → IsBurst src pulses → IsBurst src (frame_of src pulses)
unfolding frame_of
frame_of-IsBurst Source.rf315 pulses b =
    ground (arith, declip_burst-IsShaped pulses b.marked b.ranged)
frame_of-IsBurst Source.rf433 pulses b =
    ground (arith, declip_burst-IsShaped pulses b.marked b.ranged)
frame_of-IsBurst Source.ir pulses b = b

pub note_frames-IsTrack :
    (src : Source) (pulses : List ℕ) (t : Track)
    → IsBurst src pulses
    → IsTrack src t
    → IsTrack src (note_frames src pulses t)
unfolding note_frames
note_frames-IsTrack Source.rf315 pulses t b k =
    ground (arith, declip_burst-IsShaped pulses b.marked b.ranged)
note_frames-IsTrack Source.rf433 pulses t b k =
    ground (arith, declip_burst-IsShaped pulses b.marked b.ranged)
note_frames-IsTrack Source.ir pulses t b k = k
