-- ===== src/Learn/Track/Feed.antt =====
-- lib/learn/learn_machine.cpp, feedBurst: one burst against the invariant of its track.
use homekit_rf_ir_blaster.Base.{
  ℕ, ◌-◌, ◌≡◌, refl, inl, inr, List, Option, none, some, length, arith, All-modify, All-modify_at,
  length-modify, modify, Bool-cases,
}
use homekit_rf_ir_blaster.Learn.Match.{Source, well_formed}
use homekit_rf_ir_blaster.Learn.Track.{
  Cluster, Group, Track, Placed, find_match, place, join, join_at, note_cluster, note_group, absorb,
  cluster_frame, feed_track, burst_start, frame_of,
}
use homekit_rf_ir_blaster.Learn.Track.Invariant.{
  IsBurst, IsCluster, Below, GroupBelow, IsTrack, note_start-IsTrack, note_frames-IsTrack,
  frame_of-IsBurst,
}
use homekit_rf_ir_blaster.Learn.Track.Clusters.{
  IsFrame, well_formed-IsFrame, Holds, find_match-Holds,
}
use homekit_rf_ir_blaster.Learn.Track.Placing.{IsPlaced, place-IsPlaced, join-IsCluster}

note_cluster-GroupBelow :
    (n : ℕ) (cl : Option ℕ) (g : Group) (first : Option ℕ)
    → Below n cl
    → Below n first
    → GroupBelow n g
    → GroupBelow n (note_cluster cl g first)
unfolding note_cluster
note_cluster-GroupBelow n none g first b f h = h
note_cluster-GroupBelow n (some i) g none b f h = b
note_cluster-GroupBelow n (some i) g (some j) b f h = ground arith

note_group-IsTrack :
    (src : Source) (cl : Option ℕ) (t : Track)
    → Below (length t.clusters) cl
    → IsTrack src t
    → IsTrack src (note_group cl t)
unfolding note_group
note_group-IsTrack src cl t b k =
    let f : Group → Group = λ g. note_cluster cl g g.first_cluster in
    let groups =
      All-modify (GroupBelow (length t.clusters)) t.groups (t.cur_group - 1) f
        (λ g h. note_cluster-GroupBelow (length t.clusters) cl g g.first_cluster b h h) k.grouped in
    let few = length-modify t.groups (t.cur_group - 1) f in ground arith

Holds-Below : (cs : List Cluster) (n : ℕ) (cl : Option ℕ) → Holds cs n cl → Below (length cs) cl
Holds-Below cs n none h = tt
Holds-Below cs n (some i) h = h.0

-- The frame is averaged into the chosen cluster.
join_at-IsTrack :
    (src : Source) (frame : List ℕ) (hz : ℕ) (t : Track) (cl : Option ℕ)
    → IsFrame src frame hz
    → Holds t.clusters (length frame) cl
    → IsTrack src t
    → IsTrack src (join_at frame hz t cl) × Below (length (join_at frame hz t cl).clusters) cl
join_at-IsTrack src frame hz t none f h k = (k, tt)
join_at-IsTrack src frame hz t (some i) f h k =
    let add : Cluster → Cluster = join frame hz t.cur_group in
    let same : length (modify t.clusters i add) ≡ length t.clusters =
      length-modify t.clusters i add in
    (
      record {
        clustered =
            All-modify_at (IsCluster src) t.clusters i add
              (λ c at. join-IsCluster src frame hz t.cur_group c f (h.1 c at)) k.clustered;
        few = rw same k.few;
        grouped = rw same k.grouped;
        few_groups = k.few_groups;
        last = rw same k.last;
        gap = k.gap;
        frames = k.frames;
      },
      rw same h.0,
    )

note_group-clusters : (cl : Option ℕ) (t : Track) → (note_group cl t).clusters ≡ t.clusters
unfolding note_group
note_group-clusters cl t = ground arith

-- What feed_track leaves: a sound track, and an index in range where there is one.
abbrev pub IsFed : Source → Placed → Type 0
IsFed src p = IsTrack src p.track × Below (length p.track.clusters) p.index

absorb-IsFed :
    (src : Source) (frame : List ℕ) (hz : ℕ) (p : Placed)
    → IsFrame src frame hz
    → IsPlaced src frame p
    → IsFed src (absorb frame hz p)
unfolding absorb
absorb-IsFed src frame hz p f k =
    let joined = join_at frame hz p.track p.index in
    let (sound, below) = join_at-IsTrack src frame hz p.track p.index f k.held k.sound in
    (
      note_group-IsTrack src p.index joined below sound,
      rw (note_group-clusters p.index joined) below,
    )

cluster_frame-IsFed :
    (src : Source) (frame : List ℕ) (hz : ℕ) (t : Track)
    → IsBurst src frame
    → IsTrack src t
    → IsFed src (cluster_frame src frame hz t)
unfolding cluster_frame
cluster_frame-IsFed src frame hz t b k = elim (Bool-cases (well_formed src frame hz)) [
  | inl w ↦
      let f = well_formed-IsFrame src frame hz b w in
      let cl = find_match 0 t.clusters frame in
      rw w (
        absorb-IsFed src frame hz (place frame t cl) f
          (place-IsPlaced src frame hz t cl f (find_match-Holds t.clusters frame cl refl) k))
  | inr w ↦ rw w (k, tt)
]

-- One burst keeps the track sound, and the cluster it reports is one of the track's.
pub feed_track-IsFed :
    (src : Source) (pulses : List ℕ) (hz now : ℕ) (t : Track)
    → IsBurst src pulses
    → IsTrack src t
    → IsFed src (feed_track src pulses hz now t)
unfolding feed_track
feed_track-IsFed src pulses hz now t b k =
    let started = note_start-IsTrack src t (burst_start pulses now) k in
    let noted = note_frames-IsTrack src pulses _ b started in
    let fed =
      cluster_frame-IsFed src (frame_of src pulses) hz _ (frame_of-IsBurst src pulses b) noted in
    (
      record {
        clustered = fed.0.clustered;
        few = fed.0.few;
        grouped = fed.0.grouped;
        few_groups = fed.0.few_groups;
        last = fed.1;
        gap = fed.0.gap;
        frames = fed.0.frames;
      },
      fed.1,
    )
