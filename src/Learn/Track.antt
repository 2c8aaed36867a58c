-- ===== src/Learn/Track.antt =====
-- lib/learn/learn_machine.h and learn_machine.cpp: what one receiver's track remembers, and what
-- feedBurst does to it. An index that is -1 in the source is `none` here.
pub mod Invariant
pub mod Clusters
pub mod Placing
pub mod Feed
use homekit_rf_ir_blaster.Base.{
  ℕ, zero, suc, ◌+◌, ◌-◌, ◌*◌, ◌/◌, ◌%◌, ◌^◌, ◌≤◌, ◌≡◌, refl, Bool, true, false, ◌&&◌, ◌||◌, not,
  List, [], ◌∷◌, ◌++◌, Option, none, some, ltb, leb, ◌==◌, if◌then◌else◌, length, replicate, modify,
  map, get_or, null, max, min, arith,
}
use homekit_rf_ir_blaster.Learn.Match.{Source, is_ir, well_formed, bursts_match, structurally_alike}
use homekit_rf_ir_blaster.Learn.Merge.{Declipped, declip_burst}

abbrev pub press_gap_ms : ℕ
press_gap_ms = 250

abbrev pub matches_needed : ℕ
matches_needed = 3

abbrev pub rf_presses_needed : ℕ
rf_presses_needed = 2

abbrev pub rolling_presses_needed : ℕ
rolling_presses_needed = 3

abbrev pub max_clusters : ℕ
max_clusters = 12

abbrev pub max_groups : ℕ
max_groups = 16

abbrev pub max_cluster_members : ℕ
max_cluster_members = 250

abbrev pub max_gap_samples : ℕ
max_gap_samples = 250

pub record Cluster : Type 0 where
  pub repr : List ℕ
  pub sum : List ℕ
  pub carrier_sum : ℕ
  pub gap_sum_us : ℕ
  pub last_group : ℕ
  pub gap_count : ℕ
  pub count : ℕ
  pub group_count : ℕ

abbrev pub empty_cluster : Cluster
empty_cluster = record {
  repr = [];
  sum = [];
  carrier_sum = 0;
  gap_sum_us = 0;
  last_group = 0;
  gap_count = 0;
  count = 0;
  group_count = 0;
}

pub record Group : Type 0 where
  pub first_cluster : Option ℕ
  pub dirty : Bool

pub record Track : Type 0 where
  pub clusters : List Cluster
  pub groups : List Group
  pub last_end : ℕ
  pub cur_group : ℕ
  pub last_cluster : Option ℕ
  pub saw_burst : Bool
  pub reset_gap_us : ℕ
  pub frame_count : ℕ

abbrev pub empty_track : Track
empty_track = record {
  clusters = [];
  groups = [];
  last_end = 0;
  cur_group = 0;
  last_cluster = none;
  saw_burst = false;
  reset_gap_us = 0;
  frame_count = 0;
}

-- sumUs: the total in a uint32_t.
unfoldable pub sum_us : List ℕ → ℕ
sum_us [] = 0
sum_us (p ∷ ps) = (p + sum_us ps) % 2 ^ 32

-- When the burst began, from its end and its length, in ms.
unfoldable pub burst_start : List ℕ → ℕ → ℕ
unfolding sum_us
burst_start pulses now =
    let dur_ms = sum_us pulses / 1000 in if ltb dur_ms now then now - dur_ms else 0

unfoldable pub starts_press : Track → ℕ → Bool
starts_press t start = not t.saw_burst || ltb (t.last_end + press_gap_ms) start

-- One sample of the silence behind a burst.
unfoldable pub add_gap : ℕ → Cluster → Cluster
add_gap gap_us c =
    if ltb c.gap_count max_gap_samples
    then record c {
      gap_sum_us = (c.gap_sum_us + min gap_us 65535) % 2 ^ 32;
      gap_count = (c.gap_count + 1) % 256;
    }
    else c

abbrev pub fresh_group : Group
fresh_group = record { first_cluster = none; dirty = false }

unfoldable pub open_press : Track → Track
open_press t = record t {
  groups = if ltb (length t.groups) max_groups then t.groups ++ (fresh_group ∷ []) else t.groups;
  cur_group = (t.cur_group + 1) % 2 ^ 16;
}

unfoldable pub note_gap : Track → ℕ → Option ℕ → Track
unfolding add_gap
note_gap t start none = t
note_gap t start (some i) =
    if ltb t.last_end start
    then record t { clusters = modify t.clusters i (add_gap ((start - t.last_end) * 1000)) }
    else t

unfoldable pub note_start : Track → ℕ → Track
unfolding starts_press open_press note_gap
note_start t start = if starts_press t start then open_press t else note_gap t start t.last_cluster

-- The frame that is matched and stored: RF bursts are de-clipped, unless nothing comes of it.
unfoldable pub frame_of : Source → List ℕ → List ℕ
frame_of src pulses =
    if is_ir src
    then pulses
    else (let d = declip_burst pulses (length pulses) in if null d.frame then pulses else d.frame)

-- The longest gap and the greatest frame count of the presses so far.
unfoldable pub note_frames : Source → List ℕ → Track → Track
note_frames src pulses t =
    if is_ir src
    then t
    else (let d = declip_burst pulses (length pulses) in
        if null d.frame then t else record t {
          reset_gap_us =
              if ltb 0 d.reset_gap_us then max t.reset_gap_us d.reset_gap_us else t.reset_gap_us;
          frame_count =
              if ltb 1 d.frame_count && ltb t.frame_count d.frame_count
              then d.frame_count
              else t.frame_count;
        })

-- The first cluster whose reference matches.
unfoldable pub find_match : ℕ → List Cluster → List ℕ → Option ℕ
find_match i [] frame = none
find_match i (c ∷ cs) frame =
    let rest = find_match (i + 1) cs frame in if bursts_match c.repr frame then some i else rest

-- The candidate so far: its index and its count.
pub record Weakest : Type 0 where
  pub index : ℕ
  pub members : ℕ

unfoldable pub weaker : ℕ → Cluster → Option Weakest → Option Weakest
weaker i c none = some (record { index = i; members = c.count })
weaker i c (some w) =
    if ltb c.count w.members then some (record { index = i; members = c.count }) else some w

-- An established candidate, or one seen in two presses, is never evicted.
unfoldable pub is_protected : Cluster → Bool
is_protected c = leb matches_needed c.count || leb rf_presses_needed c.group_count

unfoldable pub weakest_loop : ℕ → List Cluster → Option Weakest → Option Weakest
unfolding weaker is_protected
weakest_loop i [] w = w
weakest_loop i (c ∷ cs) w = weakest_loop (i + 1) cs (if is_protected c then w else weaker i c w)

abbrev pub is_some_eq : Option ℕ → ℕ → Bool
is_some_eq none i = false
is_some_eq (some j) i = j == i

-- The groups that began with the evicted cluster are spoilt.
unfoldable pub spoil : ℕ → Group → Group
spoil i g =
    if is_some_eq g.first_cluster i then record g { first_cluster = none; dirty = true } else g

abbrev pub fresh_cluster : List ℕ → Cluster
fresh_cluster frame = record empty_cluster { repr = frame; sum = replicate (length frame) 0 }

-- A track and the index of the cluster that took the frame.
pub record Placed : Type 0 where
  pub track : Track
  pub index : Option ℕ

unfoldable pub replace_weakest : List ℕ → Track → Option Weakest → Placed
unfolding spoil
replace_weakest frame t none = record { track = t; index = none }
replace_weakest frame t (some w) = record {
  track = record t {
    groups = map (spoil w.index) t.groups;
    clusters = modify t.clusters w.index (λ _. fresh_cluster frame);
  };
  index = some w.index;
}

-- A slot for a frame that no cluster matches.
unfoldable pub new_cluster : List ℕ → Track → Placed
unfolding weakest_loop replace_weakest
new_cluster frame t =
    if ltb (length t.clusters) max_clusters
    then record {
      track = record t { clusters = t.clusters ++ (fresh_cluster frame ∷ []) };
      index = some (length t.clusters);
    }
    else replace_weakest frame t (weakest_loop 0 t.clusters none)

unfoldable pub place : List ℕ → Track → Option ℕ → Placed
unfolding new_cluster
place frame t none = new_cluster frame t
place frame t (some i) = record { track = t; index = some i }

-- `c.sum[i] += fp[i]` in uint32_t.
unfoldable pub add_entries : List ℕ → List ℕ → List ℕ
add_entries [] fs = []
add_entries (s ∷ ss) [] = s ∷ ss
add_entries (s ∷ ss) (f ∷ fs) = ((s + f) % 2 ^ 32) ∷ add_entries ss fs

unfoldable pub add_member : List ℕ → ℕ → Cluster → Cluster
unfolding add_entries
add_member frame carrier_hz c =
    if ltb c.count max_cluster_members
    then record c {
      sum = add_entries c.sum frame;
      carrier_sum = (c.carrier_sum + carrier_hz) % 2 ^ 32;
      count = (c.count + 1) % 256;
    }
    else c

unfoldable pub note_press : ℕ → Cluster → Cluster
note_press cur c =
    if c.last_group == cur
    then c
    else record c { last_group = cur; group_count = (c.group_count + 1) % 256 }

unfoldable pub join : List ℕ → ℕ → ℕ → Cluster → Cluster
unfolding add_member note_press
join frame carrier_hz cur c = note_press cur (add_member frame carrier_hz c)

abbrev pub join_at : List ℕ → ℕ → Track → Option ℕ → Track
join_at frame carrier_hz t none = t
join_at frame carrier_hz t (some i) = record t {
  clusters = modify t.clusters i (join frame carrier_hz t.cur_group);
}

-- The press's first cluster, and whether anything else was in the press.
unfoldable pub note_cluster : Option ℕ → Group → Option ℕ → Group
note_cluster none g first = record g { dirty = true }
note_cluster (some i) g none = record g { first_cluster = some i }
note_cluster (some i) g (some j) = if i == j then g else record g { dirty = true }

unfoldable pub note_group : Option ℕ → Track → Track
unfolding note_cluster
note_group cl t =
    if leb 1 t.cur_group && leb t.cur_group (length t.groups)
    then record t {
      groups = modify t.groups (t.cur_group - 1) (λ g. note_cluster cl g g.first_cluster);
    }
    else t

unfoldable pub absorb : List ℕ → ℕ → Placed → Placed
unfolding join note_group
absorb frame carrier_hz p = record p {
  track = note_group p.index (join_at frame carrier_hz p.track p.index);
}

-- A well-formed frame joins a cluster; any other changes none.
unfoldable pub cluster_frame : Source → List ℕ → ℕ → Track → Placed
unfolding find_match place absorb
cluster_frame src frame carrier_hz t =
    if well_formed src frame carrier_hz
    then absorb frame carrier_hz (place frame t (find_match 0 t.clusters frame))
    else record { track = t; index = none }

abbrev pub close_burst : ℕ → Placed → Placed
close_burst now p = record p {
  track = record p.track { last_end = now; last_cluster = p.index; saw_burst = true };
}

-- All that feedBurst does to the source's track.
unfoldable pub feed_track : Source → List ℕ → ℕ → ℕ → Track → Placed
unfolding burst_start note_start note_frames frame_of cluster_frame
feed_track src pulses carrier_hz now t = close_burst now (
    cluster_frame src (frame_of src pulses) carrier_hz
      (note_frames src pulses (note_start t (burst_start pulses now))))

-- checkRolling.
unfoldable pub repeats_payload : List Cluster → Bool
repeats_payload [] = false
repeats_payload (c ∷ cs) = leb rf_presses_needed c.group_count || repeats_payload cs

unfoldable pub mem_index : ℕ → List ℕ → Bool
mem_index i [] = false
mem_index i (j ∷ js) = j == i || mem_index i js

unfoldable pub note_id : Group → Option ℕ → List ℕ → List ℕ
unfolding mem_index
note_id g none ids = ids
note_id g (some i) ids = if g.dirty then ids else if mem_index i ids then ids else ids ++ (i ∷ [])

unfoldable pub sole_payloads : List Group → List ℕ → List ℕ
unfolding note_id
sole_payloads [] ids = ids
sole_payloads (g ∷ gs) ids = sole_payloads gs (note_id g g.first_cluster ids)

abbrev pub repr_at : List Cluster → ℕ → List ℕ
repr_at cs i = (get_or cs i empty_cluster).repr

unfoldable pub count_alike : List Cluster → ℕ → List ℕ → ℕ
count_alike cs a [] = 0
count_alike cs a (b ∷ bs) =
    (if structurally_alike (repr_at cs a) (repr_at cs b) then 1 else 0) + count_alike cs a bs

unfoldable pub any_alike : List Cluster → List ℕ → List ℕ → Bool
unfolding count_alike
any_alike cs ids [] = false
any_alike cs ids (a ∷ as') =
    leb rolling_presses_needed (count_alike cs a ids) || any_alike cs ids as'

unfoldable pub is_rolling : Track → Bool
unfolding repeats_payload sole_payloads any_alike
is_rolling t =
    if repeats_payload t.clusters
    then false
    else (let ids = sole_payloads t.groups [] in
        if ltb (length ids) rolling_presses_needed then false else any_alike t.clusters ids ids)
