-- ===== src/Learn/Track/Placing.antt =====
-- lib/learn/learn_machine.cpp, feedBurst: lemmas on placing the frame, averaging it in, and noting
-- the press's first cluster.
use homekit_rf_ir_blaster.Base.{
  ℕ, suc, ◌+◌, ◌%◌, ◌^◌, ◌≤◌, ◌<◌, ◌≡◌, refl, Bool, true, false, inl, inr, List, [], ◌∷◌, ◌++◌,
  Option, none, some, ltb, if◌then◌else◌, length, arith, All, ap, subst, All-append, All-modify,
  All-mono, length-append, length-modify, modify, map, get_elem?-append_end, get_elem?-modify_self,
  Bool-cases, length-map,
}
use homekit_rf_ir_blaster.Learn.Match.{Source}
use homekit_rf_ir_blaster.Learn.Track.{
  Cluster, Group, Track, Placed, Weakest, fresh_cluster, max_clusters, weaker, weakest_loop,
  is_protected, spoil, replace_weakest, new_cluster, place, add_entries, add_member, note_press,
  join, max_cluster_members,
}
use homekit_rf_ir_blaster.Learn.Track.Invariant.{
  CarriersIn, IsTotal, IsCluster, GroupBelow, IsTrack, Below-mono,
}
use homekit_rf_ir_blaster.Learn.Track.Clusters.{
  IsPulse, CarrierIn, IsFrame, Holds, fresh_cluster-IsCluster,
}

-- The track is sound and the chosen index is in range, at a cluster of the frame's length.
pub record IsPlaced (src : Source) (frame : List ℕ) (p : Placed) : Type 0 where
  pub sound : IsTrack src p.track
  pub held : Holds p.track.clusters (length frame) p.index

abbrev WeakestBelow : ℕ → Option Weakest → Type 0
WeakestBelow n none = Unit {0}
WeakestBelow n (some w) = w.index < n

weakest_loop-Below :
    (i : ℕ) (cs : List Cluster) (w : Option Weakest) (n : ℕ)
    → i + length cs ≤ n
    → WeakestBelow n w
    → WeakestBelow n (weakest_loop i cs w)
unfolding weakest_loop weaker
weakest_loop-Below i [] w n h b = b
weakest_loop-Below i (c ∷ cs) w n h b =
    weakest_loop-Below (i + 1) cs (if is_protected c then w else weaker i c w) n (omega arith)
      (next (is_protected c) w b)
  where
    next :
        (safe : Bool) (v : Option Weakest)
        → WeakestBelow n v
        → WeakestBelow n (if safe then v else weaker i c v)
    next true v k = k
    next false none k = omega arith
    next false (some v) k = ground arith

spoil-GroupBelow :
    (n i : ℕ) (gs : List Group) → All (GroupBelow n) gs → All (GroupBelow n) (map (spoil i) gs)
unfolding spoil
spoil-GroupBelow n i [] h = tt
spoil-GroupBelow n i (g ∷ gs) h = (ground arith, spoil-GroupBelow n i gs h.1)

append_cluster-IsTrack :
    (src : Source) (frame : List ℕ) (hz : ℕ) (t : Track)
    → IsFrame src frame hz
    → length t.clusters < max_clusters
    → IsTrack src t
    → IsTrack src (record t { clusters = t.clusters ++ (fresh_cluster frame ∷ []) })
append_cluster-IsTrack src frame hz t f room k =
    let n = length t.clusters in
    let n' = length (t.clusters ++ (fresh_cluster frame ∷ [])) in
    let grown : n' ≡ n + 1 = length-append t.clusters (fresh_cluster frame ∷ []) in
    record {
      clustered =
          All-append (IsCluster src) t.clusters (fresh_cluster frame ∷ []) k.clustered
            (fresh_cluster-IsCluster src frame hz f, tt);
      few = omega arith;
      grouped =
          All-mono (GroupBelow n) (GroupBelow n') t.groups
            (λ g. Below-mono n n' g.first_cluster (omega arith)) k.grouped;
      few_groups = k.few_groups;
      last = Below-mono n n' t.last_cluster (omega arith) k.last;
      gap = k.gap;
      frames = k.frames;
    }

replace_weakest-IsPlaced :
    (src : Source) (frame : List ℕ) (hz : ℕ) (t : Track) (w : Option Weakest)
    → IsFrame src frame hz
    → WeakestBelow (length t.clusters) w
    → IsTrack src t
    → IsPlaced src frame (replace_weakest frame t w)
unfolding replace_weakest
replace_weakest-IsPlaced src frame hz t none f b k = record { sound = k; held = tt }
replace_weakest-IsPlaced src frame hz t (some w) f b k =
    let swap : Cluster → Cluster = λ _. fresh_cluster frame in
    let same : length (modify t.clusters w.index swap) ≡ length t.clusters =
      length-modify t.clusters w.index swap in
    record {
      sound = record {
        clustered =
            All-modify (IsCluster src) t.clusters w.index swap
              (λ c _. fresh_cluster-IsCluster src frame hz f) k.clustered;
        few = rw same k.few;
        grouped = rw same (spoil-GroupBelow (length t.clusters) w.index t.groups k.grouped);
        few_groups = rw (length-map t.groups (spoil w.index)) k.few_groups;
        last = rw same k.last;
        gap = k.gap;
        frames = k.frames;
      };
      held = (
        rw same b,
        λ c e. let (y, at, is) = get_elem?-modify_self t.clusters w.index swap c e in rw is refl,
      );
    }

new_cluster-IsPlaced :
    (src : Source) (frame : List ℕ) (hz : ℕ) (t : Track)
    → IsFrame src frame hz
    → IsTrack src t
    → IsPlaced src frame (new_cluster frame t)
unfolding new_cluster
new_cluster-IsPlaced src frame hz t f k = elim (Bool-cases (ltb (length t.clusters) max_clusters)) [
  | inl room ↦ rw room (record {
    sound = append_cluster-IsTrack src frame hz t f (ground arith) k;
    held = (
      omega (arith, length-append t.clusters (fresh_cluster frame ∷ [])),
      λ c e.
          let at = get_elem?-append_end t.clusters (fresh_cluster frame) in
          let is : fresh_cluster frame ≡ c = cc in
          subst (λ (x : Cluster). length x.repr ≡ length frame) is refl,
    );
  })
  | inr full ↦ rw full (
      replace_weakest-IsPlaced src frame hz t (weakest_loop 0 t.clusters none) f
        (weakest_loop-Below 0 t.clusters none (length t.clusters) (omega arith) tt) k)
]

pub place-IsPlaced :
    (src : Source) (frame : List ℕ) (hz : ℕ) (t : Track) (cl : Option ℕ)
    → IsFrame src frame hz
    → Holds t.clusters (length frame) cl
    → IsTrack src t
    → IsPlaced src frame (place frame t cl)
unfolding place
place-IsPlaced src frame hz t none f h k = new_cluster-IsPlaced src frame hz t f k
place-IsPlaced src frame hz t (some i) f h k = record { sound = k; held = h }

-- The sums stay below 2 ^ 32, so no addition wraps.
add_entries-totals :
    (n : ℕ) (ss fs : List ℕ)
    → n < max_cluster_members
    → length ss ≡ length fs
    → All (IsTotal n) ss
    → All IsPulse fs
    → All (IsTotal (n + 1)) (add_entries ss fs)
unfolding add_entries
add_entries-totals n [] fs lt e h p = tt
add_entries-totals n (s ∷ ss) [] lt e h p = absurd (omega arith)
add_entries-totals n (s ∷ ss) (f ∷ fs) lt e h p =
    (omega arith, add_entries-totals n ss fs lt (omega arith) h.1 p.1)

length-add_entries : (ss fs : List ℕ) → length (add_entries ss fs) ≡ length ss
unfolding add_entries
length-add_entries [] fs = refl
length-add_entries (s ∷ ss) [] = refl
length-add_entries (s ∷ ss) (f ∷ fs) = ap suc (length-add_entries ss fs)

carriers_add :
    (src : Source) (n total hz : ℕ)
    → n < max_cluster_members
    → CarriersIn src n total
    → CarrierIn src hz
    → CarriersIn src ((n + 1) % 256) ((total + hz) % 2 ^ 32)
carriers_add Source.rf315 n total hz lt h c = tt
carriers_add Source.rf433 n total hz lt h c = tt
carriers_add Source.ir n total hz lt h c = omega arith

pub join-IsCluster :
    (src : Source) (frame : List ℕ) (hz cur : ℕ) (c : Cluster)
    → IsFrame src frame hz
    → length c.repr ≡ length frame
    → IsCluster src c
    → IsCluster src (join frame hz cur c)
unfolding join add_member note_press
join-IsCluster src frame hz cur c f e k = elim (Bool-cases (ltb c.count max_cluster_members)) [
  | inl room ↦
      let lt : c.count < max_cluster_members = ground arith in
      let grown : (c.count + 1) % 256 ≡ c.count + 1 = omega (arith, lt) in
      let totals : All (IsTotal ((c.count + 1) % 256)) (add_entries c.sum frame) =
        rw grown (
          add_entries-totals c.count c.sum frame lt (omega (arith, k.aligned)) k.totals f.pulsed) in
      let carriers = carriers_add src c.count c.carrier_sum hz lt k.carriers f.carrier in
      let aligned = length-add_entries c.sum frame in ground arith
  | inr full ↦ ground arith
]
