-- ===== src/Learn/Track/Clusters.antt =====
-- lib/learn/learn_machine.cpp, feedBurst: the cluster that takes a frame is found, opened or evicted
-- for it, and then averaged into; the lemmas of these steps.
use homekit_rf_ir_blaster.Base.{
  ℕ, suc, ◌+◌, ◌≤◌, ◌<◌, ◌≡◌, true, inl, inr, List, [], ◌∷◌, Option, none, some, ◌==◌, length,
  arith, All, subst, All-replicate, all, not, length-replicate, get_elem?, Bool-cases,
}
use homekit_rf_ir_blaster.Learn.Match.{
  Source, well_formed, bursts_match, min_burst_pulses, max_burst_pulses,
}
use homekit_rf_ir_blaster.Learn.Track.{Cluster, fresh_cluster, find_match}
use homekit_rf_ir_blaster.Learn.Merge.Shape.{IsU16}
use homekit_rf_ir_blaster.Learn.Track.Invariant.{
  EndsOnMark, IsBurst, CarriersIn, IsTotal, IsCluster,
}

-- A uint16_t duration that is not 0.
abbrev pub IsPulse : ℕ → Type 0
IsPulse p = (1 ≤ p) × IsU16 p

-- A carrier that a cluster of this source may take.
abbrev pub CarrierIn : Source → ℕ → Type 0
CarrierIn src hz = CarriersIn src 1 hz

-- What well_formed adds to a burst.
pub record IsFrame (src : Source) (frame : List ℕ) (carrier_hz : ℕ) : Type 0 where
  pub pulsed : All IsPulse frame
  pub marked : EndsOnMark src (length frame)
  pub long : min_burst_pulses ≤ length frame
  pub short : length frame ≤ max_burst_pulses
  pub carrier : CarrierIn src carrier_hz

pulses_IsPulse : (ps : List ℕ) → All IsU16 ps → all (λ p. not (p == 0)) ps ≡ true → All IsPulse ps
pulses_IsPulse [] h a = tt
pulses_IsPulse (p ∷ ps) h a = ground (arith, pulses_IsPulse ps h.1)

pub well_formed-IsFrame :
    (src : Source) (frame : List ℕ) (carrier_hz : ℕ)
    → IsBurst src frame
    → well_formed src frame carrier_hz ≡ true
    → IsFrame src frame carrier_hz
unfolding well_formed
well_formed-IsFrame Source.rf315 frame hz b w = record {
  pulsed = pulses_IsPulse frame b.ranged (ground arith);
  marked = b.marked;
  long = ground arith;
  short = ground arith;
  carrier = tt;
}
well_formed-IsFrame Source.rf433 frame hz b w = record {
  pulsed = pulses_IsPulse frame b.ranged (ground arith);
  marked = b.marked;
  long = ground arith;
  short = ground arith;
  carrier = tt;
}
well_formed-IsFrame Source.ir frame hz b w = record {
  pulsed = pulses_IsPulse frame b.ranged (ground arith);
  marked = tt;
  long = ground arith;
  short = ground arith;
  carrier = ground arith;
}

-- The chosen index points at a cluster whose reference is as long as the frame.
abbrev pub Holds : List Cluster → ℕ → Option ℕ → Type 0
Holds cs n none = Unit {0}
Holds cs n (some i) =
    (i < length cs) × ((c : Cluster) → get_elem? cs i ≡ some c → length c.repr ≡ n)

bursts_match-length : (a b : List ℕ) → bursts_match a b ≡ true → length a ≡ length b
unfolding bursts_match
bursts_match-length a b h = ground arith

find_match-found :
    (i : ℕ) (cs : List Cluster) (frame : List ℕ) (j : ℕ)
    → find_match i cs frame ≡ some j
    → (k : ℕ) × (j ≡ i + k) × Holds cs (length frame) (some k)
unfolding find_match
find_match-found i [] frame j e = cc
find_match-found i (c ∷ cs) frame j e = elim (Bool-cases (bursts_match c.repr frame)) [
  | inl m ↦ (
    0,
    ground arith,
    (
      omega arith,
      λ d p.
          let e' : c ≡ d = cc in
          subst (λ (x : Cluster). length x.repr ≡ length frame) e'
            (bursts_match-length c.repr frame m),
    ),
  )
  | inr m ↦
      let (k, at, (lt, same)) = find_match-found (i + 1) cs frame j (ground arith) in
      (suc k, omega arith, (omega arith, same))
]

pub find_match-Holds :
    (cs : List Cluster) (frame : List ℕ) (cl : Option ℕ)
    → find_match 0 cs frame ≡ cl
    → Holds cs (length frame) cl
find_match-Holds cs frame none e = tt
find_match-Holds cs frame (some j) e =
    let (k, at, held) = find_match-found 0 cs frame j e in
    subst (λ n. Holds cs (length frame) (some n)) (omega arith) held

pub fresh_cluster-IsCluster :
    (src : Source) (frame : List ℕ) (hz : ℕ)
    → IsFrame src frame hz
    → IsCluster src (fresh_cluster frame)
fresh_cluster-IsCluster Source.rf315 frame hz f = record {
  aligned = length-replicate (length frame) 0;
  long = f.long;
  short = f.short;
  marked = f.marked;
  members = omega arith;
  carriers = tt;
  samples = omega arith;
  gaps = omega arith;
  totals = All-replicate (IsTotal 0) (length frame) 0 (omega arith);
}
fresh_cluster-IsCluster Source.rf433 frame hz f = record {
  aligned = length-replicate (length frame) 0;
  long = f.long;
  short = f.short;
  marked = f.marked;
  members = omega arith;
  carriers = tt;
  samples = omega arith;
  gaps = omega arith;
  totals = All-replicate (IsTotal 0) (length frame) 0 (omega arith);
}
fresh_cluster-IsCluster Source.ir frame hz f = record {
  aligned = length-replicate (length frame) 0;
  long = f.long;
  short = f.short;
  marked = tt;
  members = omega arith;
  carriers = omega arith;
  samples = omega arith;
  gaps = omega arith;
  totals = All-replicate (IsTotal 0) (length frame) 0 (omega arith);
}
