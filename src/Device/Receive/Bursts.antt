-- ===== src/Device/Receive/Bursts.antt =====
-- src/radios.cpp and src/ir.cpp: the bursts that the receivers deliver.
use homekit_rf_ir_blaster.Base.{
  ℕ, zero, suc, ◌+◌, ◌-◌, ◌%◌, ◌^◌, ◌≤◌, ◌<◌, ◌≡◌, ◌≢◌, ◌⊎◌, inl, inr, refl, Bool, true, false,
  ◌||◌, not, List, [], ◌∷◌, Option, none, some, ◌==◌, if◌then◌else◌, min, length, null, take,
  length-take, All-take, All-append, length-append, All, arith, Bool-cases,
}
use homekit_rf_ir_blaster.Learn.Match.{Source}
use homekit_rf_ir_blaster.Learn.Merge.Shape.{IsU16}
use homekit_rf_ir_blaster.Learn.Track.Invariant.{IsBurst}
use homekit_rf_ir_blaster.Device.Rmt.{Half, RmtSymbol}
use homekit_rf_ir_blaster.Device.Receive.{
  RfBand, halves, collapse_halves, drop_space, unless_empty, collapse_band, Envelope,
  empty_envelope, push, close_mark, note_half, note_halves, envelope_of, carrier_of, IrReceiver,
  with_carrier, poll_ir_burst,
}

-- What an RMT receiver records: a line that changes its level from each duration to the next.
abbrev pub IsAlternating : ℕ → List Half → Type 0
IsAlternating level [] = Unit {0}
IsAlternating level (h ∷ hs) = (h.level ≡ level) × IsAlternating (1 - level) hs

collapse_halves-IsU16 :
    (room : ℕ) (started last : Bool) (hs : List Half)
    → All IsU16 (collapse_halves room started last hs).0
      × (length (collapse_halves room started last hs).0 ≤ room)
unfolding collapse_halves
collapse_halves-IsU16 room started last [] = (tt, omega arith)
collapse_halves-IsU16 zero started last (h ∷ hs) = (tt, omega arith)
collapse_halves-IsU16 (suc room) started last (h ∷ hs) = ground (
  arith,
  collapse_halves-IsU16 (suc room) false last hs,
  collapse_halves-IsU16 room true (h.level == 0) hs,
)

-- From a mark on, the number of entries is odd exactly where the last one is a mark.
started_parity :
    (room level : ℕ) (hs : List Half)
    → level ≤ 1
    → IsAlternating level hs
    → let r = collapse_halves room true (level == 1) hs in
      (length r.0 + level) % 2 ≡ (if r.1 then 1 else 0)
unfolding collapse_halves
started_parity room level [] b a = ground arith
started_parity zero level (h ∷ hs) b a = ground arith
started_parity (suc room) level (h ∷ hs) b (e, a) =
    let ih = started_parity room (1 - level) hs (omega arith) a in
    let same : (h.level == 0) ≡ ((1 - level) == 1) = ground arith in
    let ih' : (length (collapse_halves room true (h.level == 0) hs).0 + (1 - level)) % 2
        ≡ (if (collapse_halves room true (h.level == 0) hs).1 then 1 else 0) =
      rw same ih in
    ground arith

-- Before the first mark nothing is written; after it, the same holds.
collapse_parity :
    (room level : ℕ) (hs : List Half)
    → level ≤ 1
    → IsAlternating level hs
    → let r = collapse_halves room false false hs in
      (null r.0 ≡ true) × (r.1 ≡ false) ⊎ ((length r.0 + 1) % 2 ≡ (if r.1 then 1 else 0))
unfolding collapse_halves
collapse_parity room level [] b a = inl (refl, refl)
collapse_parity zero level (h ∷ hs) b a = inl (refl, refl)
collapse_parity (suc room) level (h ∷ hs) b (e, a) = elim (Bool-cases (h.level == 1)) [
  | inl m ↦ ground (arith, started_parity room 0 hs)
  | inr s ↦ ground (arith, collapse_parity (suc room) (1 - level) hs)
]

drop_space-IsBurst :
    (cap : ℕ) (out : List ℕ) (last : Bool)
    → All IsU16 out
    → length out ≤ cap
    → All IsU16 (drop_space (out, last)) × (length (drop_space (out, last)) ≤ cap)
unfolding drop_space
drop_space-IsBurst cap out true u short =
    (All-take IsU16 (length out - 1) out u, omega (arith, length-take (length out - 1) out))
drop_space-IsBurst cap out false u short = (u, short)

length-drop_space : (out : List ℕ) → length (drop_space (out, true)) ≡ length out - 1
unfolding drop_space
length-drop_space out =
    let shorter : length (take (length out - 1) out) ≡ min (length out - 1) (length out) =
      length-take (length out - 1) out in
    omega (arith, shorter)

drop_space-odd :
    (out : List ℕ) (last : Bool)
    → ((null out ≡ true) × (last ≡ false)) ⊎ ((length out + 1) % 2 ≡ (if last then 1 else 0))
    → (drop_space (out, last) ≡ []) ⊎ (length (drop_space (out, last)) % 2 ≡ 1)
unfolding drop_space
drop_space-odd [] true h = inl refl
drop_space-odd [] false h = inl refl
drop_space-odd (p ∷ ps) true h =
    let shorter : length (drop_space (p ∷ ps, true)) ≡ suc (length ps) - 1 =
      length-drop_space (p ∷ ps) in
    let odd : (suc (length ps) - 1) % 2 ≡ 1 = ground arith in inr (rw shorter odd)
drop_space-odd (p ∷ ps) false h = ground arith

unless_empty-eq : (xs ys : List ℕ) → unless_empty xs ≡ some ys → (xs ≡ ys) × (xs ≢ [])
unless_empty-eq [] ys h = absurd cc
unless_empty-eq (x ∷ xs) ys h = (cc, λ e. cc)

-- The levels of a frame alternate, whichever comes first.
pub record IsFrame (frame : List RmtSymbol) : Type 0 where
  pub level : ℕ
  pub is_level : level ≤ 1
  pub alternates : IsAlternating level (halves frame)

-- From a frame whose levels alternate, the receiver of a band gives a burst that the capture machine
-- can take: no longer than the buffer, of uint16_t durations, and of odd length, so that it ends on
-- the mark.
pub collapse_band-IsBurst :
    (b : RfBand) (room : ℕ) (out : List ℕ)
    → IsFrame b.frame
    → (collapse_band b room).0 ≡ some out
    → IsBurst Source.rf315 out × (length out ≤ room)
unfolding collapse_band
collapse_band-IsBurst b room out f h =
    let r = collapse_halves room false false (halves b.frame) in
    let (ranged, short) = collapse_halves-IsU16 room false false (halves b.frame) in
    let (u, fits) = drop_space-IsBurst room r.0 r.1 ranged short in
    let odd =
      drop_space-odd r.0 r.1
        (collapse_parity room f.level (halves b.frame) f.is_level f.alternates) in
    elim (Bool-cases (not b.rx || not b.frame_ready)) [
      | inl off ↦ let h' = rw off at h in absurd (cc h')
      | inr on ↦
          let h' = rw on at h in
          let (same, filled) = unless_empty-eq (drop_space r) out h' in
          elim odd [
            | inl e ↦ absurd (filled e)
            | inr o ↦
                let res : IsBurst Source.rf315 (drop_space r) × (length (drop_space r) ≤ room) =
                  (record { ranged = u; marked = o }, fits) in
                rw same at res
          ]
    ]

push-IsU16 :
    (cap us : ℕ) (space : Bool) (e : Envelope)
    → All IsU16 e.out × (length e.out ≤ cap)
    → All IsU16 (push cap us space e).out × (length (push cap us space e).out ≤ cap)
unfolding push
push-IsU16 cap us space e h =
    ground
      (arith, All-append IsU16 e.out (min us 65535 ∷ []), length-append e.out (min us 65535 ∷ []))

close_mark-IsU16 :
    (cap : ℕ) (e : Envelope)
    → All IsU16 e.out × (length e.out ≤ cap)
    → All IsU16 (close_mark cap e).out × (length (close_mark cap e).out ≤ cap)
unfolding close_mark
close_mark-IsU16 cap e h = ground (arith, push-IsU16 cap e.mark_accum false e)

note_half-IsU16 :
    (cap : ℕ) (h : Half) (e : Envelope)
    → All IsU16 e.out × (length e.out ≤ cap)
    → All IsU16 (note_half cap h e).out × (length (note_half cap h e).out ≤ cap)
unfolding note_half
note_half-IsU16 cap h e k =
    ground (arith, close_mark-IsU16 cap e, push-IsU16 cap h.duration true (close_mark cap e))

note_halves-IsU16 :
    (cap : ℕ) (hs : List Half) (e : Envelope)
    → All IsU16 e.out × (length e.out ≤ cap)
    → All IsU16 (note_halves cap hs e).out × (length (note_halves cap hs e).out ≤ cap)
unfolding note_halves
note_halves-IsU16 cap [] e k = k
note_halves-IsU16 cap (h ∷ hs) e k =
    note_halves-IsU16 cap hs (note_half cap h e) (note_half-IsU16 cap h e k)

with_carrier-eq :
    (hz hz' : ℕ) (o : Option (List ℕ)) (out : List ℕ)
    → with_carrier hz o ≡ some (out, hz')
    → (o ≡ some out) × (hz ≡ hz')
with_carrier-eq hz hz' none out h = absurd cc
with_carrier-eq hz hz' (some xs) out h = (cc, cc)

null-false : (xs : List ℕ) → xs ≢ [] → null xs ≡ false
null-false [] h = absurd (h refl)
null-false (x ∷ xs) h = refl

carrier_of_lt : (e : Envelope) → carrier_of e < 2 ^ 16
unfolding carrier_of
carrier_of_lt e = ground arith

envelope_of-IsU16 :
    (cap : ℕ) (hs : List Half)
    → All IsU16 (drop_space ((envelope_of cap hs).out, (envelope_of cap hs).last_was_space))
      × (length (drop_space ((envelope_of cap hs).out, (envelope_of cap hs).last_was_space)) ≤ cap)
unfolding envelope_of
envelope_of-IsU16 cap hs =
    let e = note_halves cap hs empty_envelope in
    let (u, short) =
      close_mark-IsU16 cap e (note_halves-IsU16 cap hs empty_envelope (tt, omega arith)) in
    drop_space-IsBurst cap (close_mark cap e).out (close_mark cap e).last_was_space u short

-- An infrared burst that fits its buffer, with a carrier that fits a uint16_t.
pub record IsDelivered (room : ℕ) (out : List ℕ) (hz : ℕ) : Type 0 where
  pub burst : IsBurst Source.ir out
  pub fits : length out ≤ room
  pub filled : null out ≡ false
  pub carrier : hz < 2 ^ 16

-- From any frame, the infrared receiver gives a burst that is not empty and no longer than the
-- buffer, of uint16_t durations, with a carrier that fits a uint16_t.
pub poll_ir_burst-IsDelivered :
    (r : IrReceiver) (room hz : ℕ) (out : List ℕ)
    → (poll_ir_burst r room).0 ≡ some (out, hz)
    → IsDelivered room out hz
unfolding poll_ir_burst
poll_ir_burst-IsDelivered r room hz out h =
    let e = envelope_of room (halves r.frame) in
    let d = drop_space (e.out, e.last_was_space) in
    let (u, fits) = envelope_of-IsU16 room (halves r.frame) in
    elim (Bool-cases (not r.rx || not r.frame_ready)) [
      | inl off ↦ let h' = rw off at h in absurd (cc h')
      | inr on ↦
          let h' = rw on at h in
          let (same, carrier) = with_carrier-eq (carrier_of e) hz (unless_empty d) out h' in
          let (same', filled) = unless_empty-eq d out same in
          let delivered : IsDelivered room d (carrier_of e) = record {
            burst = record { ranged = u; marked = tt };
            fits = fits;
            filled = null-false d filled;
            carrier = carrier_of_lt e;
          } in
          let named = rw same' at delivered in rw carrier at named
    ]
