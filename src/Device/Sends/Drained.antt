-- ===== src/Device/Sends/Drained.antt =====
-- src/accessory_builder.cpp, pollPendingSends: how the sequences in flight come to an end.
use homekit_rf_ir_blaster.Base.{
  ℕ, ◌+◌, ◌-◌, ◌≤◌, ◌<◌, ◌≡◌, ◌⊎◌, refl, Bool, true, false, ◌||◌, List, [], ◌∷◌, ◌++◌, Option, none,
  some, length, length-append, All, arith, inl, inr, null,
}
use homekit_rf_ir_blaster.Config.Model.{Config}
use homekit_rf_ir_blaster.Device.Radio.{TxAnswers, Receivers}
use homekit_rf_ir_blaster.Device.Sends.{
  Transmission, PendingSeq, Sender, resolve_slot, fire_slot, is_due, after_send, to_list, poll_seqs,
  poll_pending_sends,
}
use homekit_rf_ir_blaster.Device.Sends.Repeats.{IsSeq, IsSender, act-IsSender, polls, act}

-- The sends that are still due.
abbrev pub total_left : List PendingSeq → ℕ
total_left [] = 0
total_left (p ∷ ps) = p.sends_left + total_left ps

abbrev pub any_due : ℕ → List PendingSeq → Bool
any_due now [] = false
any_due now (p ∷ ps) = is_due now p || any_due now ps

total_left-append :
    (ps qs : List PendingSeq) → total_left (ps ++ qs) ≡ total_left ps + total_left qs
total_left-append [] qs = omega arith
total_left-append (p ∷ ps) qs = omega (arith, total_left-append ps qs)

after_send-total :
    (now : ℕ) (p : PendingSeq) (t : Option Transmission)
    → IsSeq p
    → (total_left (after_send now p t) + length (to_list t) ≤ p.sends_left)
      × (total_left (after_send now p t) < p.sends_left)
unfolding after_send
after_send-total now p none k = omega (arith, k.some_left)
after_send-total now p (some t) k = ground (arith, k.some_left, k.few_left)

poll_seqs-total :
    (k : PendingSeq → TxAnswers) (r : Receivers) (now : ℕ) (cfg : Config) (ps : List PendingSeq)
    → All IsSeq ps
    → let polled = poll_seqs k r now cfg ps in
      (total_left polled.0 + length polled.1 ≤ total_left ps)
      × (any_due now ps ≡ true → total_left polled.0 < total_left ps)
unfolding poll_seqs
poll_seqs-total k r now cfg [] each = (omega arith, λ h. absurd (cc h))
poll_seqs-total k r now cfg (p ∷ ps) each =
    let t = fire_slot (k p) r (resolve_slot cfg p.aid p.name) in
    let rest = poll_seqs k r now cfg ps in
    ground (
      arith,
      poll_seqs-total k r now cfg ps each.1,
      after_send-total now p t each.0,
      total_left-append (after_send now p t) rest.0,
      length-append (to_list t) rest.1,
    )

-- One poll of the loop's task.
pub record Poll : Type 0 where
  pub answers : PendingSeq → TxAnswers
  pub receivers : Receivers
  pub now : ℕ

unfoldable pub poll_all : List Poll → Sender → Sender × List Transmission
unfolding poll_pending_sends
poll_all [] s = (s, [])
poll_all (q ∷ qs) s =
    let polled = poll_pending_sends q.answers q.receivers q.now s in
    let rest = poll_all qs polled.0 in (rest.0, polled.1 ++ rest.1)

-- At each poll a sequence is due, as long as one is in flight.
abbrev pub AreTimely : List Poll → Sender → Type 0
AreTimely [] s = Unit {0}
AreTimely (q ∷ qs) s =
    ((any_due q.now s.pending ≡ true) ⊎ (null s.pending ≡ true))
    × AreTimely qs (poll_pending_sends q.answers q.receivers q.now s).0

poll_pending_sends-IsSender :
    (q : Poll) (s : Sender)
    → IsSender s
    → IsSender (poll_pending_sends q.answers q.receivers q.now s).0
poll_pending_sends-IsSender q s h =
    unfold act in act-IsSender (polls q.answers q.receivers q.now) s h

poll_pending_sends-total :
    (q : Poll) (s : Sender)
    → IsSender s
    → let polled = poll_pending_sends q.answers q.receivers q.now s in
      (total_left polled.0.pending + length polled.1 ≤ total_left s.pending)
      × (any_due q.now s.pending ≡ true → total_left polled.0.pending < total_left s.pending)
unfolding poll_pending_sends
poll_pending_sends-total q s h =
    poll_seqs-total q.answers q.receivers q.now s.config s.pending h.each

nothing_left : (ps : List PendingSeq) → All IsSeq ps → total_left ps ≡ 0 → null ps ≡ true
nothing_left [] each e = refl
nothing_left (p ∷ ps) each e = absurd (omega (arith, each.0.some_left, e))

null-total : (ps : List PendingSeq) → null ps ≡ true → total_left ps ≡ 0
null-total [] e = refl
null-total (p ∷ ps) e = absurd (cc e)

poll_all-total :
    (qs : List Poll) (s : Sender)
    → IsSender s
    → AreTimely qs s
    → IsSender (poll_all qs s).0
      × (length (poll_all qs s).1 ≤ total_left s.pending)
      × (total_left (poll_all qs s).0.pending ≤ total_left s.pending - length qs)
unfolding poll_all
poll_all-total [] s h timely = (h, omega arith, omega arith)
poll_all-total (q ∷ qs) s h timely =
    let polled = poll_pending_sends q.answers q.receivers q.now s in
    let kept = poll_pending_sends-IsSender q s h in
    let fewer = poll_pending_sends-total q s h in
    let later = poll_all-total qs polled.0 kept timely.1 in
    (
      later.0,
      omega (arith, later.1, fewer.0, length-append polled.1 (poll_all qs polled.0).1),
      elim timely.0 [
        | inl due ↦ omega (arith, later.2, fewer.1 due)
        | inr empty ↦ omega (arith, later.2, fewer.0, null-total s.pending empty)
      ],
    )

-- The sequences in flight come to an end: after as many polls as sends were left, each at a time
-- when a sequence is due if one is in flight, none is left; and no more was sent than was left,
-- whatever the sends answer. This is for a sender whose sequences keep their bounds.
pub poll_all-drained :
    (qs : List Poll) (s : Sender)
    → IsSender s
    → AreTimely qs s
    → total_left s.pending ≤ length qs
    → (null (poll_all qs s).0.pending ≡ true) × (length (poll_all qs s).1 ≤ total_left s.pending)
poll_all-drained qs s h timely enough =
    let (kept, sent, left) = poll_all-total qs s h timely in
    (nothing_left (poll_all qs s).0.pending kept.each (omega (arith, left, enough)), sent)
