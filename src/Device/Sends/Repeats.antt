-- ===== src/Device/Sends/Repeats.antt =====
-- src/accessory_builder.cpp, transmit and pollPendingSends: the sequences in flight.
use homekit_rf_ir_blaster.Base.{
  ℕ, ◌+◌, ◌-◌, ◌%◌, ◌^◌, ◌≤◌, ◌<◌, ◌≡◌, refl, Bool, true, false, ◌||◌, not, List, [], ◌∷◌, ◌++◌,
  Option, none, some, ltb, ◌==◌, if◌then◌else◌, Bytes, All, All-append, arith, Bool-cases, inl, inr,
  codes,
}
use homekit_rf_ir_blaster.Config.Model.{
  CommandSlot, Config, max_repeat_count, max_repeat_delay_ms, is_learned,
}
use homekit_rf_ir_blaster.Device.Radio.{TxAnswers, Receivers}
use homekit_rf_ir_blaster.Device.Sends.{
  Transmission, PendingSeq, Sender, aid_busy, send_count, send_delay, schedule, after_fire,
  transmit_slot, transmit, fire_power, resolve_slot, fire_slot, is_due, after_send, poll_seqs,
  poll_pending_sends, apply_config_change,
}

-- A sequence in flight has between one and nine sends left, and its delay is bounded.
pub record IsSeq (p : PendingSeq) : Type 0 where
  pub some_left : 1 ≤ p.sends_left
  pub few_left : p.sends_left < max_repeat_count
  pub delay : p.delay_ms ≤ max_repeat_delay_ms

-- No two sequences are of one accessory.
abbrev pub AreApart : List PendingSeq → Type 0
AreApart [] = Unit {0}
AreApart (p ∷ ps) = (aid_busy p.aid ps ≡ false) × AreApart ps

pub record IsSender (s : Sender) : Type 0 where
  pub each : All IsSeq s.pending
  pub apart : AreApart s.pending

aid_busy-append :
    (aid : ℕ) (ps : List PendingSeq) (q : PendingSeq)
    → aid_busy aid (ps ++ (q ∷ [])) ≡ (aid_busy aid ps || (q.aid == aid))
unfolding aid_busy
aid_busy-append aid [] q = ground arith
aid_busy-append aid (p ∷ ps) q = ground (arith, aid_busy-append aid ps q)

AreApart-append :
    (ps : List PendingSeq) (q : PendingSeq)
    → AreApart ps
    → aid_busy q.aid ps ≡ false
    → AreApart (ps ++ (q ∷ []))
unfolding aid_busy
AreApart-append [] q a b = (refl, tt)
AreApart-append (p ∷ ps) q a b = ground (arith, AreApart-append ps q, aid_busy-append p.aid ps q)

send_count_bounds :
    (slot : CommandSlot) → (1 ≤ send_count slot) × (send_count slot ≤ max_repeat_count)
unfolding send_count
send_count_bounds slot = ground arith

send_delay_bound : (slot : CommandSlot) → send_delay slot ≤ max_repeat_delay_ms
unfolding send_delay
send_delay_bound slot = ground arith

send_count-IsSeq :
    (now aid : ℕ) (name : Bytes) (slot : CommandSlot)
    → ltb 1 (send_count slot) ≡ true
    → IsSeq (record {
      aid = aid;
      name = name;
      sends_left = (send_count slot - 1) % 256;
      delay_ms = send_delay slot;
      next_fire_ms = (now + send_delay slot) % 2 ^ 32;
    })
send_count-IsSeq now aid name slot e = record {
  some_left = ground (arith, send_count_bounds slot);
  few_left = ground (arith, send_count_bounds slot);
  delay = send_delay_bound slot;
}

schedule-IsSender :
    (now aid : ℕ) (name : Bytes) (slot : CommandSlot) (s : Sender)
    → aid_busy aid s.pending ≡ false
    → IsSender s
    → IsSender (schedule now aid name slot s)
unfolding schedule
schedule-IsSender now aid name slot s free k = elim (Bool-cases (ltb 1 (send_count slot))) [
  | inl e ↦ rw e (record {
    each = All-append IsSeq s.pending _ k.each (send_count-IsSeq now aid name slot e, tt);
    apart = AreApart-append s.pending _ k.apart free;
  })
  | inr e ↦ rw e k
]

after_fire-IsSender :
    (now aid : ℕ) (name : Bytes) (slot : CommandSlot) (s : Sender) (t : Option Transmission)
    → aid_busy aid s.pending ≡ false
    → IsSender s
    → IsSender (after_fire now aid name slot s t).sender
after_fire-IsSender now aid name slot s none free k = k
after_fire-IsSender now aid name slot s (some t) free k =
    schedule-IsSender now aid name slot s free k

transmit_slot-IsSender :
    (k : TxAnswers) (r : Receivers) (now aid : ℕ) (name : Bytes) (s : Sender)
    (o : Option CommandSlot)
    → IsSender s
    → IsSender (transmit_slot k r now aid name s o).sender
unfolding transmit_slot
transmit_slot-IsSender k r now aid name s none h = h
transmit_slot-IsSender k r now aid name s (some slot) h =
    elim (Bool-cases (not (is_learned slot.code))) [
      | inl e ↦ rw e h
      | inr e ↦ rw e (elim (Bool-cases (aid_busy aid s.pending)) [
        | inl b ↦ rw b h
        | inr b ↦ rw b (after_fire-IsSender now aid name slot s _ b h)
      ])
    ]

transmit-IsSender :
    (k : TxAnswers) (r : Receivers) (now aid : ℕ) (name : Bytes) (s : Sender)
    → IsSender s
    → IsSender (transmit k r now aid name s).sender
unfolding transmit
transmit-IsSender k r now aid name s h = transmit_slot-IsSender k r now aid name s _ h

after_send-IsSeq :
    (now : ℕ) (p : PendingSeq) (t : Option Transmission) → IsSeq p → All IsSeq (after_send now p t)
unfolding after_send
after_send-IsSeq now p none k = tt
after_send-IsSeq now p (some t) k = elim (Bool-cases ((p.sends_left + 255) % 256 == 0)) [
  | inl e ↦ rw e tt
  | inr e ↦ rw e (
    record {
      some_left = ground (arith, k.some_left, k.few_left);
      few_left = ground (arith, k.some_left, k.few_left);
      delay = k.delay;
    },
    tt,
  )
]

-- A sequence keeps its accessory, so that no new one becomes busy.
after_send-aid_busy :
    (aid now : ℕ) (p : PendingSeq) (t : Option Transmission)
    → (p.aid == aid) ≡ false
    → aid_busy aid (after_send now p t) ≡ false
unfolding after_send aid_busy
after_send-aid_busy aid now p none e = refl
after_send-aid_busy aid now p (some t) e = ground arith

aid_busy-append_list :
    (aid : ℕ) (ps qs : List PendingSeq)
    → aid_busy aid (ps ++ qs) ≡ (aid_busy aid ps || aid_busy aid qs)
unfolding aid_busy
aid_busy-append_list aid [] qs = refl
aid_busy-append_list aid (p ∷ ps) qs = ground (arith, aid_busy-append_list aid ps qs)

poll_seqs-aid_busy :
    (k : PendingSeq → TxAnswers) (r : Receivers) (now : ℕ) (cfg : Config) (aid : ℕ)
    (ps : List PendingSeq)
    → aid_busy aid ps ≡ false
    → aid_busy aid (poll_seqs k r now cfg ps).0 ≡ false
unfolding poll_seqs aid_busy
poll_seqs-aid_busy k r now cfg aid [] e = refl
poll_seqs-aid_busy k r now cfg aid (p ∷ ps) e =
    let t = fire_slot (k p) r (resolve_slot cfg p.aid p.name) in
    let rest = (poll_seqs k r now cfg ps).0 in
    ground (
      arith,
      poll_seqs-aid_busy k r now cfg aid ps,
      after_send-aid_busy aid now p t,
      aid_busy-append_list aid (after_send now p t) rest,
    )

after_send-AreApart :
    (now : ℕ) (p : PendingSeq) (t : Option Transmission) (rest : List PendingSeq)
    → aid_busy p.aid rest ≡ false
    → AreApart rest
    → AreApart (after_send now p t ++ rest)
unfolding after_send
after_send-AreApart now p none rest e a = a
after_send-AreApart now p (some t) rest e a = elim (Bool-cases ((p.sends_left + 255) % 256 == 0)) [
  | inl d ↦ rw d a
  | inr d ↦ rw d (e, a)
]

poll_seqs-IsSender :
    (k : PendingSeq → TxAnswers) (r : Receivers) (now : ℕ) (cfg : Config) (ps : List PendingSeq)
    → All IsSeq ps
    → AreApart ps
    → All IsSeq (poll_seqs k r now cfg ps).0 × AreApart (poll_seqs k r now cfg ps).0
unfolding poll_seqs
poll_seqs-IsSender k r now cfg [] each apart = (tt, tt)
poll_seqs-IsSender k r now cfg (p ∷ ps) each apart =
    let t = fire_slot (k p) r (resolve_slot cfg p.aid p.name) in
    let rest = (poll_seqs k r now cfg ps).0 in
    let (each', apart') = poll_seqs-IsSender k r now cfg ps each.1 apart.1 in
    let free = poll_seqs-aid_busy k r now cfg p.aid ps apart.0 in
    elim (Bool-cases (not (is_due now p))) [
      | inl e ↦ rw e ((each.0, each'), (free, apart'))
      | inr e ↦ rw e (
        All-append IsSeq (after_send now p t) rest (after_send-IsSeq now p t each.0) each',
        after_send-AreApart now p t rest free apart',
      )
    ]

-- What happens to a sender: a command, firePower, a poll, or a new configuration.
pub data Act : Type 0 where
  commands : TxAnswers → Receivers → ℕ → ℕ → Bytes → Act
  powers : TxAnswers → TxAnswers → Receivers → ℕ → ℕ → Bool → Act
  polls : (PendingSeq → TxAnswers) → Receivers → ℕ → Act
  configures : Config → Act

unfoldable pub act : Act → Sender → Sender
unfolding transmit fire_power poll_pending_sends apply_config_change
act (commands k r now aid name) s = (transmit k r now aid name s).sender
act (powers k k' r now aid want) s = (fire_power k k' r now aid want s).sender
act (polls k r now) s = (poll_pending_sends k r now s).0
act (configures cfg) s = apply_config_change cfg s

unfoldable pub acts : List Act → Sender → Sender
unfolding act
acts [] s = s
acts (a ∷ as') s = acts as' (act a s)

fire_power-IsSender :
    (k k' : TxAnswers) (r : Receivers) (now aid : ℕ) (want : Bool) (s : Sender)
    → IsSender s
    → IsSender (fire_power k k' r now aid want s).sender
unfolding fire_power
fire_power-IsSender k k' r now aid want s h =
    let direct = transmit k r now aid (if want then codes "on" else codes "off") s in
    let kept = transmit-IsSender k r now aid (if want then codes "on" else codes "off") s h in
    elim (Bool-cases direct.accepted) [
      | inl e ↦ rw e kept
      | inr e ↦ rw e (transmit-IsSender k' r now aid (codes "toggle") direct.sender kept)
    ]

pub act-IsSender : (a : Act) (s : Sender) → IsSender s → IsSender (act a s)
unfolding act apply_config_change poll_pending_sends
act-IsSender (commands k r now aid name) s h = transmit-IsSender k r now aid name s h
act-IsSender (powers k k' r now aid want) s h = fire_power-IsSender k k' r now aid want s h
act-IsSender (polls k r now) s h =
    let (each, apart) = poll_seqs-IsSender k r now s.config s.pending h.each h.apart in
    record { each = each; apart = apart }
act-IsSender (configures cfg) s h = record { each = tt; apart = tt }

-- Whatever commands, polls and new configurations come, each accessory has at most one sequence in
-- flight, with one to nine sends left and a delay of at most 5000 ms, if that was so before.
pub acts-IsSender : (as' : List Act) (s : Sender) → IsSender s → IsSender (acts as' s)
unfolding acts
acts-IsSender [] s h = h
acts-IsSender (a ∷ as') s h = acts-IsSender as' (act a s) (act-IsSender a s h)
