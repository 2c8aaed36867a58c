-- ===== src/Device/Sends.antt =====
-- src/accessory_builder.cpp: from a HomeKit command to what is sent, and the sends that repeat. The
-- RMT driver's answers and `millis()` are arguments; HomeSpan's accessories are left aside.
pub mod Burst
pub mod Repeats
pub mod Drained
use homekit_rf_ir_blaster.Base.{
  ℕ, zero, suc, ◌+◌, ◌-◌, ◌*◌, ◌/◌, ◌%◌, ◌^◌, ◌≡◌, refl, Bool, true, false, ◌&&◌, ◌||◌, not, List,
  [], ◌∷◌, ◌++◌, Option, none, some, is_some, ltb, leb, ◌==◌, if◌then◌else◌, length, take, Bytes,
  bytes_eq, codes,
}
use homekit_rf_ir_blaster.Config.Model.{
  CodeKind, StoredCode, CommandSlot, VirtualDevice, Config, is_learned, max_pulses,
  max_repeat_count, max_repeat_delay_ms,
}
use homekit_rf_ir_blaster.Device.Rmt.{RmtSymbol}
use homekit_rf_ir_blaster.Device.Radio.{TxAnswers, Receivers, send_rf_code, send_ir}

unfoldable pub find_slot : Bytes → List CommandSlot → Option CommandSlot
unfolding bytes_eq
find_slot name [] = none
find_slot name (slot ∷ slots) =
    let rest = find_slot name slots in if bytes_eq slot.name name then some slot else rest

-- The first device with the id decides.
unfoldable pub find_in_devices : ℕ → Bytes → List VirtualDevice → Option CommandSlot
unfolding find_slot
find_in_devices aid name [] = none
find_in_devices aid name (dev ∷ devs) =
    let rest = find_in_devices aid name devs in
    if dev.id == aid then find_slot name dev.commands else rest

unfoldable pub resolve_slot : Config → ℕ → Bytes → Option CommandSlot
unfolding find_in_devices
resolve_slot cfg aid name = find_in_devices aid name cfg.devices

-- What went out: the band or the carrier, and the words.
pub data Transmission : Type 0 where
  rf_sent ir_sent : ℕ → List RmtSymbol → Transmission

abbrev pub sent_rf : ℕ → Option (List RmtSymbol) → Option Transmission
sent_rf freq_mhz none = none
sent_rf freq_mhz (some words) = some (rf_sent freq_mhz words)

abbrev pub sent_ir : Option (ℕ × List RmtSymbol) → Option Transmission
sent_ir none = none
sent_ir (some (hz, words)) = some (ir_sent hz words)

unfoldable pub max_reps : ℕ → ℕ
max_reps unit =
    let fit = if ltb 0 unit then max_pulses / unit else 1 in if ltb fit 1 then 1 else fit

-- The copies of the frame in one keying.
unfoldable pub rf_reps : StoredCode → ℕ
unfolding max_reps
rf_reps sc =
    let reps = if ltb sc.frame_repeat 1 then 1 else sc.frame_repeat in
    if ltb (max_reps (length sc.pulses)) reps then max_reps (length sc.pulses) % 256 else reps

unfoldable pub copies : ℕ → List ℕ → List ℕ
copies zero pulses = []
copies (suc n) pulses = pulses ++ copies n pulses

-- The views of asRFCode and asIRCode hold a uint16_t length.
abbrev pub view : List ℕ → List ℕ
view pulses = take (length pulses % 2 ^ 16) pulses

unfoldable pub rf_burst : StoredCode → List ℕ
unfolding rf_reps copies
rf_burst sc = if leb (rf_reps sc) 1 then view sc.pulses else view (copies (rf_reps sc) sc.pulses)

abbrev pub fire_kind : CodeKind → TxAnswers → Receivers → StoredCode → Option Transmission
fire_kind CodeKind.unset k s sc = none
fire_kind CodeKind.rf k s sc = sent_rf sc.freq_mhz (send_rf_code k sc.freq_mhz (rf_burst sc) s)
fire_kind CodeKind.ir k s sc = sent_ir (send_ir k sc.carrier_hz (view sc.pulses) s)

unfoldable pub fire_code : TxAnswers → Receivers → StoredCode → Option Transmission
unfolding is_learned
fire_code k s sc = if not (is_learned sc) then none else fire_kind sc.kind k s sc

pub record PendingSeq : Type 0 where
  pub aid : ℕ
  pub name : Bytes
  pub sends_left : ℕ
  pub delay_ms : ℕ
  pub next_fire_ms : ℕ

-- g_config and g_pending.
pub record Sender : Type 0 where
  pub config : Config
  pub pending : List PendingSeq

unfoldable pub aid_busy : ℕ → List PendingSeq → Bool
aid_busy aid [] = false
aid_busy aid (p ∷ ps) = p.aid == aid || aid_busy aid ps

unfoldable pub send_count : CommandSlot → ℕ
send_count slot =
    if ltb slot.repeat_count 1
    then 1
    else if ltb max_repeat_count slot.repeat_count
    then max_repeat_count
    else slot.repeat_count

unfoldable pub send_delay : CommandSlot → ℕ
send_delay slot =
    if ltb max_repeat_delay_ms slot.repeat_delay_ms
    then max_repeat_delay_ms
    else slot.repeat_delay_ms

-- The sends that remain after the first.
unfoldable pub schedule : ℕ → ℕ → Bytes → CommandSlot → Sender → Sender
unfolding send_count send_delay
schedule now aid name slot s =
    if ltb 1 (send_count slot)
    then record s {
      pending =
          s.pending
          ++ (record {
            aid = aid;
            name = name;
            sends_left = (send_count slot - 1) % 256;
            delay_ms = send_delay slot;
            next_fire_ms = (now + send_delay slot) % 2 ^ 32;
          }
              ∷ []);
    }
    else s

-- The answer to HomeKit, what was sent, and the sender that is left.
pub record Transmitted : Type 0 where
  pub accepted : Bool
  pub sent : Option Transmission
  pub sender : Sender

abbrev pub after_fire : ℕ → ℕ → Bytes → CommandSlot → Sender → Option Transmission → Transmitted
after_fire now aid name slot s none = record { accepted = false; sent = none; sender = s }
after_fire now aid name slot s (some t) = record {
  accepted = true;
  sent = some t;
  sender = schedule now aid name slot s;
}

unfoldable pub transmit_slot :
    TxAnswers → Receivers → ℕ → ℕ → Bytes → Sender → Option CommandSlot → Transmitted
unfolding is_learned aid_busy fire_code schedule
transmit_slot k r now aid name s none = record { accepted = false; sent = none; sender = s }
transmit_slot k r now aid name s (some slot) =
    if not (is_learned slot.code)
    then record { accepted = false; sent = none; sender = s }
    else if aid_busy aid s.pending
    then record { accepted = true; sent = none; sender = s }
    else after_fire now aid name slot s (fire_code k r slot.code)

unfoldable pub transmit : TxAnswers → Receivers → ℕ → ℕ → Bytes → Sender → Transmitted
unfolding transmit_slot resolve_slot
transmit k r now aid name s = transmit_slot k r now aid name s (resolve_slot s.config aid name)

-- firePower: the discrete command, else the toggle. Each send has its own answers.
unfoldable pub fire_power : TxAnswers → TxAnswers → Receivers → ℕ → ℕ → Bool → Sender → Transmitted
unfolding transmit
fire_power k k' r now aid want s =
    let direct = transmit k r now aid (if want then codes "on" else codes "off") s in
    if direct.accepted then direct else transmit k' r now aid (codes "toggle") direct.sender

unfoldable pub covering_command : ℕ → Bytes
covering_command t = if leb t 5 then codes "down" else if leb 95 t then codes "up" else codes "stop"

unfoldable pub key_command : ℕ → Bytes
key_command remote_key =
    if remote_key == 4
    then codes "key_up"
    else if remote_key == 5
    then codes "key_down"
    else if remote_key == 6
    then codes "key_left"
    else if remote_key == 7
    then codes "key_right"
    else if remote_key == 8
    then codes "key_select"
    else if remote_key == 9
    then codes "key_back"
    else if remote_key == 11
    then codes "key_play_pause"
    else if remote_key == 15
    then codes "key_info"
    else []

-- The wrap-safe test of a 32-bit difference.
unfoldable pub is_due : ℕ → PendingSeq → Bool
is_due now p = ltb ((now + (2 ^ 32 - p.next_fire_ms)) % 2 ^ 32) (2 ^ 31)

abbrev pub fire_slot : TxAnswers → Receivers → Option CommandSlot → Option Transmission
fire_slot k r none = none
fire_slot k r (some slot) = fire_code k r slot.code

-- What is left of a sequence that was due, and what was sent.
unfoldable pub after_send : ℕ → PendingSeq → Option Transmission → List PendingSeq
after_send now p none = []
after_send now p (some t) =
    if (p.sends_left + 255) % 256 == 0
    then []
    else record p {
      sends_left = (p.sends_left + 255) % 256;
      next_fire_ms = (now + p.delay_ms) % 2 ^ 32;
    }
      ∷ []

abbrev pub to_list : Option Transmission → List Transmission
to_list none = []
to_list (some t) = t ∷ []

-- The loop of pollPendingSends: the sequences that are left, and what was sent. The answers are
-- those to the send of each sequence.
unfoldable pub poll_seqs :
    (PendingSeq → TxAnswers)
    → Receivers
    → ℕ
    → Config
    → List PendingSeq
    → List PendingSeq × List Transmission
unfolding is_due resolve_slot fire_code after_send
poll_seqs k r now cfg [] = ([], [])
poll_seqs k r now cfg (p ∷ ps) =
    let rest = poll_seqs k r now cfg ps in
    let fired = fire_slot (k p) r (resolve_slot cfg p.aid p.name) in
    if not (is_due now p)
    then (p ∷ rest.0, rest.1)
    else (after_send now p fired ++ rest.0, to_list fired ++ rest.1)

unfoldable pub poll_pending_sends :
    (PendingSeq → TxAnswers) → Receivers → ℕ → Sender → Sender × List Transmission
unfolding poll_seqs
poll_pending_sends k r now s =
    let polled = poll_seqs k r now s.config s.pending in (record s { pending = polled.0 }, polled.1)

-- applyConfigChange, its effect on the sends: sequences in flight are abandoned.
unfoldable pub apply_config_change : Config → Sender → Sender
apply_config_change cfg s = record { config = cfg; pending = [] }

-- hasCommandPrefix.
unfoldable pub starts_with : Bytes → Bytes → Bool
starts_with [] name = true
starts_with (c ∷ prefix) [] = false
starts_with (c ∷ prefix) (b ∷ name) = c == b && starts_with prefix name

unfoldable pub has_slot_prefix : Bytes → List CommandSlot → Bool
unfolding starts_with
has_slot_prefix prefix [] = false
has_slot_prefix prefix (slot ∷ slots) = starts_with prefix slot.name || has_slot_prefix prefix slots

unfoldable pub has_command_prefix : ℕ → Bytes → List VirtualDevice → Bool
unfolding has_slot_prefix
has_command_prefix aid prefix [] = false
has_command_prefix aid prefix (dev ∷ devs) =
    let rest = has_command_prefix aid prefix devs in
    if dev.id == aid then has_slot_prefix prefix dev.commands else rest
