-- ===== src/Device/Receive.antt =====
-- src/radios.cpp, collapseBand and pollRFBurst, and src/ir.cpp, pollIRBurst: a received frame of RMT
-- symbols as a burst of mark and space durations. A frame is the symbols that the receive callback
-- counted; the buffer and the re-arming of the receiver belong to the driver.
pub mod Bursts
use homekit_rf_ir_blaster.Base.{
  ℕ, zero, suc, ◌+◌, ◌-◌, ◌*◌, ◌/◌, ◌%◌, ◌^◌, ◌≡◌, refl, Bool, true, false, ◌&&◌, ◌||◌, not, List,
  [], ◌∷◌, ◌++◌, Option, none, some, ltb, leb, ◌==◌, if◌then◌else◌, min, length, null, take,
}
use homekit_rf_ir_blaster.Device.Rmt.{Half, RmtSymbol}

-- The two halves of each symbol, in the order in which the loops read them.
unfoldable pub halves : List RmtSymbol → List Half
halves [] = []
halves (w ∷ ws) = w.first ∷ w.second ∷ halves ws

-- What the loop over an RF frame writes, and whether that ends on a space. It stops at the capacity
-- and at a duration of zero, and skips what stands before the first mark.
unfoldable pub collapse_halves : ℕ → Bool → Bool → List Half → List ℕ × Bool
collapse_halves room started last_was_space [] = ([], last_was_space)
collapse_halves zero started last_was_space (h ∷ hs) = ([], last_was_space)
collapse_halves (suc room) started last_was_space (h ∷ hs) =
    let skipped = collapse_halves (suc room) false last_was_space hs in
    let (out, last) = collapse_halves room true (h.level == 0) hs in
    if h.duration == 0
    then ([], last_was_space)
    else if not started && not (h.level == 1)
    then skipped
    else (min h.duration 65535 ∷ out, last)

-- A trailing space is dropped.
unfoldable pub drop_space : List ℕ × Bool → List ℕ
drop_space (out, last_was_space) = if last_was_space then take (length out - 1) out else out

abbrev pub unless_empty : List ℕ → Option (List ℕ)
unless_empty [] = none
unless_empty (p ∷ ps) = some (p ∷ ps)

-- One band: whether its receive channel exists and is enabled, and the frame that waits.
pub record RfBand : Type 0 where
  pub rx : Bool
  pub rx_enabled : Bool
  pub frame_ready : Bool
  pub frame : List RmtSymbol

unfoldable pub collapse_band : RfBand → ℕ → Option (List ℕ) × RfBand
unfolding halves collapse_halves drop_space
collapse_band b cap = if not b.rx || not b.frame_ready then (none, b) else (
  unless_empty (drop_space (collapse_halves cap false false (halves b.frame))),
  record b { frame_ready = false },
)

abbrev pub env_gap_us : ℕ
env_gap_us = 150

-- The variables of the infrared loop.
pub record Envelope : Type 0 where
  pub out : List ℕ
  pub last_was_space : Bool
  pub mark_accum : ℕ
  pub in_mark : Bool
  pub active_halves : ℕ
  pub total_mark_us : ℕ

abbrev pub empty_envelope : Envelope
empty_envelope = record {
  out = [];
  last_was_space = false;
  mark_accum = 0;
  in_mark = false;
  active_halves = 0;
  total_mark_us = 0;
}

-- The lambda `push`.
unfoldable pub push : ℕ → ℕ → Bool → Envelope → Envelope
push cap us space e =
    if ltb (length e.out) cap
    then record e { out = e.out ++ (min us 65535 ∷ []); last_was_space = space }
    else e

-- A mark that is under way is written first.
unfoldable pub close_mark : ℕ → Envelope → Envelope
unfolding push
close_mark cap e =
    if e.in_mark
    then record (push cap e.mark_accum false e) { mark_accum = 0; in_mark = false }
    else e

unfoldable pub note_half : ℕ → Half → Envelope → Envelope
unfolding close_mark push
note_half cap h e =
    if h.duration == 0
    then e
    else if h.level == 1 && leb env_gap_us h.duration
    then push cap h.duration true (close_mark cap e)
    else record e {
      mark_accum = (e.mark_accum + h.duration) % 2 ^ 32;
      total_mark_us = (e.total_mark_us + h.duration) % 2 ^ 64;
      in_mark = true;
      active_halves = if h.level == 0 then (e.active_halves + 1) % 2 ^ 64 else e.active_halves;
    }

unfoldable pub note_halves : ℕ → List Half → Envelope → Envelope
unfolding note_half
note_halves cap [] e = e
note_halves cap (h ∷ hs) e = note_halves cap hs (note_half cap h e)

-- After the loop a mark under way is written; `mark_accum` is not read again.
unfoldable pub envelope_of : ℕ → List Half → Envelope
unfolding note_halves close_mark
envelope_of cap hs = close_mark cap (note_halves cap hs empty_envelope)

unfoldable pub carrier_of : Envelope → ℕ
carrier_of e =
    if e.total_mark_us == 0
    then 0
    else min (e.active_halves * 1000000 % 2 ^ 64 / e.total_mark_us) 65535

pub record IrReceiver : Type 0 where
  pub rx : Bool
  pub rx_enabled : Bool
  pub frame_ready : Bool
  pub frame : List RmtSymbol

abbrev pub with_carrier : ℕ → Option (List ℕ) → Option (List ℕ × ℕ)
with_carrier hz none = none
with_carrier hz (some out) = some (out, hz)

unfoldable pub poll_ir_burst : IrReceiver → ℕ → Option (List ℕ × ℕ) × IrReceiver
unfolding halves envelope_of drop_space carrier_of
poll_ir_burst r cap =
    if not r.rx || not r.frame_ready
    then (none, r)
    else (let e = envelope_of cap (halves r.frame) in
        (
          with_carrier (carrier_of e) (unless_empty (drop_space (e.out, e.last_was_space))),
          record r { frame_ready = false },
        ))
