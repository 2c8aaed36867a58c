-- ===== src/Device/Radio.antt =====
-- src/radios.cpp, armBand, disarmBand, transmitOOK and sendRFCode, and src/ir.cpp, startIRRx,
-- stopIRRx and sendIR: which channels are open, and what a send puts on the air. The RMT driver's
-- answers are arguments; the strobes of the CC1101 are left to the hardware.
use homekit_rf_ir_blaster.Base.{
  ℕ, ◌/◌, ◌%◌, Bool, true, false, ◌&&◌, ◌||◌, not, List, [], ◌∷◌, Option, none, some, ltb, ◌==◌,
  if◌then◌else◌, length,
}
use homekit_rf_ir_blaster.Config.Model.{max_pulses}
use homekit_rf_ir_blaster.Device.Rmt.{RmtSymbol, pack_pulses_to_symbols}
use homekit_rf_ir_blaster.Device.Receive.{RfBand, IrReceiver}

-- What the calls answer while a receive channel is made.
pub record RxAnswers : Type 0 where
  pub new_channel : Bool
  pub registered : Bool
  pub enabled : Bool

-- The same for a transmit channel. `carrier_applied` is asked for infrared only.
pub record TxAnswers : Type 0 where
  pub new_channel : Bool
  pub new_encoder : Bool
  pub carrier_applied : Bool
  pub enabled : Bool
  pub transmitted : Bool

unfoldable pub open_rx : RxAnswers → RfBand → RfBand
open_rx k b = if b.rx then b else record b { rx = k.new_channel && k.registered }

unfoldable pub enable_rx : RxAnswers → RfBand → RfBand
enable_rx k b =
    if b.rx_enabled
    then record b { frame_ready = false }
    else if k.enabled
    then record b { rx_enabled = true; frame_ready = false }
    else record b { rx = false }

unfoldable pub arm_band : RxAnswers → RfBand → RfBand
unfolding open_rx enable_rx
arm_band k b = let opened = open_rx k b in if opened.rx then enable_rx k opened else opened

unfoldable pub disarm_band : RfBand → RfBand
disarm_band b = record b { rx = false; rx_enabled = false; frame_ready = false }

-- The channel of the infrared receiver is made once, at start.
unfoldable pub start_ir_rx : Bool → IrReceiver → IrReceiver
start_ir_rx enabled r =
    if not r.rx
    then r
    else if not r.rx_enabled && not enabled
    then r
    else record r { rx_enabled = true; frame_ready = false }

unfoldable pub stop_ir_rx : IrReceiver → IrReceiver
stop_ir_rx r =
    if not r.rx || not r.rx_enabled then r else record r { rx_enabled = false; frame_ready = false }

-- The three receivers.
pub record Receivers : Type 0 where
  pub band315 : RfBand
  pub band433 : RfBand
  pub ir : IrReceiver

pub data Band : Type 0 where
  mhz315 mhz433 : Band

unfoldable pub band_for : ℕ → Option Band
band_for freq_mhz =
    if freq_mhz == 315 then some Band.mhz315 else if freq_mhz == 433 then some Band.mhz433 else none

abbrev pub band_of : Band → Receivers → RfBand
band_of Band.mhz315 s = s.band315
band_of Band.mhz433 s = s.band433

abbrev pub set_band : Band → RfBand → Receivers → Receivers
set_band Band.mhz315 b s = record s { band315 = b }
set_band Band.mhz433 b s = record s { band433 = b }

abbrev pub rf_max_symbols : ℕ
rf_max_symbols = max_pulses / 2

abbrev pub transmit_words : Bool → List RmtSymbol → Option (List RmtSymbol)
transmit_words transmitted [] = none
transmit_words transmitted (w ∷ ws) = if transmitted then some (w ∷ ws) else none

-- The words that go out, where the send succeeds.
unfoldable pub transmit_ook : TxAnswers → List ℕ → Option (List RmtSymbol)
unfolding pack_pulses_to_symbols
transmit_ook k pulses =
    if not k.new_channel || not k.new_encoder || not k.enabled
    then none
    else transmit_words k.transmitted (pack_pulses_to_symbols pulses rf_max_symbols)

-- A band whose receive channel exists sends nothing.
abbrev pub transmit_band : TxAnswers → List ℕ → Receivers → Option Band → Option (List RmtSymbol)
transmit_band k pulses s none = none
transmit_band k pulses s (some b) = if (band_of b s).rx then none else transmit_ook k pulses

unfoldable pub send_rf_code : TxAnswers → ℕ → List ℕ → Receivers → Option (List RmtSymbol)
unfolding band_for
send_rf_code k freq_mhz pulses s =
    if ltb (length pulses) 2 || not (length pulses % 2 == 0)
    then none
    else transmit_band k pulses s (band_for freq_mhz)

abbrev pub carrier_min_hz : ℕ
carrier_min_hz = 20000

abbrev pub carrier_max_hz : ℕ
carrier_max_hz = 60000

abbrev pub default_carrier_hz : ℕ
default_carrier_hz = 38000

abbrev pub ir_max_symbols : ℕ
ir_max_symbols = max_pulses / 2

unfoldable pub send_carrier : ℕ → ℕ
send_carrier hz = if ltb hz carrier_min_hz || ltb carrier_max_hz hz then default_carrier_hz else hz

abbrev pub on_carrier : ℕ → Option (List RmtSymbol) → Option (ℕ × List RmtSymbol)
on_carrier hz none = none
on_carrier hz (some words) = some (hz, words)

unfoldable pub send_ir : TxAnswers → ℕ → List ℕ → Receivers → Option (ℕ × List RmtSymbol)
unfolding send_carrier pack_pulses_to_symbols
send_ir k carrier_hz pulses s =
    if ltb (length pulses) 2 || not (length pulses % 2 == 0)
    then none
    else if s.ir.rx_enabled
    then none
    else if not k.new_channel || not k.new_encoder || not k.carrier_applied || not k.enabled
    then none
    else on_carrier (send_carrier carrier_hz)
        (transmit_words k.transmitted (pack_pulses_to_symbols pulses ir_max_symbols))
