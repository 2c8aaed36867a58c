-- ===== src/Config/Validate.antt =====
-- lib/config/config_validate.cpp, validate: the checks in the order of the source, the first
-- failing one giving the result.
pub mod Sound
use homekit_rf_ir_blaster.Base.{
  ℕ, ◌%◌, ◌≡◌, refl, Bool, false, ◌&&◌, ◌||◌, not, List, [], ◌∷◌, ltb, leb, ◌==◌, if◌then◌else◌,
  length, null, Bytes,
}
use homekit_rf_ir_blaster.Config.Model.{
  CodeKind, unset, rf, ir, StoredCode, CommandSlot, VirtualDevice, Config, default_config,
  max_devices, max_name_len, max_pulses, max_repeat_count, max_repeat_delay_ms, max_frame_repeat,
  max_domain_len, ota_port, mdns_port, hap_port,
}
use homekit_rf_ir_blaster.Config.Host.{is_valid_host_or_ip}

pub data ValidateError : Type 0 where
  fine : ValidateError
  too_many_devices duplicate_device_id next_id_not_monotonic reserved_device_id : ValidateError
  bad_service empty_learned_code odd_pulse_count too_many_pulses bad_rf_freq : ValidateError
  bad_ir_carrier bad_repeat_count bad_repeat_delay bad_frame_repeat : ValidateError
  bad_listen_port reserved_listen_port domain_too_long bad_canonical_domain : ValidateError
  name_too_long bad_rolling_flag : ValidateError

-- An early return: the rest counts only where nothing failed before.
infixr 20 ◌then_check◌
abbrev pub ◌then_check◌ : ValidateError → ValidateError → ValidateError
fine then_check e = e
too_many_devices then_check e = too_many_devices
duplicate_device_id then_check e = duplicate_device_id
next_id_not_monotonic then_check e = next_id_not_monotonic
reserved_device_id then_check e = reserved_device_id
bad_service then_check e = bad_service
empty_learned_code then_check e = empty_learned_code
odd_pulse_count then_check e = odd_pulse_count
too_many_pulses then_check e = too_many_pulses
bad_rf_freq then_check e = bad_rf_freq
bad_ir_carrier then_check e = bad_ir_carrier
bad_repeat_count then_check e = bad_repeat_count
bad_repeat_delay then_check e = bad_repeat_delay
bad_frame_repeat then_check e = bad_frame_repeat
bad_listen_port then_check e = bad_listen_port
reserved_listen_port then_check e = reserved_listen_port
domain_too_long then_check e = domain_too_long
bad_canonical_domain then_check e = bad_canonical_domain
name_too_long then_check e = name_too_long
bad_rolling_flag then_check e = bad_rolling_flag

-- The checks that depend on the kind of a learned code.
unfoldable pub check_kind : StoredCode → CodeKind → ValidateError
check_kind c unset = fine
check_kind c rf =
    if not (c.freq_mhz == 315) && not (c.freq_mhz == 433)
    then bad_rf_freq
    else if c.rolling
    then bad_rolling_flag
    else fine
check_kind c ir = if ltb c.carrier_hz 20000 || ltb 60000 c.carrier_hz then bad_ir_carrier else fine

unfoldable pub check_learned : StoredCode → ValidateError
unfolding check_kind
check_learned c =
    if null c.pulses
    then empty_learned_code
    else if not (length c.pulses % 2 == 0)
    then odd_pulse_count
    else if ltb max_pulses (length c.pulses)
    then too_many_pulses
    else (check_kind c c.kind
        then_check (if ltb c.frame_repeat 1 || ltb max_frame_repeat c.frame_repeat
            then bad_frame_repeat
            else fine))

-- An unlearned slot is left alone.
abbrev pub skip_unset : CodeKind → ValidateError → ValidateError
skip_unset unset e = fine
skip_unset rf e = e
skip_unset ir e = e

unfoldable pub check_code : StoredCode → ValidateError
unfolding check_learned
check_code c = skip_unset c.kind (check_learned c)

unfoldable pub check_slot : CommandSlot → ValidateError
check_slot s =
    if ltb max_name_len (length s.name)
    then name_too_long
    else if ltb s.repeat_count 1 || ltb max_repeat_count s.repeat_count
    then bad_repeat_count
    else if ltb max_repeat_delay_ms s.repeat_delay_ms
    then bad_repeat_delay
    else check_code s.code

unfoldable pub check_slots : List CommandSlot → ValidateError
check_slots [] = fine
check_slots (s ∷ ss) = check_slot s then_check check_slots ss

unfoldable pub seen : ℕ → List ℕ → Bool
seen i [] = false
seen i (j ∷ js) = i == j || seen i js

unfoldable pub check_device : ℕ → List ℕ → VirtualDevice → ValidateError
check_device next_id ids d =
    if seen d.id ids
    then duplicate_device_id
    else if ltb d.id 2
    then reserved_device_id
    else if leb next_id d.id
    then next_id_not_monotonic
    else if null d.service
    then bad_service
    else if ltb max_name_len (length d.service)
    then name_too_long
    else if ltb max_name_len (length d.name)
    then name_too_long
    else check_slots d.commands

unfoldable pub check_devices : ℕ → List ℕ → List VirtualDevice → ValidateError
check_devices next_id ids [] = fine
check_devices next_id ids (d ∷ ds) =
    check_device next_id ids d then_check check_devices next_id (d.id ∷ ids) ds

unfoldable pub check_domain : Bytes → ValidateError
check_domain domain =
    if null domain
    then fine
    else if ltb max_domain_len (length domain)
    then domain_too_long
    else if is_valid_host_or_ip domain
    then fine
    else bad_canonical_domain

unfoldable pub check_port : ℕ → ValidateError
check_port p =
    if p == 0
    then bad_listen_port
    else if p == ota_port || p == mdns_port || p == hap_port
    then reserved_listen_port
    else fine

unfoldable pub validate : Config → ValidateError
validate c =
    if ltb max_devices (length c.devices)
    then too_many_devices
    else (check_port c.settings.listen_port
        then_check check_domain c.settings.canonical_domain
        then_check check_devices c.next_device_id [] c.devices)

pub default_validates : validate default_config ≡ fine
unfolding validate check_port check_domain check_devices
default_validates = refl
