-- ===== src/Config/Validate/Sound.antt =====
-- lib/config/config_validate.cpp, validate: the same bounds without the order of the checks.
use homekit_rf_ir_blaster.Base.{
  ℕ, ◌%◌, ◌≤◌, ◌<◌, ◌≡◌, ◌≢◌, ◌↔◌, ◌⊎◌, inl, inr, refl, true, false, ◌||◌, List, [], ◌∷◌, ltb,
  if◌then◌else◌, length, null, Bytes, All, arith,
}
use homekit_rf_ir_blaster.Config.Model.{
  CodeKind, StoredCode, CommandSlot, VirtualDevice, Config, max_devices, max_name_len, max_pulses,
  max_repeat_count, max_repeat_delay_ms, max_frame_repeat, max_domain_len, ota_port, mdns_port,
  hap_port,
}
use homekit_rf_ir_blaster.Config.Host.{is_valid_host_or_ip}
use homekit_rf_ir_blaster.Config.Validate.{
  ValidateError, fine, ◌then_check◌, check_kind, check_learned, skip_unset, check_code, check_slot,
  check_slots, seen, check_device, check_devices, check_domain, check_port, validate,
}

-- A learned code: its pulses, its band or carrier, and its frame repeats.
abbrev pub IsKind : CodeKind → StoredCode → Type 0
IsKind CodeKind.unset c = Unit {0}
IsKind CodeKind.rf c = ((c.freq_mhz ≡ 315) ⊎ (c.freq_mhz ≡ 433)) × (c.rolling ≡ false)
IsKind CodeKind.ir c = (20000 ≤ c.carrier_hz) × (c.carrier_hz ≤ 60000)

pub record IsLearned (c : StoredCode) : Type 0 where
  pub filled : null c.pulses ≡ false
  pub even : length c.pulses % 2 ≡ 0
  pub few : length c.pulses ≤ max_pulses
  pub kind : IsKind c.kind c
  pub least : 1 ≤ c.frame_repeat
  pub most : c.frame_repeat ≤ max_frame_repeat

abbrev pub IsCodeOf : CodeKind → StoredCode → Type 0
IsCodeOf CodeKind.unset c = Unit {0}
IsCodeOf CodeKind.rf c = IsLearned c
IsCodeOf CodeKind.ir c = IsLearned c

pub record IsSlot (s : CommandSlot) : Type 0 where
  pub named : length s.name ≤ max_name_len
  pub least : 1 ≤ s.repeat_count
  pub most : s.repeat_count ≤ max_repeat_count
  pub delay : s.repeat_delay_ms ≤ max_repeat_delay_ms
  pub code : IsCodeOf s.code.kind s.code

pub record IsDevice (next_id : ℕ) (d : VirtualDevice) : Type 0 where
  pub allocated : (2 ≤ d.id) × (d.id < next_id)
  pub service : null d.service ≡ false
  pub short_service : length d.service ≤ max_name_len
  pub short_name : length d.name ≤ max_name_len
  pub slots : All IsSlot d.commands

-- No device has the id of an earlier one, or one of `ids`.
abbrev pub AreDistinct : List ℕ → List VirtualDevice → Type 0
AreDistinct ids [] = Unit {0}
AreDistinct ids (d ∷ ds) = (seen d.id ids ≡ false) × AreDistinct (d.id ∷ ids) ds

pub record IsValid (c : Config) : Type 0 where
  pub few : length c.devices ≤ max_devices
  pub port : (c.settings.listen_port ≢ 0) × (c.settings.listen_port ≢ ota_port)
  pub port' : (c.settings.listen_port ≢ mdns_port) × (c.settings.listen_port ≢ hap_port)
  pub domain :
      (c.settings.canonical_domain ≡ [])
      ⊎ ((length c.settings.canonical_domain ≤ max_domain_len)
          × (is_valid_host_or_ip c.settings.canonical_domain ≡ true))
  pub distinct : AreDistinct [] c.devices
  pub devices : All (IsDevice c.next_device_id) c.devices

then_check-fine : (a b : ValidateError) → (a then_check b ≡ fine) → (a ≡ fine) × (b ≡ fine)
then_check-fine ValidateError.fine b h = (refl, h)
then_check-fine ValidateError.too_many_devices b h = absurd cc
then_check-fine ValidateError.duplicate_device_id b h = absurd cc
then_check-fine ValidateError.next_id_not_monotonic b h = absurd cc
then_check-fine ValidateError.reserved_device_id b h = absurd cc
then_check-fine ValidateError.bad_service b h = absurd cc
then_check-fine ValidateError.empty_learned_code b h = absurd cc
then_check-fine ValidateError.odd_pulse_count b h = absurd cc
then_check-fine ValidateError.too_many_pulses b h = absurd cc
then_check-fine ValidateError.bad_rf_freq b h = absurd cc
then_check-fine ValidateError.bad_ir_carrier b h = absurd cc
then_check-fine ValidateError.bad_repeat_count b h = absurd cc
then_check-fine ValidateError.bad_repeat_delay b h = absurd cc
then_check-fine ValidateError.bad_frame_repeat b h = absurd cc
then_check-fine ValidateError.bad_listen_port b h = absurd cc
then_check-fine ValidateError.reserved_listen_port b h = absurd cc
then_check-fine ValidateError.domain_too_long b h = absurd cc
then_check-fine ValidateError.bad_canonical_domain b h = absurd cc
then_check-fine ValidateError.name_too_long b h = absurd cc
then_check-fine ValidateError.bad_rolling_flag b h = absurd cc

both_fine : (a b : ValidateError) → a ≡ fine → b ≡ fine → (a then_check b) ≡ fine
both_fine a b h k = rw h k

check_kind_iff : (c : StoredCode) (k : CodeKind) → (check_kind c k ≡ fine) ↔ IsKind k c
unfolding check_kind
check_kind_iff c CodeKind.unset = (λ h. tt, λ h. refl)
check_kind_iff c CodeKind.rf = (λ h. ground arith, λ h. ground arith)
check_kind_iff c CodeKind.ir = (λ h. ground arith, λ h. ground arith)

check_learned-IsLearned : (c : StoredCode) → check_learned c ≡ fine → IsLearned c
unfolding check_learned
check_learned-IsLearned c h =
    let filled : null c.pulses ≡ false = ground arith in
    let even : length c.pulses % 2 ≡ 0 = ground arith in
    let few : length c.pulses ≤ max_pulses = ground arith in
    let tests =
      then_check-fine (check_kind c c.kind)
        (if ltb c.frame_repeat 1 || ltb max_frame_repeat c.frame_repeat
          then ValidateError.bad_frame_repeat
          else fine)
        (ground arith) in
    record {
      filled = filled;
      even = even;
      few = few;
      kind = (check_kind_iff c c.kind).0 tests.0;
      least = ground arith;
      most = ground arith;
    }

learned_is : (c : StoredCode) → IsLearned c → check_learned c ≡ fine
unfolding check_learned
learned_is c k =
    let kind = (check_kind_iff c c.kind).1 k.kind in
    let filled = k.filled in
    let even = k.even in let few = k.few in let least = k.least in let most = k.most in ground arith

check_code_iff : (c : StoredCode) → (check_code c ≡ fine) ↔ IsCodeOf c.kind c
unfolding check_code
check_code_iff c = by_kind c.kind
  where
    by_kind : (k : CodeKind) → (skip_unset k (check_learned c) ≡ fine) ↔ IsCodeOf k c
    by_kind CodeKind.unset = (λ h. tt, λ h. refl)
    by_kind CodeKind.rf = (check_learned-IsLearned c, learned_is c)
    by_kind CodeKind.ir = (check_learned-IsLearned c, learned_is c)

check_slot_iff : (s : CommandSlot) → (check_slot s ≡ fine) ↔ IsSlot s
unfolding check_slot
check_slot_iff s = (
  λ h. record {
    named = ground arith;
    least = ground arith;
    most = ground arith;
    delay = ground arith;
    code = (check_code_iff s.code).0 (ground arith);
  },
  λ k.
      let code = (check_code_iff s.code).1 k.code in
      let named = k.named in
      let least = k.least in let most = k.most in let delay = k.delay in ground arith,
)

check_slots_iff : (ss : List CommandSlot) → (check_slots ss ≡ fine) ↔ All IsSlot ss
unfolding check_slots
check_slots_iff [] = (λ h. tt, λ h. refl)
check_slots_iff (s ∷ ss) = (
  λ h.
      let (one, rest) = then_check-fine (check_slot s) (check_slots ss) h in
      ((check_slot_iff s).0 one, (check_slots_iff ss).0 rest),
  λ k.
      both_fine (check_slot s) (check_slots ss) ((check_slot_iff s).1 k.0)
        ((check_slots_iff ss).1 k.1),
)

check_device_iff :
    (next_id : ℕ) (ids : List ℕ) (d : VirtualDevice)
    → (check_device next_id ids d ≡ fine) ↔ ((seen d.id ids ≡ false) × IsDevice next_id d)
unfolding check_device
check_device_iff next_id ids d = (
  λ h. (
    ground arith,
    record {
      allocated = (ground arith, ground arith);
      service = ground arith;
      short_service = ground arith;
      short_name = ground arith;
      slots = (check_slots_iff d.commands).0 (ground arith);
    },
  ),
  λ k.
      let slots = (check_slots_iff d.commands).1 k.1.slots in
      let new = k.0 in
      let (low, high) = k.1.allocated in
      let service = k.1.service in
      let short = k.1.short_service in let short' = k.1.short_name in ground arith,
)

check_devices_iff :
    (next_id : ℕ) (ids : List ℕ) (ds : List VirtualDevice)
    → (check_devices next_id ids ds ≡ fine) ↔ (AreDistinct ids ds × All (IsDevice next_id) ds)
unfolding check_devices
check_devices_iff next_id ids [] = (λ h. (tt, tt), λ h. refl)
check_devices_iff next_id ids (d ∷ ds) = (
  λ h.
      let (one, rest) =
        then_check-fine (check_device next_id ids d) (check_devices next_id (d.id ∷ ids) ds) h in
      let (new, is) = (check_device_iff next_id ids d).0 one in
      let (distinct, all) = (check_devices_iff next_id (d.id ∷ ids) ds).0 rest in
      ((new, distinct), (is, all)),
  λ k.
      both_fine (check_device next_id ids d) (check_devices next_id (d.id ∷ ids) ds)
        ((check_device_iff next_id ids d).1 (k.0.0, k.1.0))
        ((check_devices_iff next_id (d.id ∷ ids) ds).1 (k.0.1, k.1.1)),
)

check_port_iff :
    (p : ℕ)
    → (check_port p ≡ fine) ↔ (((p ≢ 0) × (p ≢ ota_port)) × ((p ≢ mdns_port) × (p ≢ hap_port)))
unfolding check_port
check_port_iff p =
    (λ h. ((ground arith, ground arith), (ground arith, ground arith)), λ k. ground arith)

check_domain_iff :
    (domain : Bytes)
    → (check_domain domain ≡ fine)
      ↔ ((domain ≡ []) ⊎ ((length domain ≤ max_domain_len) × (is_valid_host_or_ip domain ≡ true)))
unfolding check_domain
check_domain_iff [] = (λ h. inl refl, λ k. refl)
check_domain_iff (c ∷ cs) = (
  λ h. inr (ground arith, ground arith),
  λ k. elim k [ inl e ↦ absurd cc | inr (short, valid) ↦ ground arith ],
)

-- The configurations that validate accepts are exactly those that keep every bound: on the number
-- of devices, on ports, domain, ids (distinct, at least 2, below the next id), names, repeats and
-- learned codes.
pub validate_iff : (c : Config) → (validate c ≡ fine) ↔ IsValid c
unfolding validate
validate_iff c = (
  λ h.
      let few : length c.devices ≤ max_devices = ground arith in
      let (port, rest) = then_check-fine (check_port c.settings.listen_port) _ (ground arith) in
      let (domain, devices) = then_check-fine (check_domain c.settings.canonical_domain) _ rest in
      let (port0, port1) = (check_port_iff c.settings.listen_port).0 port in
      let (distinct, all) = (check_devices_iff c.next_device_id [] c.devices).0 devices in
      record {
        few = few;
        port = port0;
        port' = port1;
        domain = (check_domain_iff c.settings.canonical_domain).0 domain;
        distinct = distinct;
        devices = all;
      },
  λ k.
      let few = k.few in
      let port = (check_port_iff c.settings.listen_port).1 (k.port, k.port') in
      let domain = (check_domain_iff c.settings.canonical_domain).1 k.domain in
      let devices = (check_devices_iff c.next_device_id [] c.devices).1 (k.distinct, k.devices) in
      ground arith,
)
