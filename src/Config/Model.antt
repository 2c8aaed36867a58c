-- ===== src/Config/Model.antt =====
-- lib/config/config_model.h: the configuration's data and bounds. Text and pulse buffers are lists;
-- a uint16_t field is a number whose range is stated where it matters.
use homekit_rf_ir_blaster.Base.{ℕ, Bool, true, false, ◌&&◌, not, List, [], null, Bytes}

abbrev pub schema_version : ℕ
schema_version = 2

abbrev pub max_config_bytes : ℕ
max_config_bytes = 16384

abbrev pub max_devices : ℕ
max_devices = 32

abbrev pub max_name_len : ℕ
max_name_len = 32

abbrev pub max_pulses : ℕ
max_pulses = 512

abbrev pub max_repeat_count : ℕ
max_repeat_count = 10

abbrev pub max_repeat_delay_ms : ℕ
max_repeat_delay_ms = 5000

abbrev pub max_frame_repeat : ℕ
max_frame_repeat = 10

abbrev pub max_domain_len : ℕ
max_domain_len = 253

abbrev pub max_label_len : ℕ
max_label_len = 63

abbrev pub ota_port : ℕ
ota_port = 3232

abbrev pub mdns_port : ℕ
mdns_port = 5353

abbrev pub hap_port : ℕ
hap_port = 1201

pub data CodeKind : Type 0 where
  unset rf ir : CodeKind

pub record StoredCode : Type 0 where
  pub kind : CodeKind
  pub pulses : List ℕ
  pub freq_mhz : ℕ
  pub carrier_hz : ℕ
  pub rolling : Bool
  pub frame_repeat : ℕ

abbrev pub empty_code : StoredCode
empty_code = record {
  kind = unset;
  pulses = [];
  freq_mhz = 0;
  carrier_hz = 0;
  rolling = false;
  frame_repeat = 1;
}

abbrev pub is_unset : CodeKind → Bool
is_unset unset = true
is_unset rf = false
is_unset ir = false

unfoldable pub is_learned : StoredCode → Bool
is_learned c = not (is_unset c.kind) && not (null c.pulses)

pub record CommandSlot : Type 0 where
  pub name : Bytes
  pub code : StoredCode
  pub repeat_count : ℕ
  pub repeat_delay_ms : ℕ

pub record VirtualDevice : Type 0 where
  pub id : ℕ
  pub service : Bytes
  pub name : Bytes
  pub commands : List CommandSlot

pub record Settings : Type 0 where
  pub https : Bool
  pub listen_port : ℕ
  pub trusted_proxy : Bool
  pub canonical_domain : Bytes
  pub led_enabled : Bool

pub record Config : Type 0 where
  pub schema : ℕ
  pub settings : Settings
  pub next_device_id : ℕ
  pub devices : List VirtualDevice

abbrev pub default_settings : Settings
default_settings = record {
  https = true;
  listen_port = 443;
  trusted_proxy = false;
  canonical_domain = [];
  led_enabled = true;
}

abbrev pub default_config : Config
default_config = record {
  schema = schema_version;
  settings = default_settings;
  next_device_id = 2;
  devices = [];
}
