-- ===== src/Config/Codec.antt =====
-- lib/config/config_codec.h and config_codec.cpp: the envelope around the JSON text, in a blob store.
pub mod Envelope
pub mod Loading
use homekit_rf_ir_blaster.Base.{
  ℕ, ◌+◌, ◌*◌, ◌/◌, ◌%◌, ◌^◌, ◌≡◌, refl, Bool, true, false, ◌&&◌, ◌||◌, not, List, [], ◌∷◌, ◌++◌,
  Option, none, some, ltb, ◌==◌, if◌then◌else◌, length, null, Bytes, get_or, drop,
}
use homekit_rf_ir_blaster.Config.Model.{Config, default_config, schema_version, max_config_bytes}
use homekit_rf_ir_blaster.Config.Validate.{ValidateError, fine, validate}
use homekit_rf_ir_blaster.Config.Store.{BlobStore}
use homekit_rf_ir_blaster.Config.Crc.{crc32}

abbrev pub blob_magic : ℕ
blob_magic = 0x52464231

abbrev pub blob_header_size : ℕ
blob_header_size = 14

pub data DecodeStatus : Type 0 where
  loaded absent bad_header bad_magic bad_version bad_crc bad_json failed_validation : DecodeStatus

pub record DecodeResult : Type 0 where
  pub config : Config
  pub status : DecodeStatus
  pub used_defaults : Bool
  pub migrated : Bool

-- config_json.cpp: the text of a configuration, where it is within the ceiling, and the
-- configuration of a text, brought up to the present version.
pub record ConfigJson : Type 0 where
  pub to_json : Config → Option Bytes
  pub from_json : Bytes → Option Config

unfoldable pub put_u16 : ℕ → Bytes
put_u16 v = v % 256 ∷ v / 256 % 256 ∷ []

unfoldable pub put_u32 : ℕ → Bytes
put_u32 v = v % 256 ∷ v / 256 % 256 ∷ v / 65536 % 256 ∷ v / 16777216 % 256 ∷ []

-- Bits that do not overlap, so `|` adds.
unfoldable pub get_u16 : Bytes → ℕ → ℕ
get_u16 p i = get_or p i 0 + get_or p (i + 1) 0 * 256

unfoldable pub get_u32 : Bytes → ℕ → ℕ
get_u32 p i =
    get_or p i 0
    + get_or p (i + 1) 0 * 256
    + get_or p (i + 2) 0 * 65536
    + get_or p (i + 3) 0 * 16777216

-- The four fields of the header, and the payload behind them.
unfoldable pub envelope : ℕ → Bytes → Bytes
unfolding put_u16 put_u32
envelope version payload =
    put_u32 blob_magic
    ++ (put_u16 version
        ++ (put_u32 (length payload % 2 ^ 32) ++ (put_u32 (crc32 payload) ++ payload)))

abbrev enveloped : ℕ → Option Bytes → Option Bytes
enveloped version none = none
enveloped version (some payload) = some (envelope version payload)

unfoldable pub encode : ConfigJson → Config → Option Bytes
unfolding envelope
encode json cfg = enveloped cfg.schema (json.to_json cfg)

abbrev pub defaults : DecodeStatus → DecodeResult
defaults status = record {
  config = default_config;
  status = status;
  used_defaults = true;
  migrated = false;
}

abbrev pub is_fine : ValidateError → Bool
is_fine ValidateError.fine = true
is_fine ValidateError.too_many_devices = false
is_fine ValidateError.duplicate_device_id = false
is_fine ValidateError.next_id_not_monotonic = false
is_fine ValidateError.reserved_device_id = false
is_fine ValidateError.bad_service = false
is_fine ValidateError.empty_learned_code = false
is_fine ValidateError.odd_pulse_count = false
is_fine ValidateError.too_many_pulses = false
is_fine ValidateError.bad_rf_freq = false
is_fine ValidateError.bad_ir_carrier = false
is_fine ValidateError.bad_repeat_count = false
is_fine ValidateError.bad_repeat_delay = false
is_fine ValidateError.bad_frame_repeat = false
is_fine ValidateError.bad_listen_port = false
is_fine ValidateError.reserved_listen_port = false
is_fine ValidateError.domain_too_long = false
is_fine ValidateError.bad_canonical_domain = false
is_fine ValidateError.name_too_long = false
is_fine ValidateError.bad_rolling_flag = false

-- What a payload that passed the header's checks gives.
unfoldable pub accept : ℕ → Option Config → DecodeResult
accept version none = defaults bad_json
accept version (some parsed) =
    if is_fine (validate parsed)
    then record {
      config = parsed;
      status = loaded;
      used_defaults = false;
      migrated = ltb version schema_version;
    }
    else defaults failed_validation

unfoldable pub decode : ConfigJson → Bytes → DecodeResult
unfolding get_u16 get_u32 accept
decode json blob =
    let version = get_u16 blob 4 in
    let len = get_u32 blob 6 in
    let payload = drop blob_header_size blob in
    if null blob
    then defaults absent
    else if ltb (length blob) blob_header_size
    then defaults bad_header
    else if not (get_u32 blob 0 == blob_magic)
    then defaults bad_magic
    else if ltb schema_version version
    then defaults bad_version
    else if ltb max_config_bytes len || not (blob_header_size + len == length blob)
    then defaults bad_header
    else if not (crc32 payload == get_u32 blob 10)
    then defaults bad_crc
    else accept version (json.from_json payload)

abbrev put_encoded : {S : Type 0} → BlobStore S → S → Option Bytes → Bool × S
put_encoded ops store none = (false, store)
put_encoded ops store (some blob) = ops.put store blob

unfoldable pub save : {S : Type 0} → BlobStore S → ConfigJson → S → Config → Bool × S
unfolding encode
save ops json store cfg = put_encoded ops store (encode json cfg)

abbrev is_loaded : DecodeStatus → Bool
is_loaded loaded = true
is_loaded absent = false
is_loaded bad_header = false
is_loaded bad_magic = false
is_loaded bad_version = false
is_loaded bad_crc = false
is_loaded bad_json = false
is_loaded failed_validation = false

-- A migrated configuration is written back, whether or not the store takes it.
unfoldable pub keep_upgrade :
    {S : Type 0} → BlobStore S → ConfigJson → S → DecodeResult → DecodeResult × S
unfolding save
keep_upgrade ops json store r =
    if is_loaded r.status && r.migrated then (r, (save ops json store r.config).1) else (r, store)

abbrev load_blob : {S : Type 0} → BlobStore S → ConfigJson → S → Option Bytes → DecodeResult × S
load_blob ops json store none = (defaults absent, store)
load_blob ops json store (some blob) = keep_upgrade ops json store (decode json blob)

unfoldable pub load : {S : Type 0} → BlobStore S → ConfigJson → S → DecodeResult × S
unfolding decode keep_upgrade
load ops json store = load_blob ops json store (ops.get store)
