-- ===== src/Config/Codec/Envelope.antt =====
-- lib/config/config_codec.cpp: decoding what encoding wrote.
use homekit_rf_ir_blaster.Base.{ℕ, ◌≤◌, ◌≡◌, length, Bytes, arith, All, IsByte}
use homekit_rf_ir_blaster.Config.Model.{schema_version, max_config_bytes}
use homekit_rf_ir_blaster.Config.Crc.{crc32-lt}
use homekit_rf_ir_blaster.Config.Codec.{
  ConfigJson, accept, decode, envelope, put_u16, put_u32, get_u16, get_u32,
}

-- A stored payload of bytes within the ceiling, of a known version, comes back to the JSON reader as it was
-- written.
pub decode-envelope :
    (json : ConfigJson) (version : ℕ) (payload : Bytes)
    → version ≤ schema_version
    → length payload ≤ max_config_bytes
    → All IsByte payload
    → decode json (envelope version payload) ≡ accept version (json.from_json payload)
unfolding decode envelope put_u16 put_u32 get_u16 get_u32
decode-envelope json version payload known short bytes =
    let crc = crc32-lt payload bytes in ground arith
