-- ===== src/Config.antt =====
-- lib/config: the configuration model, its validation, its stored form, and changes to it.
pub mod Model
pub mod Ip
pub mod Host
pub mod Validate
pub mod Changes
pub mod Store
pub mod Crc
pub mod Codec
pub mod Plan
pub mod Mutate
