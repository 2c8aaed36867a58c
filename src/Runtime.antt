-- ===== src/Runtime.antt =====
-- lib/runtime: logins, sessions, tokens, redirects, and recovery from boot loops.
pub mod Throttle
pub mod Crypto
pub mod Encoding
pub mod Decimal
pub mod Fields
pub mod Session
pub mod Password
pub mod Csrf
pub mod Policy
pub mod Setup
pub mod Boot
pub mod ClientKey
pub mod Headers
