-- ===== src/Device.antt =====
-- The device's own code in src/, with what it calls of the hardware as parameters.
pub mod Rmt
pub mod Form
pub mod Receive
pub mod Radio
pub mod Learning
pub mod LearnApi
pub mod Sends
pub mod ConfigApi
pub mod AuthStore
pub mod Auth
pub mod Recovery
pub mod Onboarding
