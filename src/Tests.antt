-- ===== src/Tests.antt =====
-- Each theorem at a concrete input.
pub mod LearnRuns
pub mod RuntimeRuns
pub mod ConfigRuns
pub mod DeviceRuns
pub mod LearnDriverRuns
pub mod ApiRuns
pub mod AuthRuns
pub mod RecoveryRuns
pub mod OnboardingRuns
