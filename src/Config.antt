-- ===== src/Config.antt =====
-- internal/config/config.go: the configuration, how it is completed and checked.
pub mod Policy
pub mod Model
pub mod Defaults
pub mod Check
pub mod Validate
pub mod Switches
pub mod Limits
pub mod Keys
pub mod Start
pub mod Tests
