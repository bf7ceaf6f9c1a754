-- ===== src/Config.antt =====
-- config/: the description of the stores, checked and completed from the defaults.
-- A Go map is an association list in the order in which the run at hand ranges over it.
pub mod Names
pub mod Props
pub mod Stores
pub mod Checks
pub mod Switch
pub mod Typing
pub mod Again
pub mod Idempotent
pub mod Defaults
pub mod Migrations
pub mod Validate
pub mod Settings
pub mod Reload
pub mod Getters
pub mod Mongo
