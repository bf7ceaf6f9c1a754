-- ===== src/Sessions.antt =====
-- sessionstore/sessionstore.go: the sessions of users, kept in memory and in the database.
pub mod Data
pub mod Store
pub mod Subscriptions
pub mod Invariant
pub mod Records
pub mod Updates
pub mod Additions
pub mod Operations
pub mod Loading
pub mod Restart
pub mod History
pub mod Expiry
pub mod Stale
pub mod Keys
