-- ===== src/Handlers.antt =====
-- handlers.go: the calls of clients, as functions of their arguments and of the program's state.
-- `none` for arguments is Go's nil slice, which is not an empty one. A type assertion that asks for
-- `ok` gives an `Option`; an index out of range panics.
pub mod State
pub mod Guards
pub mod Cases
pub mod Sessions
pub mod Services
pub mod Sync
pub mod Items
pub mod Dispatch
pub mod Errors
pub mod Kept
pub mod Lifecycle
pub mod Tokens
