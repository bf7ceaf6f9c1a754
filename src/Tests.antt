-- ===== src/Tests.antt =====
-- The theorems at concrete inputs.
mod Locks
mod Timers
mod Services
mod Restarts
mod Memory
mod Calls
mod Program
mod Tools
mod Configs
mod Typing
mod Files
mod Buckets
mod Stack
mod Settings
mod Uploads
mod Requests
