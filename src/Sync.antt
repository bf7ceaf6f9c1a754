-- ===== src/Sync.antt =====
-- sync/: the mutexes and the once-guards that clients share through the service registry.
pub mod Mutex
pub mod Once
