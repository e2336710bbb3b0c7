-- ===== src/Watch.antt =====
-- internal/watch/watch.go: the development watcher, `Run`.
pub mod State
pub mod Log
pub mod Invariant
pub mod Process
pub mod Examples
