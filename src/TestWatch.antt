-- ===== src/TestWatch.antt =====
-- internal/watch/tests.go: the watcher that runs the tests again after a change.
pub mod State
pub mod Coalesce
pub mod Examples
