-- ===== src/Construction.antt =====
-- internal/compiler/construction.go and construction_flow.go: the check that a constructor
-- initializes every field that needs it.
pub mod Visit
pub mod Flow
pub mod Exits
pub mod Steps
pub mod Check
pub mod Runs
pub mod Lowered
pub mod Grows
pub mod Parts
pub mod Loops
pub mod Tries
pub mod Covers
pub mod Cases
pub mod Sound
pub mod Class
pub mod Accepted
pub mod Examples
