-- ===== src/Control.antt =====
-- internal/compiler/control_flow.go: when a function's body cannot fall off its end.
pub mod Terminates
pub mod Leaves
pub mod Examples
