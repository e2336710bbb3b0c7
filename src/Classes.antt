-- ===== src/Classes.antt =====
-- internal/compiler/class_model.go: classes, their ancestors and their members.
pub mod Model
pub mod Cycles
pub mod Members
pub mod Overrides
pub mod Parameters
pub mod Arity
pub mod Examples
