-- ===== src/Inheritance.antt =====
-- internal/compiler/inheritance.go: the type arguments of ancestors.
pub mod Types
pub mod Compose
pub mod Chains
pub mod Examples
