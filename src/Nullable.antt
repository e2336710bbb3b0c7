-- ===== src/Nullable.antt =====
-- internal/compiler/nullable_parse.go: the question mark before a nullable type.
pub mod Stars
pub mod Restored
pub mod Examples
