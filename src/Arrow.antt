-- ===== src/Arrow.antt =====
-- internal/compiler/arrow_parse.go: arrow functions.
pub mod Parse
pub mod Spliced
pub mod Lines
pub mod Examples
