-- ===== src/New.antt =====
-- internal/compiler/new_parse.go: the construction of classes.
pub mod Marks
pub mod Widths
pub mod Range
pub mod Examples
