-- ===== src/Coverage.antt =====
-- internal/compiler/coverage_source.go: the origins of the bytes of an edited source.
pub mod Edits
pub mod Origins
pub mod Moved
pub mod Positions
pub mod Examples
