-- ===== src/Tokens.antt =====
-- internal/compiler/analyze.go: the tokens of a source with their positions and paired delimiters.
pub mod Pairs
pub mod Balance
pub mod Balanced
pub mod Examples
