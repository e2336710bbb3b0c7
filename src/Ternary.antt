-- ===== src/Ternary.antt =====
-- internal/compiler/ternary_parse.go: ternary expressions.
pub mod Tokens
pub mod Bounds
pub mod Loop
pub mod Ordered
pub mod Edited
pub mod Ends
pub mod Examples
