-- ===== src/Match.antt =====
-- internal/compiler/match_exhaustive.go: a match without default names each case of an enum once.
pub mod Arms
pub mod Round
pub mod Sorted
pub mod Rewritten
pub mod Placed
pub mod Lexed
pub mod Ordered
pub mod RoundTests
pub mod Exhaustive
pub mod Named
pub mod Exact
pub mod Examples
