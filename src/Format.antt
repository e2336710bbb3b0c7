-- ===== src/Format.antt =====
-- internal/compiler/format.go: formatting all sources of a project.
pub mod Kinds
pub mod Printer
pub mod Steps
pub mod Layout
pub mod Flatten
pub mod Contents
pub mod Imports
pub mod Woven
pub mod Depth
pub mod Indented
pub mod Levels
pub mod Indentation
pub mod Structure
pub mod Tests
pub mod Permuted
pub mod Blocks
pub mod Project
pub mod Replaced
pub mod Examples
