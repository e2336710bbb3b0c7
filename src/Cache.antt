-- ===== src/Cache.antt =====
-- internal/compiler/build_cache.go: the generated sources that are kept between builds.
pub mod Store
pub mod Safe
pub mod Examples
