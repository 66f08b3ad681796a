-- ===== src/Sdk.antt =====
-- The Go client library (totoggle_go): paths, the catalog of toggles, activation rules and their
-- strategies, the cache, the fetch of the catalog, and the client.
pub mod Path
pub mod Rule
pub mod Catalog
pub mod Strategy
pub mod Errors
pub mod Cache
pub mod Fetch
pub mod Client
pub mod Samples
mod Tests
