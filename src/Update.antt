-- ===== src/Update.antt =====
-- internal/update: versions, signed manifests, and the client that looks for a release.
pub mod Version
pub mod Manifest
pub mod Client
pub mod Apply
