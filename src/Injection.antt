-- ===== src/Injection.antt =====
-- internal/injection: the integration into Discord's folder of resources.
pub mod Disk
pub mod Stub
pub mod Asar
pub mod Install
