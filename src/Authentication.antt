-- ===== src/Authentication.antt =====
-- authentication/: which hosts are sent which credentials.
pub mod Hosts
pub mod Config
pub mod Matching
pub mod Named
mod Examples
