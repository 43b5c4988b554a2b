-- ===== src/Bundle.antt =====
-- The bundler, tools/spec-kit/src/specify_cli/bundler/.
pub mod Component
pub mod Manifest
pub mod Records
pub mod Conflict
pub mod Resolver
pub mod Installer
pub mod Catalog
pub mod CatalogStack
pub mod Demo
mod Examples
